-- ===== src/CloudProvider/Launch/Fresh.antt =====
-- A server that Create has just made: what Get shows of it, and whether IsDrifted finds it drifted.
use karpenter_provider_hetzn.Base.{
  String, ◌≡◌, refl, sym, ap, ◌∙◌, ◌↔◌, ◌⊎◌, inl, inr, Option, none, some, [], ◌∷◌, arith, eq_iff,
  All, Within, All-of_Within, All-by_Within,
}
use karpenter_provider_hetzn.Base.Dict.{Dict, lookup, NodupKeys}
use karpenter_provider_hetzn.Base.Int.{ℤ}
use karpenter_provider_hetzn.Base.Text.{Bytes, format_int}
use karpenter_provider_hetzn.Base.Text.Laws.{}
use karpenter_provider_hetzn.Errors.{}
use karpenter_provider_hetzn.Metrics.{}
use karpenter_provider_hetzn.Api.{label_instance_type, node_pool_label_key}
use karpenter_provider_hetzn.Api.NodeClass.{HCloudNodeClass}
use karpenter_provider_hetzn.Api.NodeClaim.{NodeClaim}
use karpenter_provider_hetzn.ImageFamily.{Image}
use karpenter_provider_hetzn.Hcloud.{ServerType, Server}
use karpenter_provider_hetzn.Instance.{CreateOpts}
use karpenter_provider_hetzn.Instance.ProviderId.{}
use karpenter_provider_hetzn.InstanceType.{Offering, InstanceType}
use karpenter_provider_hetzn.InstanceType.Catalogue.Listed.{}
use karpenter_provider_hetzn.CloudProvider.{}
use karpenter_provider_hetzn.CloudProvider.Scheduling.{Scheduling}
use karpenter_provider_hetzn.CloudProvider.Claims.{
  type_labels, claim_labels, create_opts, image_text, hydrate,
}
use karpenter_provider_hetzn.CloudProvider.Drift.{label_of}
use karpenter_provider_hetzn.CloudProvider.Drift.Laws.{
  Known, ImageInSync, NetworkInSync, FirewallsInSync, ServerTypeInSync, LocationInSync,
  LabelsInSync, InSync,
}
use karpenter_provider_hetzn.CloudProvider.Selection.{}
use karpenter_provider_hetzn.CloudProvider.Selection.Laws.{}
use karpenter_provider_hetzn.CloudProvider.Selection.Price.{}
use karpenter_provider_hetzn.CloudProvider.Launch.{}
use karpenter_provider_hetzn.CloudProvider.Launch.Laws.{}
use karpenter_provider_hetzn.CloudProvider.Launch.Outcomes.{lookup-claim_labels}
use karpenter_provider_hetzn.InstanceType.Cache.Listed.{}
use karpenter_provider_hetzn.Instance.Lifecycle.{create_request}
use karpenter_provider_hetzn.Instance.Lifecycle.Labels.{
  management_of, management, lookup-server_labels,
}
use karpenter_provider_hetzn.Instance.Lifecycle.Stored.{
  Reported, Reported, IsAsRequested, IsAttached,
}

-- A label of the NodeClass that the management labels do not change.
abbrev pub Stays : String → NodeClaim → String × String → Type 0
Stays cluster_name claim (k, v) =
    (u : String)
    → management_of cluster_name (label_of node_pool_label_key claim.labels) claim.name k ≡ some u
    → u ≡ v

lookup-Within :
    (m : Dict String) (k v : String) → NodupKeys m → Within (k, v) m → lookup k m ≡ some v
unfolding lookup
lookup-Within [] k v h w = absurd w
lookup-Within ((j, u) ∷ m) k v h (inl same) =
    let key : j ≡ k = ap (λ x. x.0) same in
    let value : u ≡ v = ap (λ x. x.1) same in rw ((eq_iff j k).1 key, value) refl
lookup-Within ((j, u) ∷ m) k v h (inr w) =
    let there : lookup k m ≡ some v = lookup-Within m k v h.1 w in ground (arith, eq_iff j k)

-- What `labels_stay` needs of one label.
stays_iff :
    (found kept : Option String) (v : String)
    → found ≡ elim kept [ none ↦ some v | some u ↦ some u ]
    → (found ≡ some v) ↔ ((u : String) → kept ≡ some u → u ≡ v)
stays_iff found none v e = rw e ((λ h u k. absurd (cc k)), (λ h. refl))
stays_iff found (some w) v e = rw e ((λ h u k. cc (h, k)), (λ h. ap (λ x. some x) (h w refl)))

module _ (S : Scheduling) (cluster_name : String) (claim : NodeClaim) (nc : HCloudNodeClass)
    (it : InstanceType) (o : Offering) (image : Image) (user_data : Bytes) where
  abbrev opts : CreateOpts
  opts = create_opts claim nc it o image user_data

  -- Whether a server with the requested labels has the NodeClass's labels.
  labels_stay :
      (spread : Option ℤ) (t : Server)
      → NodupKeys nc.spec.labels
      → IsAsRequested (create_request cluster_name opts spread) t
      → LabelsInSync nc.spec t ↔ All (Stays cluster_name claim) nc.spec.labels
  unfolding create_opts create_request
  labels_stay spread t h asked = (
    λ sync.
        All-by_Within _ nc.spec.labels
          (λ (k, v) w. (one k v w).0 (All-of_Within _ (k, v) nc.spec.labels w sync)),
    λ stay.
        All-by_Within _ nc.spec.labels
          (λ (k, v) w. (one k v w).1 (All-of_Within _ (k, v) nc.spec.labels w stay)),
  )
    where
      one :
          (k v : String)
          → Within (k, v) nc.spec.labels
          → (lookup k t.labels ≡ some v) ↔ Stays cluster_name claim (k, v)
      one k v w = stays_iff (lookup k t.labels) (management cluster_name opts k) v (
          asked.labels k
          ∙ lookup-server_labels cluster_name opts k h
          ∙ ap
              (λ (x : Option String). elim (management cluster_name opts k) [
                | none ↦ x
                | some u ↦ some u
              ])
              (lookup-Within nc.spec.labels k v h w))

  networks_stay :
      (spread : Option ℤ) (t : Server)
      → IsAttached (create_request cluster_name opts spread) t
      → NetworkInSync nc.spec t
  unfolding create_opts create_request
  networks_stay spread t attached positive = (rw positive at attached.networks).0

  firewalls_stay :
      (spread : Option ℤ) (t : Server)
      → IsAttached (create_request cluster_name opts spread) t
      → FirewallsInSync nc.spec t
  unfolding create_opts create_request
  firewalls_stay spread t attached = attached.firewalls

  location_stays :
      (spread : Option ℤ) (t : Server)
      → IsAsRequested (create_request cluster_name opts spread) t
      → (nc.spec.locations ≡ []) ⊎ Within o.zone nc.spec.locations
      → LocationInSync nc.spec t
  unfolding create_opts create_request
  location_stays spread t asked h = go t.location asked.location
    where
      go :
          (l : Option String)
          → Reported (λ x. x ≡ o.zone) l
          → Known (λ x. (nc.spec.locations ≡ []) ⊎ Within x nc.spec.locations) l
      go none e = tt
      go (some x) e = rw e h

  type_stays :
      (spread : Option ℤ) (t s : Server)
      → NodupKeys claim.labels
      → lookup label_instance_type claim.labels ≡ none
      → it.requirements.instance_type ≡ it.name
      → IsAsRequested (create_request cluster_name opts spread) t
      → ServerTypeInSync (hydrate S claim it o s) t
  unfolding create_opts create_request hydrate type_labels label_of lookup
  type_stays spread t s h own named asked = go t.server_type asked.server_type
    where
      shown : label_of label_instance_type (claim_labels it o claim.labels) ≡ it.name
      shown =
          ap (λ (x : Option String). elim x [ none ↦ "" | some v ↦ v ])
            (lookup-claim_labels it o claim.labels label_instance_type h
              ∙ ap
                  (λ (x : Option String). elim x [
                    | some v ↦ some v
                    | none ↦ some it.requirements.instance_type
                  ])
                  own
              ∙ ap (λ x. some x) named)

      go :
          (x : Option ServerType)
          → Reported (λ y. y.name ≡ it.name) x
          → Known
              (λ y.
                (label_of label_instance_type (claim_labels it o claim.labels) ≡ "")
                ⊎ (y.name ≡ label_of label_instance_type (claim_labels it o claim.labels)))
              x
      go none e = tt
      go (some y) e = inr (e ∙ sym shown)

  image_stays :
      (spread : Option ℤ) (t s : Server)
      → claim.image_id ≡ []
      → IsAsRequested (create_request cluster_name opts spread) s
      → IsAsRequested (create_request cluster_name opts spread) t
      → ImageInSync (hydrate S claim it o s) t
  unfolding create_opts create_request hydrate image_text
  image_stays spread t s h made asked = go s.image t.image made.image asked.image
    where
      go :
          (x y : Option Image)
          → Reported (λ i. (j : Image) → some image ≡ some j → i.id ≡ j.id) x
          → Reported (λ i. (j : Image) → some image ≡ some j → i.id ≡ j.id) y
          → Known
              (λ i.
                (image_text x claim.image_id ≡ [])
                ⊎ (image_text x claim.image_id ≡ format_int i.id))
              y
      go x none e f = tt
      go none (some b) e f = inl h
      go (some a) (some b) e f = inr (ap format_int (e image refl ∙ sym (f image refl)))

  -- What a new server needs for its NodeClaim, apart from the labels.
  pub record IsPlaced : Type 0 where
    pub unset : claim.image_id ≡ []
    pub distinct : NodupKeys claim.labels
    pub untyped : lookup label_instance_type claim.labels ≡ none
    pub named : it.requirements.instance_type ≡ it.name
    pub offered : (nc.spec.locations ≡ []) ⊎ Within o.zone nc.spec.locations

  pub InSync-hydrate_iff :
      (spread : Option ℤ) (t s : Server)
      → IsPlaced
      → NodupKeys nc.spec.labels
      → IsAsRequested (create_request cluster_name opts spread) s
      → IsAsRequested (create_request cluster_name opts spread) t
      → IsAttached (create_request cluster_name opts spread) t
      → InSync (hydrate S claim it o s) nc.spec t ↔ All (Stays cluster_name claim) nc.spec.labels
  InSync-hydrate_iff spread t s h distinct made asked attached =
      let (to, from) = labels_stay spread t distinct asked in
      (
        λ sync. to sync.labels,
        λ stay. record {
          image = image_stays spread t s h.unset made asked;
          network = networks_stay spread t attached;
          firewalls = firewalls_stay spread t attached;
          server_type = type_stays spread t s h.distinct h.untyped h.named asked;
          location = location_stays spread t asked h.offered;
          labels = from stay;
        },
      )
