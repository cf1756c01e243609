-- ===== src/CloudProvider/Launch/RoundTrip.antt =====
-- From Create to Get and IsDrifted: the server that a launch has made, read back by its provider ID.
use karpenter_provider_hetzn.Base.{
  String, ◌≡◌, refl, sym, ap, ◌∙◌, ◌↔◌, inl, inr, Option, none, some, List, [], ◌∷◌, map, All,
  Within,
}
use karpenter_provider_hetzn.Base.Dict.{lookup, NodupKeys}
use karpenter_provider_hetzn.Base.Text.{Bytes}
use karpenter_provider_hetzn.Errors.{Result, ok, err, ok-injective}
use karpenter_provider_hetzn.Metrics.{Metrics}
use karpenter_provider_hetzn.Api.{label_instance_type, node_pool_label_key}
use karpenter_provider_hetzn.Api.NodeClass.{HCloudNodeClass}
use karpenter_provider_hetzn.Api.NodeClaim.{NodeClaim}
use karpenter_provider_hetzn.ImageFamily.{ImageClient}
use karpenter_provider_hetzn.Hcloud.{Server}
use karpenter_provider_hetzn.Instance.{Provider}
use karpenter_provider_hetzn.Instance.ProviderId.{format_provider_id}
use karpenter_provider_hetzn.InstanceType.{FloatOps}
use karpenter_provider_hetzn.CloudProvider.{KubeClient, resolve_node_class}
use karpenter_provider_hetzn.CloudProvider.Scheduling.{Scheduling, IsLawful}
use karpenter_provider_hetzn.CloudProvider.Claims.{create_opts, hydrate, server_to_node_claim}
use karpenter_provider_hetzn.CloudProvider.Drift.{label_of, drift_reason, is_drifted}
use karpenter_provider_hetzn.CloudProvider.Drift.Laws.{drift_reason_iff}
use karpenter_provider_hetzn.CloudProvider.Launch.{
  State, Moment, name, RepairPolicy, repair_policies, NodePool, launched, create,
  get_instance_types, delete, get, list, launch, with_image, chosen, choose, listed, with_class,
  marked, pool_types, claim_found,
}
use karpenter_provider_hetzn.CloudProvider.Launch.Shown.{create-Shown}
use karpenter_provider_hetzn.CloudProvider.Launch.Fresh.{Stays, IsPlaced, InSync-hydrate_iff}
use karpenter_provider_hetzn.CloudProvider.Launch
use karpenter_provider_hetzn.CloudProvider.Drift.Found.{is_drifted-found}
use karpenter_provider_hetzn.Effects.{then_run}
use karpenter_provider_hetzn.InstanceType.Cache.Listed.{IsNamed}
use karpenter_provider_hetzn.Instance.Lifecycle
use karpenter_provider_hetzn.Instance.Lifecycle.Labels.{management_of, lookup-server_labels}
use karpenter_provider_hetzn.Instance.Lifecycle.Stored.{Stores, Made-list}

-- A NodeClaim as core hands it to Create: it has no image yet, and leaves the instance type open.
pub record IsOpen (claim : NodeClaim) : Type 0 where
  pub unset : claim.image_id ≡ []
  pub distinct : NodupKeys claim.labels
  pub untyped : lookup label_instance_type claim.labels ≡ none

module _ {W : Type 0} (kube : KubeClient) (S : Scheduling) (L : IsLawful S) (fl : FloatOps)
    (images : ImageClient) (p : Provider W) (st : Stores p) (moment : Moment)
    (claim : NodeClaim) where
  get-found :
      (provider_id : Bytes) (w : W) (server : Server)
      → (Lifecycle.get p provider_id w).0 ≡ ok (some server)
      → (get kube S fl images p provider_id w).0 ≡ ok (server_to_node_claim fl server)
  unfolding get
  get-found provider_id w server h = go (Lifecycle.get p provider_id w) h
    where
      go :
          (r : Result (Option Server) × W)
          → r.0 ≡ ok (some server)
          → (then_run r (λ found v. (claim_found kube S fl images p provider_id found, v))).0
            ≡ ok (server_to_node_claim fl server)
      go (ok found, v) e = rw (ok-injective e) refl
      go (err d, v) e = absurd (cc e)

  -- If the API keeps what it creates and shows it as requested: the server that Get finds for a NodeClaim
  -- that Create returned carries the management labels, and the NodeClass's labels for the other keys, if
  -- these are given once each; the cached types carry their names.
  pub create-get :
      (s v : State W) (created : NodeClaim) (nc : HCloudNodeClass)
      → IsNamed s.types
      → create kube S fl images p moment claim s ≡ (ok created, v)
      → resolve_node_class kube claim.node_class_ref ≡ ok nc
      → NodupKeys nc.spec.labels
      → (shown : NodeClaim) × ((get kube S fl images p created.provider_id v.remote).0 ≡ ok shown)
        × (shown.provider_id ≡ created.provider_id)
        × ((k : String)
            → lookup k shown.labels
              ≡ elim (management_of p.cluster_name
                  (label_of node_pool_label_key claim.labels)
                  claim.name
                  k) [ none ↦ lookup k nc.spec.labels | some u ↦ some u ])
  unfolding create_opts server_to_node_claim hydrate Lifecycle.create_request
  create-get s v created nc named h class distinct =
      let shown = create-Shown kube S L fl images p st moment claim s v created nc named h class in
      let id : format_provider_id shown.server.id ≡ created.provider_id =
        ap format_provider_id shown.same_id
        ∙ ap (λ (c : NodeClaim). c.provider_id) (sym shown.is_created) in
      (
        server_to_node_claim fl shown.server,
        get-found created.provider_id v.remote shown.server shown.found,
        id,
        λ k.
            shown.asked.labels k
            ∙ lookup-server_labels p.cluster_name
                (create_opts claim nc shown.it shown.offering shown.image shown.user_data) k
                distinct,
      )

  -- IsDrifted finds no drift of a server that Create has just made for an open NodeClaim, exactly if no
  -- management label changes a label of the NodeClass, which are given once each. The API keeps what it
  -- creates and shows it as requested, and the cached types carry their names.
  pub create-is_drifted :
      (s v : State W) (created : NodeClaim) (nc : HCloudNodeClass) (m : Metrics)
      → IsOpen claim
      → IsNamed s.types
      → create kube S fl images p moment claim s ≡ (ok created, v)
      → resolve_node_class kube claim.node_class_ref ≡ ok nc
      → NodupKeys nc.spec.labels
      → ((is_drifted p kube created v.remote m).0 ≡ ok "")
        ↔ All (Stays p.cluster_name claim) nc.spec.labels
  unfolding hydrate
  create-is_drifted s v created nc m fresh named h class distinct =
      let shown = create-Shown kube S L fl images p st moment claim s v created nc named h class in
      let reason =
        is_drifted-found p kube created nc v.remote m shown.server
          (ap (λ (c : NodeClaim). resolve_node_class kube c.node_class_ref) shown.is_created
            ∙ class)
          shown.found in
      let placed : IsPlaced S p.cluster_name claim nc shown.it shown.offering shown.image
          shown.user_data =
        record {
          unset = fresh.unset;
          distinct = fresh.distinct;
          untyped = fresh.untyped;
          named = shown.named;
          offered = shown.offered;
        } in
      let (to, from) =
        InSync-hydrate_iff S p.cluster_name claim nc shown.it shown.offering shown.image
          shown.user_data shown.spread shown.server shown.made placed distinct shown.made_asked
          shown.asked shown.attached in
      let (sync, unsync) =
        drift_reason_iff (hydrate S claim shown.it shown.offering shown.made) nc.spec
          shown.server in
      let same = ap (λ (c : NodeClaim). drift_reason c nc.spec shown.server) shown.is_created in
      (
        λ h. to (sync (sym same ∙ ok-injective (sym reason ∙ h))),
        λ h. reason ∙ ap (λ x. ok x) (same ∙ unsync (from h)),
      )

  Within-map :
      (a : Server) (xs : List Server)
      → Within a xs
      → Within (server_to_node_claim fl a) (map (server_to_node_claim fl) xs)
  Within-map a [] w = absurd w
  Within-map a (x ∷ xs) (inl e) = inl (ap (server_to_node_claim fl) e)
  Within-map a (x ∷ xs) (inr w) = inr (Within-map a xs w)

  list-found :
      (w : W) (claims : List NodeClaim)
      → (Launch.list kube S fl images p w).0 ≡ ok claims
      → (servers : List Server) × ((Lifecycle.list p w).0 ≡ ok servers)
        × (claims ≡ map (server_to_node_claim fl) servers)
  unfolding Launch.list
  list-found w claims h = go (Lifecycle.list p w) h
    where
      go :
          (r : Result (List Server) × W)
          → (then_run r (λ servers v. (ok (map (server_to_node_claim fl) servers), v))).0
            ≡ ok claims
          → (servers : List Server) × (r.0 ≡ ok servers)
            × (claims ≡ map (server_to_node_claim fl) servers)
      go (ok servers, v) e = (servers, refl, sym (ok-injective e))
      go (err d, v) e = absurd (cc e)

  -- If the API keeps what it creates, and selects servers by their labels: List, when it succeeds, returns
  -- a NodeClaim with the provider ID of the one that Create returned, whatever the labels of the NodeClass
  -- are, which are given once each; the cached types carry their names.
  pub create-list :
      (s v : State W) (created : NodeClaim) (nc : HCloudNodeClass) (claims : List NodeClaim)
      → IsNamed s.types
      → create kube S fl images p moment claim s ≡ (ok created, v)
      → resolve_node_class kube claim.node_class_ref ≡ ok nc
      → NodupKeys nc.spec.labels
      → (Launch.list kube S fl images p v.remote).0 ≡ ok claims
      → (c : NodeClaim) × Within c claims × (c.provider_id ≡ created.provider_id)
  unfolding create_opts server_to_node_claim hydrate
  create-list s v created nc claims named h class distinct listing =
      let shown = create-Shown kube S L fl images p st moment claim s v created nc named h class in
      let (servers, answered, same) = list-found v.remote claims listing in
      let (t, there, id) =
        Made-list p st (create_opts claim nc shown.it shown.offering shown.image shown.user_data)
          shown.made v.remote servers distinct shown.kept answered in
      (
        server_to_node_claim fl t,
        rw same (Within-map t servers there),
        ap format_provider_id id ∙ ap (λ (c : NodeClaim). c.provider_id) (sym shown.is_created),
      )
