-- ===== src/CloudProvider/Launch/Shown.antt =====
-- The server that a successful Create has made, as the instance provider's Get shows it.
use mathlib.Core.Path.{subst}
use karpenter_provider_hetzn.Base.{
  ◌≡◌, refl, sym, ap, ◌∙◌, ◌⊎◌, inl, inr, Option, some, [], Within, All-of_Within,
}
use karpenter_provider_hetzn.Base.Int.{ℤ}
use karpenter_provider_hetzn.Base.Text.{Bytes}
use karpenter_provider_hetzn.Errors.{Result, ok, err, ok-injective}
use karpenter_provider_hetzn.Metrics.{Metrics}
use karpenter_provider_hetzn.Api.NodeClass.{HCloudNodeClass}
use karpenter_provider_hetzn.Api.NodeClaim.{NodeClaim}
use karpenter_provider_hetzn.ImageFamily.{Image, ImageClient}
use karpenter_provider_hetzn.Hcloud.{Server}
use karpenter_provider_hetzn.Instance.{Provider}
use karpenter_provider_hetzn.InstanceType.{Offering, InstanceType, FloatOps}
use karpenter_provider_hetzn.CloudProvider.{KubeClient, resolve_node_class}
use karpenter_provider_hetzn.CloudProvider.Scheduling.{Scheduling, IsLawful}
use karpenter_provider_hetzn.CloudProvider.Claims.{create_opts, hydrate}
use karpenter_provider_hetzn.CloudProvider.Selection.Price.{select_from-cheapest}
use karpenter_provider_hetzn.CloudProvider.Launch.{State, Moment, launched, create, listed}
use karpenter_provider_hetzn.CloudProvider.Launch.Laws.{create-Reaches}
use karpenter_provider_hetzn.InstanceType.Cache.Listed.{IsNamed, list-listed}
use karpenter_provider_hetzn.Instance.Lifecycle
use karpenter_provider_hetzn.Instance.Lifecycle.Stored.{
  IsAsRequested, IsAttached, Stores, Made, create_server-ok, Made-get,
}

module _ {W : Type 0} (kube : KubeClient) (S : Scheduling) (L : IsLawful S) (fl : FloatOps)
    (images : ImageClient) (p : Provider W) (st : Stores p) (moment : Moment)
    (claim : NodeClaim) where
  launched-both :
      (it : InstanceType) (o : Offering) (r : Result Server × W × Metrics) (before v : State W)
      (created : NodeClaim)
      → (ok created, v) ≡ launched kube S fl images p moment claim it o r before
      → (server : Server) × (r.0 ≡ ok server)
        × (r.1 ≡ v.remote)
        × (created ≡ hydrate S claim it o server)
  unfolding launched
  launched-both it o (ok server, w, m) before v created h =
      (server, refl, sym (ap (λ x. x.1.remote) h), ok-injective (ap (λ x. x.0) h))
  launched-both it o (err e, w, m) before v created h = absurd (cc (ap (λ x. x.0) h))

  -- What a successful Create has done, as Get shows it.
  pub record Shown (nc : HCloudNodeClass) (created : NodeClaim) (w : W) : Type 0 where
    pub it : InstanceType
    pub offering : Offering
    pub image : Image
    pub user_data : Bytes
    pub spread : Option ℤ
    pub made : Server
    pub server : Server
    pub is_created : created ≡ hydrate S claim it offering made
    pub same_id : server.id ≡ made.id
    pub found : (Lifecycle.get p created.provider_id w).0 ≡ ok (some server)
    pub made_asked :
        IsAsRequested
          (Lifecycle.create_request p.cluster_name
            (create_opts claim nc it offering image user_data)
            spread)
          made
    pub asked :
        IsAsRequested
          (Lifecycle.create_request p.cluster_name
            (create_opts claim nc it offering image user_data)
            spread)
          server
    pub attached :
        IsAttached
          (Lifecycle.create_request p.cluster_name
            (create_opts claim nc it offering image user_data)
            spread)
          server
    pub kept : Made p st (create_opts claim nc it offering image user_data) made w
    pub named : it.requirements.instance_type ≡ it.name
    pub offered : (nc.spec.locations ≡ []) ⊎ Within offering.zone nc.spec.locations

  -- What the server that was made shows, for the choice that Create made.
  chosen-Shown :
      (nc : HCloudNodeClass) (it : InstanceType) (o : Offering) (image : Image) (user_data : Bytes)
      (server : Server) (w : W) (created : NodeClaim)
      → created ≡ hydrate S claim it o server
      → it.requirements.instance_type ≡ it.name
      → (nc.spec.locations ≡ []) ⊎ Within o.zone nc.spec.locations
      → Made p st (create_opts claim nc it o image user_data) server w
      → Shown nc created w
  unfolding hydrate
  chosen-Shown nc it o image user_data server w created is named offered made =
      let (t, found, same, asked, attached) = Made-get p st _ server w made in
      record {
        it = it;
        offering = o;
        image = image;
        user_data = user_data;
        spread = made.0;
        made = server;
        server = t;
        is_created = is;
        same_id = same;
        found =
            subst (λ (c : NodeClaim). (Lifecycle.get p c.provider_id w).0 ≡ ok (some t)) (sym is)
              found;
        made_asked = made.3;
        asked = asked;
        attached = attached;
        kept = made;
        named = named;
        offered = offered;
      }

  -- If the API keeps what it creates and shows it as requested, the server of a NodeClaim that Create
  -- returns is found by the claim's provider ID, of the type and in a location that the NodeClass allows.
  pub create-Shown :
      (s v : State W) (created : NodeClaim) (nc : HCloudNodeClass)
      → IsNamed s.types
      → create kube S fl images p moment claim s ≡ (ok created, v)
      → resolve_node_class kube claim.node_class_ref ≡ ok nc
      → Shown nc created v.remote
  unfolding Lifecycle.create
  create-Shown s v created nc named h class =
      elim (create-Reaches kube S fl images p moment claim s) [
        | inl (e, failed, same) ↦ absurd (cc (ap (λ x. x.0) h, failed))
        | inr r ↦
            let opts = create_opts claim r.node_class r.it r.offering r.image r.user_data in
            let (server, made, left, is) =
              launched-both r.it r.offering
                (Lifecycle.create p moment.elapsed opts r.before.remote r.before.metrics) r.before v
                created (sym h ∙ r.result) in
            let same_class : r.node_class ≡ nc = ok-injective (sym r.class_found ∙ class) in
            let (names, zones) =
              list-listed fl moment.now r.node_class.spec.locations moment.answer s.types s.metrics
                r.its named r.types_listed in
            let (listed, eligible, offers, launchable, cheapest) =
              select_from-cheapest S L r.node_class claim.requirements r.its r.it r.offering
                r.is_best in
            let in_zone : (r.node_class.spec.locations ≡ [])
                ⊎ Within r.offering.zone r.node_class.spec.locations =
              All-of_Within _ r.offering r.it.offerings offers
                (All-of_Within _ r.it r.its listed zones) in
            subst (λ x. Shown x created v.remote) same_class
              (chosen-Shown r.node_class r.it r.offering r.image r.user_data server v.remote created
                is (All-of_Within _ r.it r.its listed names) in_zone
                (subst (Made p st opts server) left
                  (create_server-ok p st opts r.before.remote server made)))
      ]
