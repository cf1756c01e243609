-- ===== src/CloudProvider/Launch/Agreement.antt =====
-- GetInstanceTypes and Create agree: core launches a NodeClaim for what the one shows, and the other
-- finds a type for it.
use karpenter_provider_hetzn.Base.{◌≡◌, sym, ap, ◌∙◌, not, some, List, is_none, any}
use karpenter_provider_hetzn.Base.Int.{}
use karpenter_provider_hetzn.Base.Text.{}
use karpenter_provider_hetzn.Errors.{ok, err, ok-injective}
use karpenter_provider_hetzn.Metrics.{Metrics}
use karpenter_provider_hetzn.Api.{}
use karpenter_provider_hetzn.Api.NodeClass.{HCloudNodeClass}
use karpenter_provider_hetzn.Api.NodeClaim.{NodeClaim}
use karpenter_provider_hetzn.ImageFamily.{ImageClient}
use karpenter_provider_hetzn.Hcloud.{}
use karpenter_provider_hetzn.Instance.{Provider}
use karpenter_provider_hetzn.InstanceType.{InstanceType, FloatOps}
use karpenter_provider_hetzn.CloudProvider.{KubeClient, resolve_node_class}
use karpenter_provider_hetzn.CloudProvider.Scheduling.{Scheduling, IsLawful}
use karpenter_provider_hetzn.CloudProvider.Image.{mark_imageless_arches_unavailable}
use karpenter_provider_hetzn.CloudProvider.Image.Offered.{is_offered, select_from-offered}
use karpenter_provider_hetzn.CloudProvider.Selection.{empty_selection, select_from}
use karpenter_provider_hetzn.CloudProvider.Launch.{
  Moment, NodePool, get_instance_types, listed, marked, pool_types,
}
use karpenter_provider_hetzn.InstanceType.Cache

module _ {W : Type 0} (kube : KubeClient) (S : Scheduling) (L : IsLawful S) (fl : FloatOps)
    (images : ImageClient) (p : Provider W) (moment : Moment) where
  shown_types :
      (pool : NodePool) (nc : HCloudNodeClass) (types : Cache.Provider) (m : Metrics)
      (its : List InstanceType)
      → resolve_node_class kube pool.node_class_ref ≡ ok nc
      → (Cache.list fl moment.now nc.spec.locations moment.answer types m).0 ≡ ok its
      → (get_instance_types kube S fl images p moment (some pool) types m).0
        ≡ ok (mark_imageless_arches_unavailable its nc)
  unfolding get_instance_types pool_types marked
  shown_types pool nc types m its class h =
      rw (class, get_instance_types)
        (go (Cache.list fl moment.now nc.spec.locations moment.answer types m) h)
    where
      go :
          (r : Cache.Outcome)
          → r.0 ≡ ok its
          → (marked kube S fl images p moment nc r).0
            ≡ ok (mark_imageless_arches_unavailable its nc)
      go (ok x, v, n) e = ap (λ y. ok (mark_imageless_arches_unavailable y nc)) (ok-injective e)
      go (err e, v, n) h' = absurd (cc h')

  -- For a NodePool of the NodeClass, and the listing that both work on: Create selects a type and an
  -- offering for a NodeClaim exactly if GetInstanceTypes shows a type that is compatible with the
  -- requirements of the claim and has an available offering that fits them; for a scheduling package that
  -- filters and picks the cheapest as documented.
  pub shown-selected_iff :
      (pool : NodePool) (nc : HCloudNodeClass) (claim : NodeClaim) (types : Cache.Provider)
      (m : Metrics) (its shown : List InstanceType)
      → resolve_node_class kube pool.node_class_ref ≡ ok nc
      → (Cache.list fl moment.now nc.spec.locations moment.answer types m).0 ≡ ok its
      → (get_instance_types kube S fl images p moment (some pool) types m).0 ≡ ok shown
      → is_none (select_from S nc claim.requirements empty_selection its).best
        ≡ not (any (is_offered S L nc claim.requirements) shown)
  shown-selected_iff pool nc claim types m its shown class listed h =
      let same : mark_imageless_arches_unavailable its nc ≡ shown =
        ok-injective (sym (shown_types pool nc types m its class listed) ∙ h) in
      select_from-offered S L nc claim.requirements its
      ∙ ap (λ x. not (any (is_offered S L nc claim.requirements) x)) same
