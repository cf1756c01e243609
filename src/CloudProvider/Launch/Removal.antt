-- ===== src/CloudProvider/Launch/Removal.antt =====
-- From Create to Delete: the server that a launch has made is the one that is deleted.
use karpenter_provider_hetzn.Base.{◌≡◌, sym, ap, ◌∙◌, ◌↔◌, some}
use karpenter_provider_hetzn.Base.Dict.{lookup, NodupKeys}
use karpenter_provider_hetzn.Errors.{ok}
use karpenter_provider_hetzn.Metrics.{Metrics}
use karpenter_provider_hetzn.Api.{server_label_cluster}
use karpenter_provider_hetzn.Api.NodeClass.{HCloudNodeClass}
use karpenter_provider_hetzn.Api.NodeClaim.{NodeClaim}
use karpenter_provider_hetzn.ImageFamily.{ImageClient}
use karpenter_provider_hetzn.Hcloud.{Server}
use karpenter_provider_hetzn.Instance.{Provider}
use karpenter_provider_hetzn.Instance.ProviderId.{format_provider_id}
use karpenter_provider_hetzn.InstanceType.{FloatOps}
use karpenter_provider_hetzn.InstanceType.Cache.Listed.{IsNamed}
use karpenter_provider_hetzn.CloudProvider.{KubeClient, resolve_node_class}
use karpenter_provider_hetzn.CloudProvider.Scheduling.{Scheduling, IsLawful}
use karpenter_provider_hetzn.CloudProvider.Claims.{create_opts, hydrate}
use karpenter_provider_hetzn.CloudProvider.Launch.{State, Moment, create, delete}
use karpenter_provider_hetzn.CloudProvider.Launch.Shown.{create-Shown}
use karpenter_provider_hetzn.Instance.Lifecycle
use karpenter_provider_hetzn.Instance.Lifecycle.Labels.{lookup-server_labels}
use karpenter_provider_hetzn.Instance.Lifecycle.Stored.{Stores}
use karpenter_provider_hetzn.Instance.Lifecycle.Removal.{Made-delete}

module _ {W : Type 0} (kube : KubeClient) (S : Scheduling) (L : IsLawful S) (fl : FloatOps)
    (images : ImageClient) (p : Provider W) (st : Stores p) (moment : Moment)
    (claim : NodeClaim) where
  -- If the API keeps what it creates and shows it as requested: Delete of a NodeClaim that Create returned
  -- looks up one server, which has the claim's provider ID and the label of this cluster, and requests its
  -- deletion. Delete succeeds exactly if this request does, and changes nothing else at the remote side.
  -- The labels of the NodeClass are given once each, and the cached types carry their names.
  pub create-delete :
      (s v : State W) (created : NodeClaim) (nc : HCloudNodeClass) (m : Metrics)
      → IsNamed s.types
      → create kube S fl images p moment claim s ≡ (ok created, v)
      → resolve_node_class kube claim.node_class_ref ≡ ok nc
      → NodupKeys nc.spec.labels
      → (t : Server) × (format_provider_id t.id ≡ created.provider_id)
        × (lookup server_label_cluster t.labels ≡ some p.cluster_name)
        × (let (r, w, m') = delete kube S fl images p created v.remote m in
            let (answer, w') = p.client.delete_with_result t (p.client.get_by_id t.id v.remote).1 in
            ((r ≡ ok tt) ↔ (answer ≡ ok tt)) × (w ≡ w'))
  unfolding delete Lifecycle.delete create_opts hydrate Lifecycle.create_request
  create-delete s v created nc m named h class distinct =
      let shown = create-Shown kube S L fl images p st moment claim s v created nc named h class in
      let opts = create_opts claim nc shown.it shown.offering shown.image shown.user_data in
      let (t, same, asked, deleted) = Made-delete p st opts shown.made v.remote shown.kept in
      let id : format_provider_id shown.made.id ≡ created.provider_id =
        ap (λ (c : NodeClaim). c.provider_id) (sym shown.is_created) in
      (
        t,
        ap format_provider_id same ∙ id,
        asked.labels server_label_cluster
            ∙ lookup-server_labels p.cluster_name opts server_label_cluster distinct,
        rw (← id) deleted,
      )
