-- ===== src/CloudProvider/Launch/Requests.antt =====
-- What Create asks of the instance provider, and what it makes of the answer.
use karpenter_provider_hetzn.Base.{◌≡◌, some, List, []}
use karpenter_provider_hetzn.Base.Text.{Bytes}
use karpenter_provider_hetzn.Errors.{wrapf, Result, ok, err}
use karpenter_provider_hetzn.Metrics.{Metrics}
use karpenter_provider_hetzn.Api.{}
use karpenter_provider_hetzn.Api.NodeClass.{HCloudNodeClass}
use karpenter_provider_hetzn.Api.NodeClaim.{NodeClaim}
use karpenter_provider_hetzn.ImageFamily.{Image, ImageClient}
use karpenter_provider_hetzn.Hcloud.{Server}
use karpenter_provider_hetzn.Instance.{Provider, CreateOpts}
use karpenter_provider_hetzn.InstanceType.{Offering, InstanceType, FloatOps}
use karpenter_provider_hetzn.CloudProvider.{KubeClient, resolve_node_class, resolve_user_data}
use karpenter_provider_hetzn.CloudProvider.Scheduling.{Scheduling}
use karpenter_provider_hetzn.CloudProvider.Image.{hcloud_arch_for, resolve_image}
use karpenter_provider_hetzn.CloudProvider.Selection.{empty_selection, select_from}
use karpenter_provider_hetzn.Instance.Lifecycle
use karpenter_provider_hetzn.InstanceType.Cache
use karpenter_provider_hetzn.CloudProvider.Launch.{State, Moment}
use karpenter_provider_hetzn.CloudProvider.Launch.Orders.{IsOrder, IsDescribed}

module _ {W : Type 0} (kube : KubeClient) (S : Scheduling) (fl : FloatOps) (images : ImageClient)
    (p : Provider W) (moment : Moment) (claim : NodeClaim) (s : State W) where
  -- What becomes of the answer of the instance provider.
  abbrev pub Answers : InstanceType → Offering → Result Server → Result NodeClaim → Type 0
  Answers it o (ok server) r =
      (created : NodeClaim) × (r ≡ ok created) × IsDescribed S claim it o server created
  Answers it o (err e) r = r ≡ err (wrapf "creating server: %w" [] e)

  -- A server is requested, and `r` is what becomes of it.
  pub record Orders (r : Result NodeClaim × State W) : Type 0 where
    pub node_class : HCloudNodeClass
    pub its : List InstanceType
    pub it : InstanceType
    pub offering : Offering
    pub image : Image
    pub user_data : Bytes
    pub opts : CreateOpts
    pub class_found : resolve_node_class kube claim.node_class_ref ≡ ok node_class
    pub types_listed :
        (Cache.list fl moment.now node_class.spec.locations moment.answer s.types s.metrics).0
        ≡ ok its
    pub is_best :
        (select_from S node_class claim.requirements empty_selection its).best ≡ some (it, offering)
    pub image_resolved : resolve_image images node_class (hcloud_arch_for it) ≡ ok image
    pub data_resolved : resolve_user_data kube node_class ≡ ok user_data
    pub is_order : IsOrder claim node_class it offering image user_data opts
    pub answers : Answers it offering (Lifecycle.create_server p opts s.remote).0 r.0
    pub left : r.1.remote ≡ (Lifecycle.create_server p opts s.remote).1
