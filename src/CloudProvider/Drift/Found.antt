-- ===== src/CloudProvider/Drift/Found.antt =====
-- IsDrifted for a NodeClass and a server that are found.
use karpenter_provider_hetzn.Base.{◌≡◌, refl, Option, none, some}
use karpenter_provider_hetzn.Errors.{Result, ok, err, ok-injective}
use karpenter_provider_hetzn.Metrics.{Metrics}
use karpenter_provider_hetzn.Api.NodeClass.{HCloudNodeClass}
use karpenter_provider_hetzn.Api.NodeClaim.{NodeClaim}
use karpenter_provider_hetzn.Hcloud.{Server}
use karpenter_provider_hetzn.Instance.{Provider}
use karpenter_provider_hetzn.CloudProvider.{KubeClient, resolve_node_class}
use karpenter_provider_hetzn.CloudProvider.Drift.{drift_reason, is_drifted, drift_of}
use karpenter_provider_hetzn.Base.Text.{}
use karpenter_provider_hetzn.Effects.{}
use karpenter_provider_hetzn.Instance.Lifecycle.{get}

module _ {W : Type 0} (p : Provider W) (kube : KubeClient) (claim : NodeClaim) where
  pub is_drifted-found :
      (nc : HCloudNodeClass) (w : W) (m : Metrics) (server : Server)
      → resolve_node_class kube claim.node_class_ref ≡ ok nc
      → (get p claim.provider_id w).0 ≡ ok (some server)
      → (is_drifted p kube claim w m).0 ≡ ok (drift_reason claim nc.spec server)
  unfolding is_drifted drift_of
  is_drifted-found nc w m server class h = rw (class, is_drifted) (go (get p claim.provider_id w) h)
    where
      go :
          (r : Result (Option Server) × W)
          → r.0 ≡ ok (some server)
          → (drift_of p claim nc.spec r m).0 ≡ ok (drift_reason claim nc.spec server)
      go (ok none, v) e = absurd (cc (ok-injective e))
      go (ok (some t), v) e = let same : t ≡ server = cc (ok-injective e) in rw same refl
      go (err d, v) e = absurd (cc e)
