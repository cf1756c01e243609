-- ===== src/Controller/Reconcile.antt =====
-- Reconcile of pkg/controllers/nodeclass/controller.go.
pub mod Kept
pub mod Laws
pub mod Again
pub mod Launched
use karpenter_provider_hetzn.Effects.{Eff, then_run}
use karpenter_provider_hetzn.Base.{ℕ, ◌*◌, String, Bool, [], if◌then◌else◌}
use karpenter_provider_hetzn.Errors.{Result, ok}
use karpenter_provider_hetzn.Metrics.{Metrics}
use karpenter_provider_hetzn.Api.NodeClass.{
  HCloudNodeClass, condition_type_resources_ready, condition_type_user_data_ready,
}
use karpenter_provider_hetzn.ImageFamily.{ImageClient}
use karpenter_provider_hetzn.CloudProvider.{KubeClient}
use karpenter_provider_hetzn.Controller.{SetCondition, Pass}
use karpenter_provider_hetzn.Controller.Validation.{
  Getter, validate_resources, validate_user_data, network_pass, verdict_pass,
}
use karpenter_provider_hetzn.Controller.Images.{images_pass}

-- five minutes, in nanoseconds
abbrev pub resync_interval : ℕ
resync_interval = 5 * 60 * 1000000000

abbrev pub controller_name : String
controller_name = "nodeclass.status"

-- The controller with its clients. `same` is equality.Semantic.DeepEqual, and `update` writes the status.
pub record Controller (W : Type 0) : Type 0 where
  pub kube : KubeClient
  pub networks : Getter
  pub firewalls : Getter
  pub ssh_keys : Getter
  pub images : ImageClient
  pub recording : Bool
  pub set : SetCondition
  pub same : HCloudNodeClass → HCloudNodeClass → Bool
  pub update : HCloudNodeClass → Eff W (Unit {0})

module _ {W : Type 0} (c : Controller W) where
  -- The three checks before the images.
  unfoldable pub checks_pass : Pass → Pass
  unfolding network_pass verdict_pass validate_resources validate_user_data
  checks_pass s =
      let s1 = network_pass c.set c.recording c.networks s in
      let s2 =
        verdict_pass c.set c.recording condition_type_resources_ready "ValidateResources"
          (validate_resources c.firewalls c.ssh_keys s1.nc) s1 in
      verdict_pass c.set c.recording condition_type_user_data_ready "ValidateUserData"
        (validate_user_data c.kube s2.nc) s2

  -- Reconcile up to its write.
  unfoldable pub status_pass : Pass → Pass
  unfolding checks_pass images_pass
  status_pass s = images_pass c.set c.recording c.images (checks_pass s)

  -- The time of the next call, with the state at the end.
  unfoldable pub reconcile : HCloudNodeClass → W → Metrics → (Result ℕ × W) × Pass
  unfolding status_pass
  reconcile nc w m =
      let s = status_pass (record { nc = nc; events = []; metrics = m }) in
      if c.same nc s.nc
      then ((ok resync_interval, w), s)
      else (then_run (c.update s.nc w) (λ u v. (ok resync_interval, v)), s)
