-- ===== src/Tests/Reconciling.antt =====
-- Reconcile at a NodeClass whose images cannot be read, and the configuration.
use karpenter_provider_hetzn.Base.{
  ℕ, ◌+◌, ◌≤◌, ◌<◌, ◌≡◌, refl, inl, ◌≢◌, ◌↔◌, true, false, some, [], ◌∷◌, str_eq, if◌then◌else◌,
  all, All,
}
use karpenter_provider_hetzn.Base.Int.{ℤ, pos}
use karpenter_provider_hetzn.Base.Text.{Bytes, codes, trim_space, contains, to_lower, has_prefix}
use karpenter_provider_hetzn.Errors.{errorf, is_permanent, Result, ok, err}
use karpenter_provider_hetzn.Metrics.{zero_metrics}
use karpenter_provider_hetzn.Api.NodeClass.{
  condition_true, condition_type_images_ready, condition_type_resources_ready,
  condition_type_user_data_ready, current_resolved_images,
}
use karpenter_provider_hetzn.ImageFamily.{Image, resolve, resolve_talos, describes}
use karpenter_provider_hetzn.CloudProvider.{resolve_user_data}
use karpenter_provider_hetzn.Controller.{condition_status}
use karpenter_provider_hetzn.Operator.Config.{
  Environment, default_api_timeout, max_api_timeout, Config, is_name_byte, matches_cluster_name,
  load_api_timeout, load_config,
}
use karpenter_provider_hetzn.Operator.Client.{hcloud_options, new_hcloud_client}
use karpenter_provider_hetzn.Tests.Fixtures.{
  spec, x86_image, node_class, unreadable_images, catalogue_images, snapshot, kube,
}
use karpenter_provider_hetzn.Tests.Conditions.{set_condition, set_condition-IsSetCondition}
use karpenter_provider_hetzn.Controller.Reconcile.{Controller}
use karpenter_provider_hetzn.Controller.Images.Entries.{recorded, entry, entries}
use karpenter_provider_hetzn.Controller.Reconcile.Kept.{dated_images}
use karpenter_provider_hetzn.Controller.Reconcile.Again.{reconcile-again}
use karpenter_provider_hetzn.Controller.Reconcile.Launched.{reconcile-launch}
use karpenter_provider_hetzn.CloudProvider.Image.{resolve_image}
use karpenter_provider_hetzn.Api.{architecture_x86}
use karpenter_provider_hetzn.Controller.Reconcile.Laws.{
  final, reconcile-images, reconcile-images_ready, reconcile-user_data_ready,
  reconcile-resources_ready,
}
use karpenter_provider_hetzn.Operator.Client.Laws.{new_hcloud_client-bounded}

abbrev controller : Controller ℕ
controller = record {
  kube = kube;
  networks = λ id. ok true;
  firewalls = λ id. ok true;
  ssh_keys = λ id. ok false;
  images = unreadable_images;
  recording = true;
  set = set_condition;
  same = λ a b. false;
  update = λ nc w. (ok tt, w + 1);
}

reconcile-images_example :
    (final controller node_class 0 zero_metrics).status.resolved_images
    ≡ entries unreadable_images spec.image_selector (dated_images node_class)
reconcile-images_example =
    reconcile-images controller node_class 0 zero_metrics set_condition-IsSetCondition

reconcile-again_example :
    (final controller
      (final controller node_class 0 zero_metrics)
      1
      zero_metrics).status.resolved_images
    ≡ (final controller node_class 0 zero_metrics).status.resolved_images
reconcile-again_example =
    reconcile-again controller node_class 0 1 zero_metrics zero_metrics set_condition-IsSetCondition

-- The image is there for Reconcile, and the catalogue unreadable for the launch.
abbrev reading : Controller ℕ
reading = record controller { images = catalogue_images }

resolved_x86 :
    resolve catalogue_images spec.image_selector architecture_x86
    ≡ ok (snapshot architecture_x86 (pos 22) 2)
unfolding resolve resolve_talos describes contains to_lower has_prefix
resolved_x86 = refl

reconcile-launch_example :
    (j : Image) × (resolve_image unreadable_images
        (final reading node_class 0 zero_metrics)
        architecture_x86
      ≡ ok j)
    × (j.id ≡ pos 22)
    × (j.architecture ≡ architecture_x86)
reconcile-launch_example =
    reconcile-launch reading node_class 0 zero_metrics set_condition-IsSetCondition
      unreadable_images architecture_x86 (snapshot architecture_x86 (pos 22) 2) (inl refl)
      resolved_x86 refl

reconcile-images_ready_example :
    (condition_status condition_type_images_ready
        (final controller node_class 0 zero_metrics).status.conditions
      ≡ some condition_true)
    ↔ ((final controller node_class 0 zero_metrics).status.resolved_images ≢ [])
reconcile-images_ready_example =
    reconcile-images_ready controller node_class 0 zero_metrics set_condition-IsSetCondition

reconcile-user_data_ready_example :
    (condition_status condition_type_user_data_ready
        (final controller node_class 0 zero_metrics).status.conditions
      ≡ some condition_true)
    ↔ ((b : Bytes) × (resolve_user_data kube node_class ≡ ok b))
reconcile-user_data_ready_example =
    reconcile-user_data_ready controller node_class 0 zero_metrics set_condition-IsSetCondition

reconcile-resources_ready_example :
    (condition_status condition_type_resources_ready
        (final controller node_class 0 zero_metrics).status.conditions
      ≡ some condition_true)
    ↔ (All (λ id. controller.firewalls id ≡ ok true) spec.firewall_ids
        × All (λ id. controller.ssh_keys id ≡ ok true) spec.ssh_key_ids)
reconcile-resources_ready_example =
    reconcile-resources_ready controller node_class 0 zero_metrics set_condition-IsSetCondition

-- The images stay although the catalogue cannot be read.
kept_image :
    entries unreadable_images spec.image_selector (dated_images node_class) ≡ x86_image ∷ []
unfolding dated_images current_resolved_images entry recorded resolve is_permanent condition_status
kept_image = refl

abbrev pub environment : Environment
environment k =
    if str_eq k "CLUSTER_NAME" then " prod " else if str_eq k "HCLOUD_TOKEN" then "t" else ""

abbrev pub parse_duration : Bytes → Result ℤ
parse_duration s = err (errorf "invalid" [])

abbrev pub config : Config
config = record { cluster_name = codes "prod"; api_timeout = default_api_timeout }

pub loaded : load_config parse_duration environment ≡ ok config
unfolding load_config load_api_timeout matches_cluster_name trim_space all is_name_byte
loaded = refl

pub made : new_hcloud_client environment (some config) ≡ ok (hcloud_options "t" default_api_timeout)
unfolding new_hcloud_client
made = refl

new_hcloud_client-bounded_example :
    (0 < (hcloud_options "t" default_api_timeout).http.timeout)
    × ((hcloud_options "t" default_api_timeout).http.timeout ≤ max_api_timeout)
    × ((hcloud_options "t" default_api_timeout).token ≢ "")
new_hcloud_client-bounded_example =
    new_hcloud_client-bounded parse_duration environment config
      (hcloud_options "t" default_api_timeout) loaded made
