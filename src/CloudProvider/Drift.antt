-- ===== src/CloudProvider/Drift.antt =====
-- IsDrifted of pkg/cloudprovider/cloudprovider.go.
pub mod Laws
pub mod Found
use karpenter_provider_hetzn.Base.{
  String, Bool, false, not, ◌&&◌, Option, none, some, [], str_eq, if◌then◌else◌, is_empty, any, all,
}
use karpenter_provider_hetzn.Base.Dict.{Dict, lookup}
use karpenter_provider_hetzn.Base.Int.{ℤ, eq_ℤ, is_pos}
use karpenter_provider_hetzn.Base.Text.{bytes_eq, format_int}
use karpenter_provider_hetzn.Errors.{wrapf, Result, ok, err}
use karpenter_provider_hetzn.Metrics.{Metrics, record_drift}
use karpenter_provider_hetzn.Api.{label_instance_type}
use karpenter_provider_hetzn.Api.NodeClass.{HCloudNodeClassSpec}
use karpenter_provider_hetzn.Api.NodeClaim.{NodeClaim}
use karpenter_provider_hetzn.Hcloud.{Server}
use karpenter_provider_hetzn.Instance.{Provider}
use karpenter_provider_hetzn.Instance.Lifecycle.{get}
use karpenter_provider_hetzn.CloudProvider.{KubeClient, resolve_node_class}

abbrev pub drift_image : String
drift_image = "ImageDrift"

abbrev pub drift_network : String
drift_network = "NetworkDrift"

abbrev pub drift_firewall : String
drift_firewall = "FirewallDrift"

abbrev pub drift_server_type : String
drift_server_type = "ServerTypeDrift"

abbrev pub drift_location : String
drift_location = "LocationDrift"

abbrev pub drift_labels : String
drift_labels = "LabelsDrift"

-- A pointer to the ID, for which nil has none.
unfoldable pub id_is : ℤ → Option ℤ → Bool
id_is id none = false
id_is id (some i) = eq_ℤ i id

unfoldable pub image_differs : NodeClaim → Server → Bool
image_differs claim server = elim server.image [
  | none ↦ false
  | some image ↦
      not (is_empty claim.image_id) && not (bytes_eq claim.image_id (format_int image.id))
]

unfoldable pub network_missing : HCloudNodeClassSpec → Server → Bool
network_missing spec server =
    is_pos spec.network_id && not (any (id_is spec.network_id) server.private_net)

-- The check for an empty list of firewalls only saves building the set: without firewalls nothing is
-- missing.
unfoldable pub firewall_missing : HCloudNodeClassSpec → Server → Bool
firewall_missing spec server =
    not (all (λ want. any (id_is want) server.firewalls) spec.firewall_ids)

unfoldable pub label_of : String → Dict String → String
label_of k m = elim (lookup k m) [ none ↦ "" | some v ↦ v ]

unfoldable pub server_type_differs : NodeClaim → Server → Bool
server_type_differs claim server = elim server.server_type [
  | none ↦ false
  | some st ↦
      let want = label_of label_instance_type claim.labels in
      not (str_eq want "") && not (str_eq st.name want)
]

unfoldable pub location_differs : HCloudNodeClassSpec → Server → Bool
location_differs spec server = elim server.location [
  | none ↦ false
  | some location ↦
      not (is_empty spec.locations) && not (any (λ l. str_eq l location) spec.locations)
]

unfoldable pub has_label : Dict String → String × String → Bool
has_label labels (k, want) = elim (lookup k labels) [ none ↦ false | some got ↦ str_eq got want ]

-- As for the firewalls, no labels are no drift.
unfoldable pub labels_differ : HCloudNodeClassSpec → Server → Bool
labels_differ spec server = not (all (has_label server.labels) spec.labels)

-- The checks in their order; "" for no drift.
unfoldable pub drift_reason : NodeClaim → HCloudNodeClassSpec → Server → String
drift_reason claim spec server =
    if image_differs claim server
    then drift_image
    else if network_missing spec server
    then drift_network
    else if firewall_missing spec server
    then drift_firewall
    else if server_type_differs claim server
    then drift_server_type
    else if location_differs spec server
    then drift_location
    else if labels_differ spec server
    then drift_labels
    else ""

-- `logDrift`: a drift is counted.
count_drift : String → Metrics → Metrics
unfolding record_drift
count_drift reason m = if str_eq reason "" then m else record_drift reason m

module _ {W : Type 0} (p : Provider W) where
  drift_of :
      NodeClaim
      → HCloudNodeClassSpec
      → Result (Option Server) × W
      → Metrics
      → Result String × W × Metrics
  unfolding count_drift
  drift_of claim spec (err e, w) m = (err (wrapf "getting server: %w" [] e), w, m)
  drift_of claim spec (ok none, w) m = (ok "", w, m)
  drift_of claim spec (ok (some server), w) m =
      let reason = drift_reason claim spec server in (ok reason, w, count_drift reason m)

  unfoldable pub is_drifted : KubeClient → NodeClaim → W → Metrics → Result String × W × Metrics
  unfolding drift_of
  is_drifted kube claim w m = elim (resolve_node_class kube claim.node_class_ref) [
    | err e ↦ (err (wrapf "resolving node class: %w" [] e), w, m)
    | ok nc ↦ drift_of claim nc.spec (get p claim.provider_id w) m
  ]
