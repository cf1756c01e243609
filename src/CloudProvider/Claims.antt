-- ===== src/CloudProvider/Claims.antt =====
-- What Create asks of the instance provider, and the NodeClaims that are made of servers, in
-- pkg/cloudprovider/cloudprovider.go.
use karpenter_provider_hetzn.Base.{◌*◌, String, Option, none, some, [], ◌∷◌}
use karpenter_provider_hetzn.Base.Dict.{Dict, insert, merge}
use karpenter_provider_hetzn.Base.Int.{pos, wrap64}
use karpenter_provider_hetzn.Base.Text.{Bytes, format_int}
use karpenter_provider_hetzn.Errors.{}
use karpenter_provider_hetzn.Api.{
  label_cpu_type, label_server_family, label_topology_zone, label_instance_type, label_arch,
  capacity_type_label_key, node_pool_label_key,
}
use karpenter_provider_hetzn.Api.NodeClass.{
  HCloudNodeClass, public_ipv4_enabled, public_ipv6_enabled,
}
use karpenter_provider_hetzn.Api.NodeClaim.{ResourceList, NodeClaim}
use karpenter_provider_hetzn.ImageFamily.{Image}
use karpenter_provider_hetzn.Hcloud.{ServerType, Server}
use karpenter_provider_hetzn.Instance.{CreateOpts}
use karpenter_provider_hetzn.Instance.ProviderId.{format_provider_id}
use karpenter_provider_hetzn.InstanceType.{Offering, TypeRequirements, InstanceType, FloatOps}
use karpenter_provider_hetzn.CloudProvider.{}
use karpenter_provider_hetzn.CloudProvider.Scheduling.{Scheduling}
use karpenter_provider_hetzn.CloudProvider.Image.{}
use karpenter_provider_hetzn.CloudProvider.Selection.{}
use karpenter_provider_hetzn.CloudProvider.Drift.{label_of}

-- The labels of a type's requirements with one value each.
unfoldable pub type_labels : TypeRequirements → Dict String
type_labels r =
    (label_instance_type, r.instance_type)
    ∷ (label_arch, r.arch)
    ∷ (capacity_type_label_key, r.capacity_type)
    ∷ (label_cpu_type, r.cpu_type)
    ∷ (label_server_family, r.server_family)
    ∷ []

unfoldable pub claim_labels : InstanceType → Offering → Dict String → Dict String
unfolding type_labels
claim_labels it offering labels = merge labels (
    insert capacity_type_label_key offering.capacity_type
      (insert label_topology_zone offering.zone (type_labels it.requirements)))

unfoldable pub create_opts :
    NodeClaim → HCloudNodeClass → InstanceType → Offering → Image → Bytes → CreateOpts
unfolding label_of
create_opts claim nc it offering image user_data = record {
  name = claim.name;
  server_type = it.name;
  location = offering.zone;
  image = some image;
  network_id = nc.spec.network_id;
  firewall_ids = nc.spec.firewall_ids;
  ssh_key_ids = nc.spec.ssh_key_ids;
  labels = nc.spec.labels;
  user_data = user_data;
  node_claim = claim.name;
  node_pool = label_of node_pool_label_key claim.labels;
  placement_group_strategy = nc.spec.placement_group_strategy;
  enable_public_ipv4 = public_ipv4_enabled nc.spec;
  enable_public_ipv6 = public_ipv6_enabled nc.spec;
}

unfoldable pub image_text : Option Image → Bytes → Bytes
image_text none before = before
image_text (some image) before = format_int image.id

-- The NodeClaim that Create returns.
unfoldable pub hydrate : Scheduling → NodeClaim → InstanceType → Offering → Server → NodeClaim
unfolding claim_labels image_text
hydrate S claim it offering server = record claim {
  labels = claim_labels it offering claim.labels;
  provider_id = format_provider_id server.id;
  image_id = image_text server.image claim.image_id;
  capacity = some it.capacity;
  allocatable = some (S.allocatable it);
}

unfoldable pub server_capacity : FloatOps → ServerType → ResourceList
unfolding wrap64
server_capacity fl st = record {
  milli_cpu = wrap64 (st.cores * 1000);
  memory = fl.memory_bytes st.memory;
  ephemeral_storage = wrap64 (st.disk * 1024 * 1024 * 1024);
  pods = pos 110;
}

unfoldable pub server_to_node_claim : FloatOps → Server → NodeClaim
unfolding image_text server_capacity
server_to_node_claim fl server = record {
  name = "";
  labels = server.labels;
  node_class_ref = none;
  requirements = [];
  provider_id = format_provider_id server.id;
  image_id = image_text server.image [];
  capacity = elim server.server_type [ none ↦ none | some st ↦ some (server_capacity fl st) ];
  allocatable = none;
}
