-- ===== src/Api.antt =====
-- pkg/apis/v1: the names that the provider writes on servers and nodes, and the children with the
-- HCloudNodeClass and with karpenter's NodeClaim.
pub mod NodeClass
pub mod NodeClaim
use karpenter_provider_hetzn.Base.{String}
use karpenter_provider_hetzn.Base.Text.{Bytes, codes}

abbrev pub group : String
group = "karpenter.hetzner.cloud"

abbrev pub label_cpu_type : String
label_cpu_type = "karpenter.hetzner.cloud/cpu-type"

abbrev pub label_server_family : String
label_server_family = "karpenter.hetzner.cloud/server-family"

abbrev pub provider_id_prefix : Bytes
provider_id_prefix = codes "hcloud://"

abbrev pub server_label_managed_by : String
server_label_managed_by = "karpenter.sh/managed-by"

abbrev pub server_label_cluster : String
server_label_cluster = "karpenter.sh/cluster"

abbrev pub server_label_node_claim : String
server_label_node_claim = "karpenter.sh/nodeclaim"

abbrev pub server_label_node_pool : String
server_label_node_pool = "karpenter.sh/nodepool"

abbrev pub server_value_managed_by : String
server_value_managed_by = "karpenter"

-- Label keys of Kubernetes and karpenter, and the names of the architectures.
abbrev pub label_topology_zone : String
label_topology_zone = "topology.kubernetes.io/zone"

abbrev pub label_instance_type : String
label_instance_type = "node.kubernetes.io/instance-type"

abbrev pub label_arch : String
label_arch = "kubernetes.io/arch"

abbrev pub capacity_type_label_key : String
capacity_type_label_key = "karpenter.sh/capacity-type"

abbrev pub capacity_type_on_demand : String
capacity_type_on_demand = "on-demand"

abbrev pub node_pool_label_key : String
node_pool_label_key = "karpenter.sh/nodepool"

abbrev pub architecture_x86 : String
architecture_x86 = "x86"

abbrev pub architecture_arm : String
architecture_arm = "arm"
