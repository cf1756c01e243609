-- ===== src/Instance/Lifecycle/Labels.antt =====
-- The labels of a new server.
use karpenter_provider_hetzn.Base.{
  String, ◌≡◌, not, ◌&&◌, Option, none, some, [], arith, str_eq, eq_iff, if◌then◌else◌,
}
use karpenter_provider_hetzn.Base.Dict.{
  Dict, lookup, insert, merge, NodupKeys, lookup-insert, lookup-merge,
}
use karpenter_provider_hetzn.Instance.{CreateOpts}
use karpenter_provider_hetzn.Instance.Lifecycle.{server_labels, set_unless_empty}
use karpenter_provider_hetzn.Api.{
  server_label_managed_by, server_label_cluster, server_label_node_claim, server_label_node_pool,
  server_value_managed_by,
}

-- What the management labels of a NodePool and a NodeClaim say of a key, if they say anything.
abbrev pub management_of : String → String → String → String → Option String
management_of cluster_name node_pool node_claim k =
    if str_eq k server_label_node_pool && not (str_eq node_pool "")
    then some node_pool
    else if str_eq k server_label_node_claim && not (str_eq node_claim "")
    then some node_claim
    else if str_eq k server_label_cluster
    then some cluster_name
    else if str_eq k server_label_managed_by
    then some server_value_managed_by
    else none

abbrev pub management : String → CreateOpts → String → Option String
management cluster_name opts k = management_of cluster_name opts.node_pool opts.node_claim k

lookup-set_unless_empty :
    (k v j : String) (m : Dict String)
    → lookup j (set_unless_empty k v m)
      ≡ (if str_eq j k && not (str_eq v "") then some v else lookup j m)
unfolding set_unless_empty
lookup-set_unless_empty k v j m = ground (arith, lookup-insert k j v m, eq_iff k j, eq_iff j k)

-- For options with one label to a key, a server carries the management labels, whatever the options'
-- labels say of these keys, and for every other key the options' label.
pub lookup-server_labels :
    (cluster_name : String) (opts : CreateOpts) (k : String)
    → NodupKeys opts.labels
    → lookup k (server_labels cluster_name opts)
      ≡ elim (management cluster_name opts k) [ none ↦ lookup k opts.labels | some v ↦ some v ]
unfolding server_labels lookup
lookup-server_labels cluster_name opts k h = ground (
  arith,
  lookup-set_unless_empty server_label_node_pool opts.node_pool k (
      set_unless_empty server_label_node_claim opts.node_claim (
        insert server_label_cluster cluster_name
          (insert server_label_managed_by server_value_managed_by (merge opts.labels [])))),
  lookup-set_unless_empty server_label_node_claim opts.node_claim k (
      insert server_label_cluster cluster_name
        (insert server_label_managed_by server_value_managed_by (merge opts.labels []))),
  lookup-insert server_label_cluster k cluster_name
      (insert server_label_managed_by server_value_managed_by (merge opts.labels [])),
  lookup-insert server_label_managed_by k server_value_managed_by (merge opts.labels []),
  lookup-merge k opts.labels [] h,
  eq_iff k server_label_managed_by,
  eq_iff server_label_managed_by k,
  eq_iff k server_label_cluster,
  eq_iff server_label_cluster k,
  eq_iff k server_label_node_claim,
  eq_iff k server_label_node_pool,
)
