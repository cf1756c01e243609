-- ===== src/Instance/Lifecycle.antt =====
-- Create, Delete, Get and List of pkg/providers/instance/instance.go. The metrics are passed along
-- with the remote state; `elapsed` is the time that Create took.
pub mod Labels
pub mod Creation
pub mod Deletion
pub mod Stored
pub mod Removal
pub mod Groups
use karpenter_provider_hetzn.Effects.{Eff, ◌>>=◌, return, fail, mapping_error}
use karpenter_provider_hetzn.Base.{
  ℕ, String, ◌<>◌, Option, none, some, List, [], ◌∷◌, str_eq, if◌then◌else◌,
}
use karpenter_provider_hetzn.Base.Dict.{Dict, insert, merge}
use karpenter_provider_hetzn.Base.Int.{ℤ, is_pos}
use karpenter_provider_hetzn.Base.Text.{Bytes}
use karpenter_provider_hetzn.Hcloud.{Server, ServerCreateOpts, Action, ServerCreateResult}
use karpenter_provider_hetzn.Errors.{
  int, text, bytes, not_found, Error, errorf, wrapf, node_claim_not_found, is_error,
  is_node_claim_not_found, Result, ok, err,
}
use karpenter_provider_hetzn.Metrics.{
  Metrics, result_success, result_error, record_server_create, record_server_delete,
}
use karpenter_provider_hetzn.Api.{
  group, server_label_managed_by, server_label_cluster, server_label_node_claim,
  server_label_node_pool, server_value_managed_by,
}
use karpenter_provider_hetzn.Instance.{PlacementGroupClient, ActionWaiter, Provider, CreateOpts}
use karpenter_provider_hetzn.Instance.ProviderId.{parse_provider_id}
use karpenter_provider_hetzn.Instance.CreateError.{map_create_error}

unfoldable pub placement_group_name : String → String → String
placement_group_name cluster_name node_pool =
    let base = "karpenter-" <> cluster_name in
    if str_eq node_pool "" then base else base <> ("-" <> node_pool)

unfoldable pub set_unless_empty : String → String → Dict String → Dict String
set_unless_empty k v m = if str_eq v "" then m else insert k v m

-- The labels of a new server: the options' labels, then the management labels over them.
unfoldable pub server_labels : String → CreateOpts → Dict String
server_labels cluster_name opts = set_unless_empty server_label_node_pool opts.node_pool (
    set_unless_empty server_label_node_claim opts.node_claim (
      insert server_label_cluster cluster_name
        (insert server_label_managed_by server_value_managed_by (merge opts.labels []))))

-- The request, but for the placement group.
unfoldable pub create_request : String → CreateOpts → Option ℤ → ServerCreateOpts
unfolding server_labels
create_request cluster_name opts group = record {
  name = opts.name;
  server_type = opts.server_type;
  image = opts.image;
  location = opts.location;
  networks = if is_pos opts.network_id then opts.network_id ∷ [] else [];
  firewalls = opts.firewall_ids;
  ssh_keys = opts.ssh_key_ids;
  labels = server_labels cluster_name opts;
  user_data = opts.user_data;
  enable_ipv4 = opts.enable_public_ipv4;
  enable_ipv6 = opts.enable_public_ipv6;
  placement_group = group;
}

-- The label selector of List: this cluster's servers that karpenter manages.
unfoldable pub list_selector : String → String
list_selector cluster_name =
    server_label_managed_by
    <> ("="
        <> (server_value_managed_by <> ("," <> (server_label_cluster <> ("=" <> cluster_name)))))

created_actions : ServerCreateResult → List Action
created_actions r = elim r.action [ none ↦ r.next_actions | some a ↦ a ∷ r.next_actions ]

module _ {W : Type 0} where
  first_or_create : PlacementGroupClient W → String → List ℤ → Eff W ℤ
  first_or_create pg name (id ∷ ids) = return id
  first_or_create pg name [] =
      mapping_error (wrapf "creating placement group %q: %w" (text name ∷ [])) (pg.create name)

  unfoldable pub get_or_create_placement_group : PlacementGroupClient W → String → Eff W ℤ
  unfolding first_or_create
  get_or_create_placement_group pg name = do
    existing ← mapping_error (wrapf "listing placement groups: %w" []) (pg.all_with_opts name)
    first_or_create pg name existing

  -- The placement group of the request: none without a client, and for the strategy "none".
  placement : Option (PlacementGroupClient W) → String → CreateOpts → Eff W (Option ℤ)
  unfolding get_or_create_placement_group placement_group_name
  placement none cluster_name opts = return none
  placement (some pg) cluster_name opts =
      if str_eq opts.placement_group_strategy "none" then return none else do
        id ←
            mapping_error (wrapf "resolving placement group: %w" [])
              (get_or_create_placement_group pg (placement_group_name cluster_name opts.node_pool))
        return (some id)

  wait_for_actions : Option (ActionWaiter W) → String → List Action → Eff W (Unit {0})
  wait_for_actions none name actions = return tt
  wait_for_actions (some waiter) name [] = return tt
  wait_for_actions (some waiter) name (a ∷ actions) =
      mapping_error (wrapf "waiting for server %q create actions: %w" (text name ∷ []))
        (waiter.wait_for (a ∷ actions))

  module _ (p : Provider W) where
    -- The method `create`.
    unfoldable pub create_server : CreateOpts → Eff W Server
    unfolding placement create_request wait_for_actions created_actions map_create_error
    create_server opts = do
      group ← placement p.pg_client p.cluster_name opts
      result ←
          mapping_error map_create_error
            (p.client.create (create_request p.cluster_name opts group))
      waited ← wait_for_actions p.waiter opts.name (created_actions result)
      return result.server

    result_label : Result Server → String
    result_label (ok s) = result_success
    result_label (err e) = result_error

    -- The method `Create`.
    unfoldable pub create : ℕ → CreateOpts → W → Metrics → Result Server × W × Metrics
    unfolding create_server result_label record_server_create
    create elapsed opts w m =
        let (r, w') = create_server opts w in
        (r, w', record_server_create (result_label r) elapsed m)

    gone : ℤ → Error
    gone id = node_claim_not_found (errorf "server %d not found" (int id ∷ []))

    unless_gone : ℤ → String → Error → Error
    unfolding gone is_error
    unless_gone id what e = if is_error e not_found then gone id else wrapf what (int id ∷ []) e

    delete_found : ℤ → Option Server → Eff W (Unit {0})
    unfolding gone unless_gone
    delete_found id none = fail (gone id)
    delete_found id (some server) =
        mapping_error (unless_gone id "deleting server %d: %w") (p.client.delete_with_result server)

    delete_by : Bytes → Result ℤ → Eff W (Unit {0})
    unfolding unless_gone delete_found
    delete_by provider_id (err e) =
        fail (wrapf "parsing provider ID %q: %w" (bytes provider_id ∷ []) e)
    delete_by provider_id (ok id) = do
      server ← mapping_error (unless_gone id "getting server %d: %w") (p.client.get_by_id id)
      delete_found id server

    -- The method `delete`.
    unfoldable pub delete_server : Bytes → Eff W (Unit {0})
    unfolding delete_by
    delete_server provider_id = delete_by provider_id (parse_provider_id provider_id)

    delete_label : Result (Unit {0}) → String
    delete_label (ok u) = result_success
    delete_label (err e) = if is_node_claim_not_found e then result_success else result_error

    -- The method `Delete`.
    unfoldable pub delete : Bytes → W → Metrics → Result (Unit {0}) × W × Metrics
    unfolding delete_server delete_label record_server_delete
    delete provider_id w m =
        let (r, w') = delete_server provider_id w in
        (r, w', record_server_delete (delete_label r) m)

    -- `none` for a server that the API does not find.
    found_or_none : ℤ → Result (Option Server) × W → Result (Option Server) × W
    found_or_none id (ok s, w) = (ok s, w)
    found_or_none id (err e, w) =
        if is_error e not_found
        then (ok none, w)
        else (err (wrapf "getting server %d: %w" (int id ∷ []) e), w)

    get_by : Bytes → Result ℤ → Eff W (Option Server)
    unfolding found_or_none
    get_by provider_id (err e) =
        fail (wrapf "parsing provider ID %q: %w" (bytes provider_id ∷ []) e)
    get_by provider_id (ok id) = λ w. found_or_none id (p.client.get_by_id id w)

    -- The method `Get`.
    unfoldable pub get : Bytes → Eff W (Option Server)
    unfolding get_by
    get provider_id = get_by provider_id (parse_provider_id provider_id)

    -- The method `List`.
    unfoldable pub list : Eff W (List Server)
    unfolding list_selector
    list =
        mapping_error (wrapf "listing karpenter servers: %w" [])
          (p.client.all_with_opts (list_selector p.cluster_name))
