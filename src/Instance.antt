-- ===== src/Instance.antt =====
-- pkg/providers/instance/instance.go: the provider of servers. Its three hcloud clients are records of
-- calls that act on the remote state `W`.
pub mod ProviderId
pub mod CreateError
pub mod Lifecycle
use karpenter_provider_hetzn.Base.{String, Bool, Option, none, some, List}
use karpenter_provider_hetzn.Base.Dict.{Dict}
use karpenter_provider_hetzn.Base.Text.{Bytes}
use karpenter_provider_hetzn.Base.Int.{ℤ}
use karpenter_provider_hetzn.Base.Text.{Bytes}
use karpenter_provider_hetzn.ImageFamily.{Image}
use karpenter_provider_hetzn.Hcloud.{Server, ServerCreateOpts, Action, ServerCreateResult}
use karpenter_provider_hetzn.Effects.{Eff}

pub record ServerClient (W : Type 0) : Type 0 where
  pub create : ServerCreateOpts → Eff W ServerCreateResult
  pub delete_with_result : Server → Eff W (Unit {0})
  pub get_by_id : ℤ → Eff W (Option Server)
  -- AllWithOpts with a label selector
  pub all_with_opts : String → Eff W (List Server)

-- The calls take the name; the type is always spread. They return the IDs of the groups.
pub record PlacementGroupClient (W : Type 0) : Type 0 where
  pub all_with_opts : String → Eff W (List ℤ)
  pub create : String → Eff W ℤ

pub record ActionWaiter (W : Type 0) : Type 0 where
  pub wait_for : List Action → Eff W (Unit {0})

pub record Provider (W : Type 0) : Type 0 where
  pub client : ServerClient W
  pub pg_client : Option (PlacementGroupClient W)
  pub waiter : Option (ActionWaiter W)
  pub cluster_name : String

-- NewProvider, NewProviderWithWaiter and NewProviderWithPlacementGroups.
module _ {W : Type 0} (client : ServerClient W) where
  abbrev pub new_provider : String → Provider W
  new_provider cluster_name = record {
    client = client;
    pg_client = none;
    waiter = none;
    cluster_name = cluster_name;
  }

  abbrev pub new_provider_with_waiter : String → ActionWaiter W → Provider W
  new_provider_with_waiter cluster_name waiter = record (new_provider cluster_name) {
    waiter = some waiter;
  }

  unfoldable pub new_provider_with_placement_groups :
      PlacementGroupClient W → String → ActionWaiter W → Provider W
  new_provider_with_placement_groups pg_client cluster_name waiter =
      record (new_provider_with_waiter cluster_name waiter) { pg_client = some pg_client }

pub record CreateOpts : Type 0 where
  pub name : String
  pub server_type : String
  pub location : String
  pub image : Option Image
  pub network_id : ℤ
  pub firewall_ids : List ℤ
  pub ssh_key_ids : List ℤ
  pub labels : Dict String
  pub user_data : Bytes
  pub node_claim : String
  pub node_pool : String
  pub placement_group_strategy : String
  pub enable_public_ipv4 : Bool
  pub enable_public_ipv6 : Bool
