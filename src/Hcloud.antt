-- ===== src/Hcloud.antt =====
-- The data of the hcloud API that the providers read and write, as far as they use it. A float32
-- stands as its bit pattern.
use karpenter_provider_hetzn.Base.{ℕ, String, Bool, Option, List}
use karpenter_provider_hetzn.Base.Dict.{Dict}
use karpenter_provider_hetzn.Base.Text.{Bytes}
use karpenter_provider_hetzn.Base.Int.{ℤ}
use karpenter_provider_hetzn.ImageFamily.{Image}

-- hcloud.ServerTypeLocationPricing: the location's name and the texts of the net prices.
pub record ServerTypeLocationPricing : Type 0 where
  pub location : Option String
  pub hourly_net : String
  pub monthly_net : String

pub record ServerType : Type 0 where
  pub name : String
  pub architecture : String
  pub cpu_type : String
  pub cores : ℕ
  pub memory : ℕ
  pub disk : ℕ
  pub pricings : List ServerTypeLocationPricing

-- The attached networks and the firewalls of the public net by their IDs, `none` for a nil pointer.
pub record Server : Type 0 where
  pub id : ℤ
  pub image : Option Image
  pub server_type : Option ServerType
  pub location : Option String
  pub labels : Dict String
  pub private_net : List (Option ℤ)
  pub firewalls : List (Option ℤ)

pub record ServerCreateOpts : Type 0 where
  pub name : String
  pub server_type : String
  pub image : Option Image
  pub location : String
  pub networks : List ℤ
  pub firewalls : List ℤ
  pub ssh_keys : List ℤ
  pub labels : Dict String
  pub user_data : Bytes
  pub enable_ipv4 : Bool
  pub enable_ipv6 : Bool
  pub placement_group : Option ℤ

pub record Action : Type 0 where
  pub id : ℤ

pub record ServerCreateResult : Type 0 where
  pub server : Server
  pub action : Option Action
  pub next_actions : List Action
