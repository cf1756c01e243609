-- ===== src/InstanceType.antt =====
-- pkg/providers/instancetype: the catalogue of instance types. Here are the types of karpenter that it
-- fills and the floating-point operations that it uses.
--
-- A price is a float64 that is not negative and finite. These are ordered like their bit patterns, so a
-- price stands as its bit pattern, a number.
pub mod Unavailable
pub mod Catalogue
pub mod Cache
use karpenter_provider_hetzn.Base.{ℕ, String, Bool, Option, List}
use karpenter_provider_hetzn.Base.Int.{ℤ}
use karpenter_provider_hetzn.Base.Text.{Bytes}
use karpenter_provider_hetzn.Api.NodeClaim.{ResourceList}

-- cloudprovider.Offering; its requirements name one zone and one capacity type.
pub record Offering : Type 0 where
  pub zone : String
  pub capacity_type : String
  pub price : ℕ
  pub available : Bool

-- The requirements of an instance type, which allow one value for each label.
pub record TypeRequirements : Type 0 where
  pub instance_type : String
  pub arch : String
  pub capacity_type : String
  pub cpu_type : String
  pub server_family : String

-- cloudprovider.InstanceTypeOverhead with what the provider reserves for the kubelet.
pub record Overhead : Type 0 where
  pub milli_cpu : ℤ
  pub memory : ℤ

-- cloudprovider.InstanceType
pub record InstanceType : Type 0 where
  pub name : String
  pub offerings : List Offering
  pub requirements : TypeRequirements
  pub capacity : ResourceList
  pub overhead : Overhead

-- A float64 by its sign and the bits of its magnitude.
pub data Float64 : Type 0 where
  nan : Float64
  infinite : Bool → Float64
  finite : Bool → ℕ → Float64

-- Operations of Go on floating-point numbers: strconv.ParseFloat, the division of a positive price by
-- 730, and the bytes of a size in GB that is given as a float32.
pub record FloatOps : Type 0 where
  pub parse_float : Bytes → Option Float64
  pub div_730 : ℕ → ℕ
  pub memory_bytes : ℕ → ℤ
