-- ===== src/Api/NodeClaim.antt =====
-- The parts of karpenter's NodeClaim and of its scheduling requirements that the provider reads and
-- writes. Labels are Go maps; resource quantities are counted in milli-units for the CPU and in bytes
-- or units for the others.
use karpenter_provider_hetzn.Base.{ℕ, String, List, Option}
use karpenter_provider_hetzn.Base.Dict.{Dict}
use karpenter_provider_hetzn.Base.Int.{ℤ}
use karpenter_provider_hetzn.Base.Text.{Bytes}

-- corev1.ResourceList with the four entries that the provider fills.
pub record ResourceList : Type 0 where
  pub milli_cpu : ℤ
  pub memory : ℤ
  pub ephemeral_storage : ℤ
  pub pods : ℤ

pub record NodeSelectorRequirement : Type 0 where
  pub key : String
  pub operator : String
  pub values : List String
  pub min_values : Option ℕ

pub record NodeClaim : Type 0 where
  pub name : String
  pub labels : Dict String
  -- the name in spec.nodeClassRef, if that is set
  pub node_class_ref : Option String
  pub requirements : List NodeSelectorRequirement
  pub provider_id : Bytes
  pub image_id : Bytes
  pub capacity : Option ResourceList
  pub allocatable : Option ResourceList
