-- ===== src/InstanceType/Catalogue.antt =====
-- pkg/providers/instancetype/instancetype.go: from hcloud's server types to karpenter's instance types.
pub mod Laws
pub mod Prices
pub mod Listed
use Prim.Native.Char.{code}
use karpenter_provider_hetzn.Base.{
  ℕ, suc, ◌*◌, String, Bool, true, false, not, ◌&&◌, Option, none, some, List, [], ◌∷◌, map, str_eq,
  if◌then◌else◌, is_empty, select, any, first,
}
use karpenter_provider_hetzn.Base.Int.{pos, wrap64}
use karpenter_provider_hetzn.Base.Text.{codes, is_digit, has_prefix, trim_space}
use karpenter_provider_hetzn.Api.{capacity_type_on_demand, architecture_arm}
use karpenter_provider_hetzn.Hcloud.{ServerTypeLocationPricing, ServerType}
use karpenter_provider_hetzn.InstanceType.{Offering, InstanceType, Float64, finite, FloatOps}
use karpenter_provider_hetzn.InstanceType.Unavailable.{UnavailableCache, is_unavailable}

leading : String → String
leading String.[] = String.[]
leading (String.◌∷◌ c s) =
    let rest = leading s in if is_digit (code c) then String.[] else String.◌∷◌ c rest

abbrev family_prefixes : List String
family_prefixes = "cax" ∷ "cpx" ∷ "ccx" ∷ "cx" ∷ []

unfoldable pub server_family : String → String
unfolding leading
server_family name =
    let lead = leading name in
    elim (first (λ prefix. has_prefix (codes prefix) (codes name)) family_prefixes) [
      | some prefix ↦ prefix
      | none ↦ if str_eq lead "" then name else lead
    ]

-- A finite number above zero.
usable : Option Float64 → Option ℕ
usable (some (finite false (suc n))) = some (suc n)
usable _ = none

-- `cloudprovider.Offerings` filtered by location, and the types that keep one.
in_locations : List String → Offering → Bool
unfolding any
in_locations locations o = any (λ l. str_eq l o.zone) locations

keep_types : List String → List InstanceType → List InstanceType
unfolding select in_locations
keep_types locations [] = []
keep_types locations (it ∷ its) =
    let filtered = select (in_locations locations) it.offerings in
    let rest = keep_types locations its in
    if is_empty filtered then rest else record it { offerings = filtered } ∷ rest

unfoldable pub filter_by_locations : List InstanceType → List String → List InstanceType
unfolding keep_types
filter_by_locations types locations =
    if is_empty locations then types else keep_types locations types

with_availability : ℕ → UnavailableCache → String → Offering → Offering
with_availability now c name o = record o {
  available = o.available && not (is_unavailable now name o.zone c);
}

judge_type : ℕ → UnavailableCache → InstanceType → InstanceType
unfolding with_availability
judge_type now c it = record it { offerings = map (with_availability now c it.name) it.offerings }

-- All offerings are judged at one time `now`.
unfoldable pub apply_availability : ℕ → UnavailableCache → List InstanceType → List InstanceType
unfolding judge_type
apply_availability now c its = map (judge_type now c) its

module _ (fl : FloatOps) where
  -- The price, and whether there is one.
  unfoldable pub hourly_net_price : ServerTypeLocationPricing → ℕ × Bool
  unfolding usable
  hourly_net_price p = elim (usable (fl.parse_float (trim_space (codes p.hourly_net)))) [
    | some v ↦ (v, true)
    | none ↦ elim (usable (fl.parse_float (trim_space (codes p.monthly_net)))) [
      | some v ↦ (fl.div_730 v, true)
      | none ↦ (0, false)
    ]
  ]

  unfoldable pub to_offerings : List ServerTypeLocationPricing → List Offering
  unfolding hourly_net_price
  to_offerings [] = []
  to_offerings (p ∷ pricings) = elim p.location [
    | none ↦ to_offerings pricings
    | some location ↦
        let (price, priced) = hourly_net_price p in
        record {
          zone = location;
          capacity_type = capacity_type_on_demand;
          price = price;
          available = priced;
        }
        ∷ to_offerings pricings
  ]

  unfoldable pub to_instance_type : ServerType → InstanceType
  unfolding to_offerings server_family wrap64
  to_instance_type st = record {
    name = st.name;
    offerings = to_offerings st.pricings;
    requirements = record {
      instance_type = st.name;
      arch = if str_eq st.architecture architecture_arm then "arm64" else "amd64";
      capacity_type = capacity_type_on_demand;
      cpu_type = st.cpu_type;
      server_family = server_family st.name;
    };
    capacity = record {
      milli_cpu = wrap64 (st.cores * 1000);
      memory = fl.memory_bytes st.memory;
      ephemeral_storage = wrap64 (st.disk * 1024 * 1024 * 1024);
      pods = pos 110;
    };
    overhead = record { milli_cpu = pos 100; memory = pos (100 * 1024 * 1024) };
  }
