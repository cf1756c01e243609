-- ===== src/InstanceType/Unavailable.antt =====
-- pkg/providers/instancetype/unavailable.go: the offerings that lately failed for lack of capacity, each
-- until its expiry. Times and durations are in nanoseconds.
pub mod Laws
use karpenter_provider_hetzn.Base.{
  ℕ, ◌+◌, String, Bool, false, Option, none, some, List, [], ◌∷◌, ◌++◌, ltb, if◌then◌else◌,
}
use karpenter_provider_hetzn.Base.Text.{Bytes, codes, bytes_eq}

-- The map `items` as its assignments, the latest first.
pub record UnavailableCache : Type 0 where
  pub ttl : ℕ
  pub items : List (Bytes × ℕ)

unfoldable pub unavail_key : String → String → Bytes
unavail_key server_type location = codes server_type ++ (0 ∷ codes location)

get_item : Bytes → List (Bytes × ℕ) → Option ℕ
get_item k [] = none
get_item k ((j, expiry) ∷ items) = if bytes_eq j k then some expiry else get_item k items

before : ℕ → Option ℕ → Bool
before now none = false
before now (some expiry) = ltb now expiry

unfoldable pub mark_unavailable : ℕ → String → String → UnavailableCache → UnavailableCache
mark_unavailable now server_type location c = record c {
  items = (unavail_key server_type location, now + c.ttl) ∷ c.items;
}

unfoldable pub is_unavailable : ℕ → String → String → UnavailableCache → Bool
unfolding get_item before
is_unavailable now server_type location c =
    before now (get_item (unavail_key server_type location) c.items)
