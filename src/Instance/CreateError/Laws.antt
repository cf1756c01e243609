-- ===== src/Instance/CreateError/Laws.antt =====
-- Exactly the capacity errors are reported as such.
use karpenter_provider_hetzn.Base.{
  String, ◌≡◌, ◌↔◌, ◌⊎◌, Bool, true, false, ◌||◌, Option, none, some, arith,
}
use karpenter_provider_hetzn.Base.Text.{codes, to_lower, contains}
use karpenter_provider_hetzn.Errors.{
  ErrorCode, not_found, resource_unavailable, resource_limit_exceeded, invalid_input, other_code,
  Error, code_eq, as_api, has_code, is_insufficient_capacity,
}
use karpenter_provider_hetzn.Instance.CreateError.{map_create_error, placement_message}

-- What the API says when a server type cannot be created in a location now.
abbrev pub SaysCapacity : Option (ErrorCode × String) → Type 0
SaysCapacity none = ⊥
SaysCapacity (some (resource_unavailable, m)) = Unit
SaysCapacity (some (resource_limit_exceeded, m)) = Unit
SaysCapacity (some (invalid_input, m)) =
    (contains (codes "unsupported location") (to_lower (codes m)) ≡ true)
    ⊎ (contains (codes "location for server type") (to_lower (codes m)) ≡ true)
SaysCapacity (some (not_found, m)) = ⊥
SaysCapacity (some (other_code c, m)) = ⊥

verdict : Option (ErrorCode × String) → Bool
verdict o =
    has_code resource_unavailable o || has_code resource_limit_exceeded o || placement_message o

verdict_iff : (o : Option (ErrorCode × String)) → (verdict o ≡ true) ↔ SaysCapacity o
unfolding verdict has_code code_eq placement_message
verdict_iff none = ground arith
verdict_iff (some (resource_unavailable, m)) = ground arith
verdict_iff (some (resource_limit_exceeded, m)) = ground arith
verdict_iff (some (invalid_input, m)) = ground arith
verdict_iff (some (not_found, m)) = ground arith
verdict_iff (some (other_code c, m)) = ground arith

map_create_error-verdict :
    (e : Error)
    → is_insufficient_capacity e ≡ false
    → is_insufficient_capacity (map_create_error e) ≡ verdict (as_api e)
unfolding map_create_error is_insufficient_capacity verdict
map_create_error-verdict e h = ground arith

-- A create error is reported as insufficient capacity exactly if hcloud says that the type or the
-- limit is exhausted, or that the location does not support the type. (The error is hcloud's: it is
-- not one already.)
pub map_create_error_iff :
    (e : Error)
    → is_insufficient_capacity e ≡ false
    → (is_insufficient_capacity (map_create_error e) ≡ true) ↔ SaysCapacity (as_api e)
map_create_error_iff e h = rw (map_create_error-verdict e h) (verdict_iff (as_api e))
