-- ===== src/Instance/CreateError.antt =====
-- pkg/providers/instance/errors.go: which create errors mean a lack of capacity.
pub mod Laws
use karpenter_provider_hetzn.Base.{
  String, Bool, false, ◌&&◌, ◌||◌, Option, none, some, [], if◌then◌else◌,
}
use karpenter_provider_hetzn.Base.Text.{codes, to_lower, contains}
use karpenter_provider_hetzn.Errors.{
  ErrorCode, resource_unavailable, resource_limit_exceeded, invalid_input, Error, wrapf,
  insufficient_capacity, code_eq, as_api, is_error,
}

placement_message : Option (ErrorCode × String) → Bool
unfolding code_eq to_lower contains
placement_message none = false
placement_message (some (c, m)) =
    code_eq c invalid_input
    && (contains (codes "unsupported location") (to_lower (codes m))
        || contains (codes "location for server type") (to_lower (codes m)))

unfoldable pub is_unsupported_placement : Error → Bool
unfolding placement_message as_api
is_unsupported_placement e = placement_message (as_api e)

-- The model's `MapCreateError` is called with an error; nil passes through as nil in the code.
unfoldable pub map_create_error : Error → Error
unfolding is_error is_unsupported_placement
map_create_error e =
    if is_error e resource_unavailable || is_error e resource_limit_exceeded
    then insufficient_capacity e
    else if is_unsupported_placement e
    then insufficient_capacity e
    else wrapf "creating server: %w" [] e
