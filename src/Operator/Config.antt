-- ===== src/Operator/Config.antt =====
-- pkg/operator/config.go. Durations are in nanoseconds; `parse_duration` is time.ParseDuration, and an
-- environment variable that is not set reads as "".
pub mod Laws
use karpenter_provider_hetzn.Base.{
  ℕ, suc, ◌*◌, String, Bool, not, ◌&&◌, ◌||◌, [], ◌∷◌, leb, ◌==◌, if◌then◌else◌, length, is_empty,
  all,
}
use karpenter_provider_hetzn.Base.Int.{ℤ, pos}
use karpenter_provider_hetzn.Base.Text.{Bytes, codes, is_digit, trim_space}
use karpenter_provider_hetzn.Errors.{int, bytes, errorf, wrapf, Result, ok, err}

abbrev pub Environment : Type 0
Environment = String → String

abbrev pub default_api_timeout : ℕ
default_api_timeout = 30 * 1000000000

abbrev pub max_api_timeout : ℕ
max_api_timeout = 5 * 60 * 1000000000

pub record Config : Type 0 where
  pub cluster_name : Bytes
  pub api_timeout : ℕ

-- The class [a-zA-Z0-9._-] of clusterNameRE.
unfoldable pub is_name_byte : ℕ → Bool
is_name_byte c =
    leb b'a' c && leb c b'z'
    || leb b'A' c && leb c b'Z'
    || is_digit c
    || c == b'.'
    || c == b'_'
    || c == b'-'

-- clusterNameRE.MatchString
unfoldable pub matches_cluster_name : Bytes → Bool
unfolding all is_name_byte
matches_cluster_name s = leb 1 (length s) && leb (length s) 63 && all is_name_byte s

in_range : Bytes → ℤ → Result ℕ
in_range raw (pos (suc d)) =
    if leb (suc d) max_api_timeout
    then ok (suc d)
    else err (
        errorf "HCLOUD_API_TIMEOUT %q exceeds the %s maximum"
          (bytes raw ∷ int (pos max_api_timeout) ∷ []))
in_range raw _ = err (
    errorf
      "HCLOUD_API_TIMEOUT %q must be positive; an unbounded client is what this setting exists to prevent"
      (bytes raw ∷ []))

parsed_timeout : Bytes → Result ℤ → Result ℕ
unfolding in_range
parsed_timeout raw (ok d) = in_range raw d
parsed_timeout raw (err e) = err (
    wrapf "HCLOUD_API_TIMEOUT %q is not a valid duration (e.g. \"30s\", \"1m\"): %w"
      (bytes raw ∷ []) e)

module _ (parse_duration : Bytes → Result ℤ) (env : Environment) where
  unfoldable pub load_api_timeout : Result ℕ
  unfolding parsed_timeout trim_space
  load_api_timeout =
      let raw = trim_space (codes (env "HCLOUD_API_TIMEOUT")) in
      if is_empty raw then ok default_api_timeout else parsed_timeout raw (parse_duration raw)

  config_with : Bytes → Result ℕ → Result Config
  config_with name (ok timeout) = ok (record { cluster_name = name; api_timeout = timeout })
  config_with name (err e) = err e

  unfoldable pub load_config : Result Config
  unfolding load_api_timeout config_with trim_space matches_cluster_name
  load_config =
      let name = trim_space (codes (env "CLUSTER_NAME")) in
      if is_empty name
      then err (errorf "CLUSTER_NAME environment variable is required" [])
      else if not (matches_cluster_name name)
      then err (
          errorf
            "CLUSTER_NAME %q is not a valid Hetzner label value (must match [a-zA-Z0-9._-], max 63 chars)"
            (bytes name ∷ []))
      else config_with name load_api_timeout
