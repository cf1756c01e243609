-- ===== src/Instance/ProviderId.antt =====
-- ParseProviderID and FormatProviderID of pkg/providers/instance/instance.go.
use karpenter_provider_hetzn.Base.{◌≡◌, inl, inr, Option, none, some, [], ◌∷◌, ◌++◌, Option-cases}
use karpenter_provider_hetzn.Base.Int.{ℤ, IsInt64}
use karpenter_provider_hetzn.Base.Text.{Bytes, strip_prefix, format_int, parse_int}
use karpenter_provider_hetzn.Base.Text.Laws.{
  strip_prefix-append, append-strip_prefix, parse_int-format_int, parse_int-IsInt64,
}
use karpenter_provider_hetzn.Errors.{bytes, errorf, Result, ok, err}
use karpenter_provider_hetzn.Api.{provider_id_prefix}

parsed_id : Bytes → Option ℤ → Result ℤ
parsed_id provider_id none =
    err (errorf "invalid server ID in provider ID %q: %w" (bytes provider_id ∷ []))
parsed_id provider_id (some id) = ok id

after_prefix : Bytes → Option Bytes → Result ℤ
after_prefix provider_id none =
    err (
      errorf "provider ID %q must start with %q"
        (bytes provider_id ∷ bytes provider_id_prefix ∷ []))
after_prefix provider_id (some id_str) = parsed_id provider_id (parse_int id_str)

unfoldable pub parse_provider_id : Bytes → Result ℤ
unfolding after_prefix parsed_id
parse_provider_id provider_id =
    after_prefix provider_id (strip_prefix provider_id_prefix provider_id)

unfoldable pub format_provider_id : ℤ → Bytes
format_provider_id server_id = provider_id_prefix ++ format_int server_id

-- The ID of a server, an int64, written as a provider ID, is read back.
pub parse_provider_id-format_provider_id :
    (id : ℤ) → IsInt64 id → parse_provider_id (format_provider_id id) ≡ ok id
unfolding parse_provider_id format_provider_id
parse_provider_id-format_provider_id id h =
    rw (strip_prefix-append provider_id_prefix (format_int id), parse_int-format_int id h)

-- A provider ID that is accepted is the prefix and the text of an int64, and stands for that number.
pub parse_provider_id-ok :
    (provider_id : Bytes) {id : ℤ}
    → parse_provider_id provider_id ≡ ok id
    → IsInt64 id
      × ((digits : Bytes) × (provider_id ≡ provider_id_prefix ++ digits)
          × (parse_int digits ≡ some id))
unfolding parse_provider_id
parse_provider_id-ok provider_id {id} h =
    elim (Option-cases (strip_prefix provider_id_prefix provider_id)) [
      | inl other ↦ absurd (cc (rw (other, parse_provider_id) at h))
      | inr (rest, e) ↦ elim (Option-cases (parse_int rest)) [
        | inl bad ↦ absurd (cc (rw (e, bad, parse_provider_id) at h))
        | inr (i, e') ↦
            let read : parse_int rest ≡ some id = cc (e', (rw (e, e', parse_provider_id) at h)) in
            (
              parse_int-IsInt64 rest id read,
              (rest, append-strip_prefix provider_id_prefix provider_id e, read),
            )
      ]
    ]
