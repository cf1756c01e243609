-- ===== src/Base/Dict.antt =====
-- A Go map with string keys, as the association list of its entries in some iteration order. The
-- entries of a Go map have distinct keys (`NodupKeys`).
pub mod Order
use mathlib.Core.Path.{◌≡◌, refl}
use mathlib.Core.List.{List, [], ◌∷◌}
use mathlib.Core.Option.{Option, none, some}
use native.Mathlib.Omega.{arith}
use Prim.Native.String.{String}
use text.Mathlib.Text.{◌==◌ as str_eq}
use text.Mathlib.TextEquality.{eq_iff}
use karpenter_provider_hetzn.Base.Tests.{if◌then◌else◌}

abbrev pub Dict {ℓ} : Type ℓ → Type ℓ
Dict V = List (String × V)

module _ {ℓ} {V : Type ℓ} where
  -- `m[k]`, with the `ok` of the two-value form.
  unfoldable pub lookup : String → Dict V → Option V
  lookup k [] = none
  lookup k ((j, v) ∷ m) = if str_eq j k then some v else lookup k m

  -- `m[k] = v`
  unfoldable pub insert : String → V → Dict V → Dict V
  insert k v [] = (k, v) ∷ []
  insert k v ((j, w) ∷ m) = if str_eq j k then (k, v) ∷ m else (j, w) ∷ insert k v m

  -- `for k, v := range from { to[k] = v }`
  unfoldable pub merge : Dict V → Dict V → Dict V
  merge [] to = to
  merge ((k, v) ∷ from) to = merge from (insert k v to)

  abbrev pub NodupKeys : Dict V → Type ℓ
  NodupKeys [] = Unit
  NodupKeys ((k, v) ∷ m) = (lookup k m ≡ none) × NodupKeys m

  pub lookup-insert :
      (k j : String) (v : V) (m : Dict V)
      → lookup j (insert k v m) ≡ (if str_eq k j then some v else lookup j m)
  unfolding lookup insert
  lookup-insert key asked new [] = refl
  lookup-insert key asked new ((other, old) ∷ rest) = ground (
    arith,
    lookup-insert key asked new rest,
    eq_iff other key,
    eq_iff key asked,
    eq_iff other asked,
  )

  pub insert-NodupKeys : (k : String) (v : V) (m : Dict V) → NodupKeys m → NodupKeys (insert k v m)
  unfolding lookup insert
  insert-NodupKeys k v [] h = (refl, tt)
  insert-NodupKeys k v ((j, w) ∷ m) h =
      ground (arith, eq_iff j k, eq_iff k j, lookup-insert k j v m, insert-NodupKeys k v m h.1)

  -- After the loop a key holds the value of the copied map, if that has the key.
  pub lookup-merge :
      (j : String) (from to : Dict V)
      → NodupKeys from
      → lookup j (merge from to) ≡ elim (lookup j from) [ none ↦ lookup j to | some v ↦ some v ]
  unfolding lookup merge
  lookup-merge j [] to h = refl
  lookup-merge j ((k, v) ∷ from) to h =
      ground (arith, eq_iff k j, lookup-merge j from (insert k v to) h.1, lookup-insert k j v to)

  pub merge-NodupKeys : (from to : Dict V) → NodupKeys to → NodupKeys (merge from to)
  unfolding merge
  merge-NodupKeys [] to h = h
  merge-NodupKeys ((k, v) ∷ from) to h = merge-NodupKeys from _ (insert-NodupKeys k v to h)
