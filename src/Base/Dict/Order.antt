-- ===== src/Base/Dict/Order.antt =====
-- Reads of a map do not depend on the order in which its entries are listed.
use mathlib.Core.Path.{◌≡◌, refl, ◌∙◌}
use mathlib.Core.List.{Permᴰ}
use native.Mathlib.Omega.{arith}
use Prim.Native.String.{String}
use text.Mathlib.TextEquality.{eq_iff}
use karpenter_provider_hetzn.Base.Dict.{Dict, lookup, NodupKeys}

module _ {ℓ} {V : Type ℓ} where
  pub lookup-perm :
      {m n : Dict V}
      → Permᴰ m n
      → NodupKeys m
      → NodupKeys n × ((k : String) → lookup k m ≡ lookup k n)
  unfolding lookup
  lookup-perm Permᴰ.nil h = (tt, λ k. refl)
  lookup-perm (Permᴰ.cons {a = (i, v)} {b = (j, w)} e p) h =
      let (distinct, same) = lookup-perm p h.1 in
      ((rw (← same j) (ground arith), distinct), λ k. ground (arith, same k))
  lookup-perm (Permᴰ.swap {a = (i, v)} {b = (j, w)} {a' = (i', v')} {b' = (j', w')} e f) h = (
    (ground (arith, eq_iff i j, eq_iff j i), (ground (arith, eq_iff i j, eq_iff j i), h.1.1)),
    λ k. ground (arith, eq_iff i k, eq_iff j k, eq_iff i j, eq_iff j i),
  )
  lookup-perm (Permᴰ.trans p q) h =
      let (distinct, same) = lookup-perm p h in
      let (distinct', same') = lookup-perm q distinct in (distinct', λ k. same k ∙ same' k)
