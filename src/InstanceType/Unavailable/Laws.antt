-- ===== src/InstanceType/Unavailable/Laws.antt =====
-- How long an offering stays unavailable, and that the quarantine of one offering touches no other.
use karpenter_provider_hetzn.Base.{
  ℕ, ◌+◌, String, ◌≡◌, ◌≢◌, ◌⊎◌, inl, inr, [], ◌∷◌, ◌++◌, arith, ltb, Bool-cases, All,
}
use karpenter_provider_hetzn.Base.Text.{Bytes, codes, bytes_eq}
use karpenter_provider_hetzn.Base.Text.Laws.{bytes_eq_iff}
use karpenter_provider_hetzn.Base.Order.Laws.{codes-injective}
use karpenter_provider_hetzn.InstanceType.Unavailable.{
  UnavailableCache, unavail_key, mark_unavailable, is_unavailable,
}

-- No NUL byte: names of server types and locations hold none.
abbrev pub HasNoNul : Bytes → Type 0
HasNoNul = All (λ c. c ≢ 0)

split_at_nul :
    (a a' b b' : Bytes)
    → HasNoNul a
    → HasNoNul a'
    → a ++ (0 ∷ b) ≡ a' ++ (0 ∷ b')
    → (a ≡ a') × (b ≡ b')
split_at_nul [] [] b b' h h' e = ground arith
split_at_nul [] (d ∷ a') b b' h h' e = absurd (h'.0 (ground arith))
split_at_nul (c ∷ a) [] b b' h h' e = absurd (h.0 (ground arith))
split_at_nul (c ∷ a) (d ∷ a') b b' h h' e = ground (arith, split_at_nul a a' b b' h.1 h'.1)

-- Two offerings share a key only if they are the same.
unavail_key-injective :
    (t t' l l' : String)
    → HasNoNul (codes t)
    → HasNoNul (codes t')
    → unavail_key t l ≡ unavail_key t' l'
    → (t ≡ t') × (l ≡ l')
unfolding unavail_key
unavail_key-injective t t' l l' h h' e =
    let (same_t, same_l) = split_at_nul (codes t) (codes t') (codes l) (codes l') h h' e in
    (codes-injective t t' same_t, codes-injective l l' same_l)

-- Where the names of types have no NUL byte: a marked offering is unavailable until the TTL has passed, and for no longer. All others are as
-- available as before.
pub is_unavailable-mark_unavailable :
    (c : UnavailableCache) (at now : ℕ) (t l t' l' : String)
    → HasNoNul (codes t)
    → HasNoNul (codes t')
    → ((t ≡ t')
        × (l ≡ l')
        × (is_unavailable now t' l' (mark_unavailable at t l c) ≡ ltb now (at + c.ttl)))
      ⊎ (¬ ((t ≡ t') × (l ≡ l'))
          × (is_unavailable now t' l' (mark_unavailable at t l c) ≡ is_unavailable now t' l' c))
unfolding is_unavailable mark_unavailable
is_unavailable-mark_unavailable c at now t l t' l' h h' =
    elim (Bool-cases (bytes_eq (unavail_key t l) (unavail_key t' l'))) [
      | inl same ↦
          let (same_t, same_l) = unavail_key-injective t t' l l' h h' ((bytes_eq_iff _ _).0 same) in
          inl (same_t, same_l, ground arith)
      | inr other ↦ inr (
        λ (same_t, same_l).
            let same : unavail_key t l ≡ unavail_key t' l' = cc in cc ((bytes_eq_iff _ _).1 same),
        ground arith,
      )
    ]
