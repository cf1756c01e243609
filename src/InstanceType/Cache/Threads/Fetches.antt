-- ===== src/InstanceType/Cache/Threads/Fetches.antt =====
-- What one step of a caller of List does to the fetch from the API.
use mathlib.Core.Path.{subst}
use mathlib.Core.Option.{some-injective}
use karpenter_provider_hetzn.Base.{
  ℕ, ◌+◌, ◌<◌, String, ◌≡◌, refl, ap, ◌≢◌, ◌⊎◌, inl, inr, Bool, true, false, none, some, List,
  lt→ltb, Bool-cases, some_of_ne,
}
use karpenter_provider_hetzn.Base.Int.{}
use karpenter_provider_hetzn.Errors.{Error, Result, ok}
use karpenter_provider_hetzn.Metrics.{inc, record_cache_hit, record_cache_miss, record_cache_stale}
use karpenter_provider_hetzn.Hcloud.{ServerType}
use karpenter_provider_hetzn.InstanceType.{FloatOps}
use karpenter_provider_hetzn.InstanceType.Unavailable.{}
use karpenter_provider_hetzn.InstanceType.Catalogue.{}
use karpenter_provider_hetzn.InstanceType.Cache.{cache_ttl, fresh_cache, store}
use karpenter_provider_hetzn.InstanceType.Cache.Threads.{
  Pc, idle, start, waiting, holding, calling, failed, answered, showing, releasing, returned,
  Shared, is_resting, advance,
}
use karpenter_provider_hetzn.InstanceType.Cache.Threads.Moves.{
  Move, early_hit, early_miss, lock, late_hit, late_miss, answer_ok, answer_err, stale_hit,
  stale_miss, stored, shown_locked, shown_free, unlock, advance-Move,
}
use karpenter_provider_hetzn.InstanceType.Cache.Threads.Exclusion.{holds, resting-holds}

-- From the call of the API to the store of its answer.
abbrev pub is_fetching : Pc → Bool
is_fetching (calling locations) = true
is_fetching (answered locations types) = true
is_fetching _ = false

-- Each call of the API is counted as a miss.
abbrev pub misses : Shared → ℕ
misses s = s.metrics.instance_type_cache_total "miss"

module _ (fl : FloatOps) where
  -- What a step does to the fetch: nothing, or it begins one, or it fails, or it stores the answer.
  abbrev pub Fetch : Shared → Pc → Shared → Pc → Type 0
  Fetch s a t b =
      ((misses t ≡ misses s) × (is_fetching b ≡ is_fetching a) × (t.provider ≡ s.provider))
      ⊎ ((misses t ≡ misses s + 1)
          × (holds a ≡ true)
          × (is_fetching a ≡ false)
          × (is_fetching b ≡ true)
          × (fresh_cache s.clock s.provider ≡ none))
      ⊎ ((misses t ≡ misses s)
          × (is_fetching a ≡ true)
          × (is_fetching b ≡ false)
          × (t.provider.cached_types ≢ none)
          × (s.clock + cache_ttl ≡ t.provider.cache_expiry))
      ⊎ ((ls : List String) × (e : Error) × (t ≡ s) × (a ≡ calling ls) × (b ≡ failed ls e))

  pub Move-Fetch : {s t : Shared} {a b : Pc} → Move fl s a t b → Fetch s a t b
  unfolding record_cache_hit record_cache_miss record_cache_stale inc store
  Move-Fetch (early_hit ls types h) = inl (refl, refl, refl)
  Move-Fetch (early_miss ls) = inl (refl, refl, refl)
  Move-Fetch (lock ls free) = inl (refl, refl, refl)
  Move-Fetch (late_hit ls types h) = inl (refl, refl, refl)
  Move-Fetch (late_miss ls h) = inr (inl (refl, refl, refl, refl, h))
  Move-Fetch (answer_ok ls sts) = inl (refl, refl, refl)
  Move-Fetch (answer_err ls e) = inr (inr (inr (ls, e, refl, refl, refl)))
  Move-Fetch (stale_hit ls e types h) = inl (refl, refl, refl)
  Move-Fetch (stale_miss ls e h) = inl (refl, refl, refl)
  Move-Fetch (stored ls types) = inr (inr (inl (refl, refl, refl, (λ e. absurd (cc e)), refl)))
  Move-Fetch (shown_locked ls types) = inl (refl, refl, refl)
  Move-Fetch (shown_free ls types) = inl (refl, refl, refl)
  Move-Fetch (unlock ls r) = inl (refl, refl, refl)

  pub Move-clock : {s t : Shared} {a b : Pc} → Move fl s a t b → t.clock ≡ s.clock
  Move-clock (early_hit ls types h) = refl
  Move-clock (early_miss ls) = refl
  Move-clock (lock ls free) = refl
  Move-clock (late_hit ls types h) = refl
  Move-clock (late_miss ls h) = refl
  Move-clock (answer_ok ls sts) = refl
  Move-clock (answer_err ls e) = refl
  Move-clock (stale_hit ls e types h) = refl
  Move-clock (stale_miss ls e h) = refl
  Move-clock (stored ls types) = refl
  Move-clock (shown_locked ls types) = refl
  Move-clock (shown_free ls types) = refl
  Move-clock (unlock ls r) = refl

  pub fetching-holds : (a : Pc) → is_fetching a ≡ true → holds a ≡ true
  fetching-holds idle h = absurd (cc h)
  fetching-holds (start ls) h = absurd (cc h)
  fetching-holds (waiting ls) h = absurd (cc h)
  fetching-holds (holding ls) h = absurd (cc h)
  fetching-holds (calling ls) h = refl
  fetching-holds (failed ls e) h = absurd (cc h)
  fetching-holds (answered ls types) h = refl
  fetching-holds (showing held ls types) h = absurd (cc h)
  fetching-holds (releasing ls r) h = absurd (cc h)
  fetching-holds (returned ls r) h = absurd (cc h)

  pub not_stale :
      (s : Shared)
      → s.provider.cached_types ≢ none
      → s.clock < s.provider.cache_expiry
      → fresh_cache s.clock s.provider ≢ none
  unfolding fresh_cache
  not_stale s cached lt h =
      let (types, there) = some_of_ne s.provider.cached_types cached in
      absurd (cc (rw (lt→ltb s.clock s.provider.cache_expiry lt, there, fresh_cache) at h))

  pub Move-clock-advance :
      (answer : Result (List ServerType)) (s t : Shared) (a b : Pc)
      → advance fl answer s a ≡ some (t, b)
      → t.clock ≡ s.clock
  Move-clock-advance answer s t a b h = Move-clock (advance-Move fl answer s t a b h)

  -- An answer of the API is no failure.
  pub not_failed :
      (sts : List ServerType) (s t : Shared) (a b : Pc) (ls : List String) (d : Error)
      → advance fl (ok sts) s a ≡ some (t, b)
      → a ≡ calling ls
      → b ≡ failed ls d
      → ⊥
  unfolding advance
  not_failed sts s t a b ls d h from to =
      let read : advance fl (ok sts) s (calling ls) ≡ some (t, b) =
        subst (λ x. advance fl (ok sts) s x ≡ some (t, b)) from h in
      absurd (cc (ap (λ (x : Shared × Pc). x.1) (some-injective _ _ read), to))

  pub resting-fetching : (a : Pc) → is_resting a ≡ true → is_fetching a ≡ false
  resting-fetching a h = elim (Bool-cases (is_fetching a)) [
    | inl busy ↦ absurd (cc (fetching-holds a busy, resting-holds fl a h))
    | inr rests ↦ rests
  ]
