-- ===== src/InstanceType/Cache/Threads/Moves.antt =====
-- The steps of a caller as a relation, for proofs by cases on the step.
use mathlib.Core.Path.{subst}
use mathlib.Core.Option.{some-injective}
use karpenter_provider_hetzn.Base.{
  ℕ, String, ◌≡◌, refl, ap, ◌∙◌, inl, inr, Bool, true, false, Option, none, some, List, map, arith,
  if◌then◌else◌, Bool-cases, Option-cases,
}
use karpenter_provider_hetzn.Base.Int.{}
use karpenter_provider_hetzn.Errors.{Error, Result, ok, err}
use karpenter_provider_hetzn.Metrics.{record_cache_hit, record_cache_miss, record_cache_stale}
use karpenter_provider_hetzn.Hcloud.{ServerType}
use karpenter_provider_hetzn.InstanceType.{InstanceType, FloatOps}
use karpenter_provider_hetzn.InstanceType.Unavailable.{}
use karpenter_provider_hetzn.InstanceType.Catalogue.{to_instance_type}
use karpenter_provider_hetzn.InstanceType.Cache.{fresh_cache, stale_cache, store, view}
use karpenter_provider_hetzn.InstanceType.Cache.Threads.{
  Pc, idle, start, waiting, holding, calling, failed, answered, showing, releasing, returned,
  Shared, after_look, after_stale, advance,
}

module _ (fl : FloatOps) where
  pub data Move (s : Shared) : Pc → Shared → Pc → Type 0 where
    early_hit :
        (ls : List String) (types : List InstanceType)
        → s.provider.cached_types ≡ some types
        → Move s
            (start ls)
            (record s { metrics = record_cache_hit s.metrics })
            (showing false ls types)
    early_miss : (ls : List String) → Move s (start ls) s (waiting ls)
    lock :
        (ls : List String)
        → s.locked ≡ false
        → Move s (waiting ls) (record s { locked = true }) (holding ls)
    late_hit :
        (ls : List String) (types : List InstanceType)
        → s.provider.cached_types ≡ some types
        → Move s
            (holding ls)
            (record s { metrics = record_cache_hit s.metrics })
            (showing true ls types)
    late_miss :
        (ls : List String)
        → fresh_cache s.clock s.provider ≡ none
        → Move s (holding ls) (record s { metrics = record_cache_miss s.metrics }) (calling ls)
    answer_ok :
        (ls : List String) (sts : List ServerType)
        → Move s (calling ls) s (answered ls (map (to_instance_type fl) sts))
    answer_err : (ls : List String) (e : Error) → Move s (calling ls) s (failed ls e)
    stale_hit :
        (ls : List String) (e : Error) (types : List InstanceType)
        → s.provider.cached_types ≡ some types
        → Move s
            (failed ls e)
            (record s { metrics = record_cache_stale s.metrics })
            (showing true ls types)
    stale_miss :
        (ls : List String) (e : Error)
        → s.provider.cached_types ≡ none
        → Move s (failed ls e) s (releasing ls (err e))
    stored :
        (ls : List String) (types : List InstanceType)
        → Move s
            (answered ls types)
            (record s { provider = store s.clock types s.provider })
            (showing true ls types)
    shown_locked :
        (ls : List String) (types : List InstanceType)
        → Move s (showing true ls types) s (releasing ls (ok (view s.clock ls s.provider types)))
    shown_free :
        (ls : List String) (types : List InstanceType)
        → Move s (showing false ls types) s (returned ls (ok (view s.clock ls s.provider types)))
    unlock :
        (ls : List String) (r : Result (List InstanceType))
        → Move s (releasing ls r) (record s { locked = false }) (returned ls r)

  abbrev Moves : Shared → Pc → Shared × Pc → Type 0
  Moves s p (t, q) = Move s p t q

  fresh-cached :
      (s : Shared) (types : List InstanceType)
      → fresh_cache s.clock s.provider ≡ some types
      → s.provider.cached_types ≡ some types
  unfolding fresh_cache
  fresh-cached s types h = ground arith

  early :
      (ls : List String) (s : Shared) (found : Option (List InstanceType))
      → fresh_cache s.clock s.provider ≡ found
      → Moves s (start ls) (after_look false ls s (s, waiting ls) found)
  unfolding after_look
  early ls s none h = early_miss ls
  early ls s (some types) h = early_hit ls types (fresh-cached s types h)

  late :
      (ls : List String) (s : Shared) (found : Option (List InstanceType))
      → fresh_cache s.clock s.provider ≡ found
      → Moves s (holding ls) (
          after_look true ls s
            (record s { metrics = record_cache_miss s.metrics }, calling ls)
            found)
  unfolding after_look
  late ls s none h = late_miss ls h
  late ls s (some types) h = late_hit ls types (fresh-cached s types h)

  stale-none : (s : Shared) → stale_cache s.clock s.provider ≡ none → s.provider.cached_types ≡ none
  unfolding stale_cache
  stale-none s h = elim (Option-cases s.provider.cached_types) [
    | inl never ↦ never
    | inr (types, cached) ↦ absurd (cc (rw (cached, stale_cache) at h))
  ]

  stale-some :
      (s : Shared) (types : List InstanceType) (age : ℕ)
      → stale_cache s.clock s.provider ≡ some (types, age)
      → s.provider.cached_types ≡ some types
  unfolding stale_cache
  stale-some s types age h = elim (Option-cases s.provider.cached_types) [
    | inl never ↦ absurd (cc (rw (never, stale_cache) at h))
    | inr (others, cached) ↦
        let same = some-injective _ _ (rw (cached, stale_cache) at h) in
        cached ∙ ap (λ (x : List InstanceType × ℕ). some x.0) same
  ]

  fallen_back :
      (ls : List String) (e : Error) (s : Shared) (found : Option (List InstanceType × ℕ))
      → stale_cache s.clock s.provider ≡ found
      → Moves s (failed ls e) (after_stale ls e s found)
  unfolding after_stale
  fallen_back ls e s none h = stale_miss ls e (stale-none s h)
  fallen_back ls e s (some (types, age)) h = stale_hit ls e types (stale-some s types age h)

  shown :
      (held : Bool) (ls : List String) (s : Shared) (types : List InstanceType)
      → let r = ok (view s.clock ls s.provider types) in
        Move s (showing held ls types) s (if held then releasing ls r else returned ls r)
  shown true ls s types = shown_locked ls types
  shown false ls s types = shown_free ls types

  -- Every step of a caller is one of these.
  advance-Moves :
      (answer : Result (List ServerType)) (s : Shared) (p : Pc) (n : Shared × Pc)
      → advance fl answer s p ≡ some n
      → Moves s p n
  unfolding advance
  advance-Moves answer s idle n h = absurd (cc h)
  advance-Moves answer s (start ls) n h =
      subst (Moves s (start ls)) (some-injective _ _ h) (early ls s _ refl)
  advance-Moves answer s (waiting ls) n h = elim (Bool-cases s.locked) [
    | inl taken ↦ absurd (cc (rw (taken, advance) at h))
    | inr free ↦
        subst (Moves s (waiting ls)) (some-injective _ _ (rw (free, advance) at h)) (lock ls free)
  ]
  advance-Moves answer s (holding ls) n h =
      subst (Moves s (holding ls)) (some-injective _ _ h) (late ls s _ refl)
  advance-Moves (ok sts) s (calling ls) n h =
      subst (Moves s (calling ls)) (some-injective _ _ h) (answer_ok ls sts)
  advance-Moves (err e) s (calling ls) n h =
      subst (Moves s (calling ls)) (some-injective _ _ h) (answer_err ls e)
  advance-Moves answer s (failed ls e) n h =
      subst (Moves s (failed ls e)) (some-injective _ _ h) (fallen_back ls e s _ refl)
  advance-Moves answer s (answered ls types) n h =
      subst (Moves s (answered ls types)) (some-injective _ _ h) (stored ls types)
  advance-Moves answer s (showing held ls types) n h =
      subst (Moves s (showing held ls types)) (some-injective _ _ h) (shown held ls s types)
  advance-Moves answer s (releasing ls r) n h =
      subst (Moves s (releasing ls r)) (some-injective _ _ h) (unlock ls r)
  advance-Moves answer s (returned ls r) n h = absurd (cc h)

  pub advance-Move :
      (answer : Result (List ServerType)) (s t : Shared) (p q : Pc)
      → advance fl answer s p ≡ some (t, q)
      → Move s p t q
  advance-Move answer s t p q h = advance-Moves answer s p (t, q) h
