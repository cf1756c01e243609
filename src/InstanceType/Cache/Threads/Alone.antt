-- ===== src/InstanceType/Cache/Threads/Alone.antt =====
-- A caller of List that runs alone does what `list` does.
use karpenter_provider_hetzn.Base.{
  ℕ, zero, suc, String, ◌≡◌, refl, ap, ◌∙◌, inl, inr, true, false, Option, none, some, List,
  Option-cases,
}
use karpenter_provider_hetzn.Base.Int.{}
use karpenter_provider_hetzn.Errors.{Result, ok, err}
use karpenter_provider_hetzn.Metrics.{record_cache_hit, record_cache_miss}
use karpenter_provider_hetzn.Hcloud.{ServerType}
use karpenter_provider_hetzn.InstanceType.{InstanceType, FloatOps}
use karpenter_provider_hetzn.InstanceType.Unavailable.{}
use karpenter_provider_hetzn.InstanceType.Catalogue.{}
use karpenter_provider_hetzn.InstanceType.Cache.{
  fresh_cache, stale_cache, view, Outcome, list_locked, list, fetched,
}
use karpenter_provider_hetzn.InstanceType.Cache.Threads.{
  Pc, start, waiting, holding, calling, showing, returned, Shared, after_look, after_stale, advance,
}

-- At most `n` steps of a caller, while no other runs and the clock stands.
unfoldable pub alone : FloatOps → ℕ → Result (List ServerType) → Shared → Pc → Shared × Pc
alone fl zero answer s p = (s, p)
alone fl (suc n) answer s p = elim (advance fl answer s p) [
  | none ↦ (s, p)
  | some (t, q) ↦ alone fl n answer t q
]

module _ (fl : FloatOps) where
  -- What the callers share when List has returned.
  abbrev pub settled : List String → Shared → Outcome → Shared × Pc
  settled locations s (r, p, m) =
      (record { provider = p; clock = s.clock; locked = false; metrics = m }, returned locations r)

  alone-fetched :
      (answer : Result (List ServerType)) (s : Shared) (ls : List String)
      → alone fl 4 answer s (calling ls)
        ≡ settled ls s (fetched fl s.clock ls answer s.provider s.metrics)
  unfolding alone advance after_stale fetched stale_cache
  alone-fetched (ok sts) s ls = refl
  alone-fetched (err e) s ls = go s.provider.cached_types refl
    where
      go :
          (cached : Option (List InstanceType))
          → s.provider.cached_types ≡ cached
          → alone fl 4 (err e) s (calling ls)
            ≡ settled ls s (fetched fl s.clock ls (err e) s.provider s.metrics)
      go none never = rw never refl
      go (some types) cached = rw cached refl

  alone-next :
      (n : ℕ) (answer : Result (List ServerType)) (s : Shared) (p : Pc) (t : Shared × Pc)
      → advance fl answer s p ≡ some t
      → alone fl (suc n) answer s p ≡ alone fl n answer t.0 t.1
  unfolding alone
  alone-next n answer s p t h = rw (h, alone) refl

  -- The two looks at the cache.
  advance-start :
      (answer : Result (List ServerType)) (s : Shared) (ls : List String)
      (found : Option (List InstanceType))
      → fresh_cache s.clock s.provider ≡ found
      → advance fl answer s (start ls) ≡ some (after_look false ls s (s, waiting ls) found)
  unfolding advance
  advance-start answer s ls found h = ap (λ x. some (after_look false ls s (s, waiting ls) x)) h

  advance-holding :
      (answer : Result (List ServerType)) (s : Shared) (ls : List String)
      (found : Option (List InstanceType))
      → fresh_cache s.clock s.provider ≡ found
      → advance fl answer s (holding ls)
        ≡ some (
            after_look true ls s
              (record s { metrics = record_cache_miss s.metrics }, calling ls)
              found)
  unfolding advance
  advance-holding answer s ls found h =
      ap
        (λ x.
          some (
            after_look true ls s (record s { metrics = record_cache_miss s.metrics }, calling ls)
              x))
        h

  advance-waiting :
      (answer : Result (List ServerType)) (s : Shared) (ls : List String)
      → s.locked ≡ false
      → advance fl answer s (waiting ls) ≡ some (record s { locked = true }, holding ls)
  unfolding advance
  advance-waiting answer s ls free = rw free refl

  alone-hit :
      (answer : Result (List ServerType)) (s : Shared) (ls : List String)
      (types : List InstanceType)
      → alone fl 4 answer
          (record s { metrics = record_cache_hit s.metrics })
          (showing true ls types)
        ≡ settled ls s
            (ok (view s.clock ls s.provider types), s.provider, record_cache_hit s.metrics)
  unfolding alone advance
  alone-hit answer s ls types = refl

  alone-warm :
      (answer : Result (List ServerType)) (s : Shared) (ls : List String)
      (types : List InstanceType)
      → s.locked ≡ false
      → alone fl 6 answer
          (record s { metrics = record_cache_hit s.metrics })
          (showing false ls types)
        ≡ settled ls s
            (ok (view s.clock ls s.provider types), s.provider, record_cache_hit s.metrics)
  unfolding alone advance
  alone-warm answer s ls types free = rw (← free) refl

  alone-list_locked :
      (answer : Result (List ServerType)) (s : Shared) (ls : List String)
      → alone fl 5 answer s (holding ls)
        ≡ settled ls s (list_locked fl s.clock ls answer s.provider s.metrics)
  unfolding after_look list_locked
  alone-list_locked answer s ls = elim (Option-cases (fresh_cache s.clock s.provider)) [
    | inl stale ↦
        alone-next 4 answer s (holding ls) _ (advance-holding answer s ls none stale)
        ∙ alone-fetched answer (record s { metrics = record_cache_miss s.metrics }) ls
        ∙ rw (stale, list_locked) refl
    | inr (types, fresh) ↦
        alone-next 4 answer s (holding ls) _ (advance-holding answer s ls (some types) fresh)
        ∙ alone-hit answer s ls types
        ∙ rw (fresh, list_locked) refl
  ]

  -- A caller that finds the refresh lock free and runs alone returns within seven steps, with the result,
  -- the catalogue and the counts of `list`, and with the lock free again.
  pub alone-list :
      (answer : Result (List ServerType)) (s : Shared) (locations : List String)
      → s.locked ≡ false
      → alone fl 7 answer s (start locations)
        ≡ settled locations s (list fl s.clock locations answer s.provider s.metrics)
  unfolding after_look list
  alone-list answer s ls free = elim (Option-cases (fresh_cache s.clock s.provider)) [
    | inl stale ↦
        alone-next 6 answer s (start ls) _ (advance-start answer s ls none stale)
        ∙ alone-next 5 answer s (waiting ls) _ (advance-waiting answer s ls free)
        ∙ alone-list_locked answer (record s { locked = true }) ls
        ∙ rw (stale, list) refl
    | inr (types, fresh) ↦
        alone-next 6 answer s (start ls) _ (advance-start answer s ls (some types) fresh)
        ∙ alone-warm answer s ls types free
        ∙ rw (fresh, list) refl
  ]
