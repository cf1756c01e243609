-- ===== src/InstanceType/Cache/Threads/Stages.antt =====
-- How far the callers of List are with the fetch, six hours from `now`.
use karpenter_provider_hetzn.Base.{
  ℕ, ◌+◌, ◌≤◌, ◌<◌, String, ◌≡◌, refl, sym, ap, ◌∙◌, ◌≢◌, ◌⊎◌, inl, inr, true, false, none, List,
  arith, ◌==◌, ==_iff, Bool-cases,
}
use karpenter_provider_hetzn.Errors.{Error}
use karpenter_provider_hetzn.InstanceType.{FloatOps}
use karpenter_provider_hetzn.InstanceType.Cache.{cache_ttl, Provider, fresh_cache}
use karpenter_provider_hetzn.InstanceType.Cache.Threads.{
  Pc, calling, failed, Shared, System, update,
}
use karpenter_provider_hetzn.InstanceType.Cache.Threads.Exclusion.{holds, Excludes}
use karpenter_provider_hetzn.InstanceType.Cache.Threads.Fetches.{
  is_fetching, misses, Fetch, fetching-holds, not_stale,
}

module _ (fl : FloatOps) (now : ℕ) where
  -- No caller fetches; or one does; or a catalogue was stored in the six hours since `now`.
  pub data Stage (n : ℕ) (s : System) : Type 0 where
    idle_stage : misses s.shared ≤ n → ((i : ℕ) → is_fetching (s.pc i) ≡ false) → Stage n s
    fetching_stage : misses s.shared ≤ n + 1 → (i : ℕ) → is_fetching (s.pc i) ≡ true → Stage n s
    stored_stage :
        misses s.shared ≤ n + 1
        → s.shared.provider.cached_types ≢ none
        → now + cache_ttl ≤ s.shared.provider.cache_expiry
        → ((i : ℕ) → is_fetching (s.pc i) ≡ false)
        → Stage n s

  module _ (s : System) (i : ℕ) (b : Pc) (t : Shared) (e : Excludes fl s) where
    abbrev pub moved : System
    moved = record { shared = t; pc = update s.pc i b }

    at : (j : ℕ) → ((i ≡ j) × (moved.pc j ≡ b)) ⊎ ((i ≢ j) × (moved.pc j ≡ s.pc j))
    at j = elim (Bool-cases (i == j)) [
      | inl same ↦ inl ((==_iff i j).0 same, rw same refl)
      | inr other ↦ inr ((λ k. cc (other, (==_iff i j).1 k)), rw other refl)
    ]

    -- Nobody fetches once the caller that did is past it.
    past :
        ((j : ℕ) → is_fetching (s.pc j) ≡ true → i ≡ j)
        → is_fetching b ≡ false
        → (j : ℕ) → is_fetching (moved.pc j) ≡ false
    past only off j = elim (at j) [
      | inl (here, k) ↦ ap is_fetching k ∙ off
      | inr (other, k) ↦ elim (Bool-cases (is_fetching (s.pc j))) [
        | inl busy ↦ absurd (other (only j busy))
        | inr rests ↦ ap is_fetching k ∙ rests
      ]
    ]

    only_holder : holds (s.pc i) ≡ true → (j : ℕ) → is_fetching (s.pc j) ≡ true → i ≡ j
    only_holder held j f = e.unique i j held (fetching-holds fl (s.pc j) f)

    kept :
        is_fetching b ≡ is_fetching (s.pc i)
        → (j : ℕ) → is_fetching (moved.pc j) ≡ is_fetching (s.pc j)
    kept same j = elim (at j) [
      | inl (here, k) ↦ ap is_fetching k ∙ same ∙ ap (λ x. is_fetching (s.pc x)) here
      | inr (other, k) ↦ ap is_fetching k
    ]

    pub quiet-Stage :
        (n : ℕ)
        → misses t ≡ misses s.shared
        → is_fetching b ≡ is_fetching (s.pc i)
        → t.provider ≡ s.shared.provider
        → Stage n s
        → Stage n moved
    quiet-Stage n same f provider (idle_stage few off) =
        idle_stage (omega arith) (λ j. kept f j ∙ off j)
    quiet-Stage n same f provider (fetching_stage few k on) =
        fetching_stage (omega arith) k (kept f k ∙ on)
    quiet-Stage n same f provider (stored_stage few cached expiry off) =
        stored_stage (omega arith)
          (λ h. cached (ap (λ (x : Provider). x.cached_types) (sym provider) ∙ h))
          (rw provider expiry) (λ j. kept f j ∙ off j)

    begun-Stage :
        (n : ℕ)
        → s.shared.clock < now + cache_ttl
        → misses t ≡ misses s.shared + 1
        → holds (s.pc i) ≡ true
        → is_fetching (s.pc i) ≡ false
        → is_fetching b ≡ true
        → fresh_cache s.shared.clock s.shared.provider ≡ none
        → Stage n s
        → Stage n moved
    begun-Stage n high more held off on stale (idle_stage few rests) =
        fetching_stage (omega arith) i (elim (at i) [
          | inl (here, k) ↦ ap is_fetching k ∙ on
          | inr (other, k) ↦ absurd (other refl)
        ])
    begun-Stage n high more held off on stale (fetching_stage few k busy) =
        absurd (cc (only_holder held k busy, off, busy))
    begun-Stage n high more held off on stale (stored_stage few cached expiry rests) =
        absurd (not_stale fl s.shared cached (omega arith) stale)

    stored-Stage :
        (n : ℕ)
        → now ≤ s.shared.clock
        → misses t ≡ misses s.shared
        → is_fetching (s.pc i) ≡ true
        → is_fetching b ≡ false
        → t.provider.cached_types ≢ none
        → s.shared.clock + cache_ttl ≡ t.provider.cache_expiry
        → Stage n s
        → Stage n moved
    stored-Stage n low same on off cached expiry (idle_stage few rests) = absurd (cc (rests i, on))
    stored-Stage n low same on off cached expiry (fetching_stage few k busy) =
        stored_stage (omega arith) cached (omega arith)
          (past (only_holder (fetching-holds fl (s.pc i) on)) off)
    stored-Stage n low same on off cached expiry (stored_stage few c d rests) =
        absurd (cc (rests i, on))

    failed-Stage :
        (n : ℕ) (ls : List String) (d : Error)
        → t ≡ s.shared
        → s.pc i ≡ calling ls
        → b ≡ failed ls d
        → Stage n s
        → Stage (n + 1) moved
    failed-Stage n ls d same from to (idle_stage few rests) =
        absurd (cc (ap is_fetching from, rests i))
    failed-Stage n ls d same from to (fetching_stage few k busy) =
        let equal : misses t ≡ misses s.shared = ap misses same in
        idle_stage (omega arith) (
          past (only_holder (fetching-holds fl (s.pc i) (ap is_fetching from))) (ap is_fetching to))
    failed-Stage n ls d same from to (stored_stage few c f rests) =
        absurd (cc (ap is_fetching from, rests i))

    pub step-Stage :
        (n : ℕ)
        → now ≤ s.shared.clock
        → s.shared.clock < now + cache_ttl
        → Fetch fl s.shared (s.pc i) t b
        → Stage n s
        → Stage n moved
          ⊎ (Stage (n + 1) moved
              × (ls : List String) × (d : Error) × (s.pc i ≡ calling ls)
              × (b ≡ failed ls d))
    step-Stage n low high (inl (same, f, provider)) st = inl (quiet-Stage n same f provider st)
    step-Stage n low high (inr (inl (more, held, off, on, stale))) st =
        inl (begun-Stage n high more held off on stale st)
    step-Stage n low high (inr (inr (inl (same, on, off, cached, expiry)))) st =
        inl (stored-Stage n low same on off cached expiry st)
    step-Stage n low high (inr (inr (inr (ls, d, same, from, to)))) st =
        inr (failed-Stage n ls d same from to st, ls, d, from, to)

  pub more-Stage : {n k : ℕ} {s : System} → n ≤ k → Stage n s → Stage k s
  more-Stage le (idle_stage few rests) = idle_stage (omega arith) rests
  more-Stage le (fetching_stage few k busy) = fetching_stage (omega arith) k busy
  more-Stage le (stored_stage few cached expiry rests) =
      stored_stage (omega arith) cached expiry rests

  pub Stage-bound : {n : ℕ} {s : System} → Stage n s → misses s.shared ≤ n + 1
  Stage-bound (idle_stage few rests) = omega arith
  Stage-bound (fetching_stage few k busy) = few
  Stage-bound (stored_stage few cached expiry rests) = few
