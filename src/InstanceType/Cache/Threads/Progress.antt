-- ===== src/InstanceType/Cache/Threads/Progress.antt =====
-- A caller of List waits for nothing but a refresh that goes on, and returns after a bounded number of
-- its own steps.
use karpenter_provider_hetzn.InstanceType.Cache.Threads.Moves.{
  Move, early_hit, early_miss, lock, late_hit, late_miss, answer_ok, answer_err, stale_hit,
  stale_miss, stored, shown_locked, shown_free, unlock, advance-Move,
}
use karpenter_provider_hetzn.Base.{
  ℕ, ◌≤◌, ◌<◌, String, ◌≡◌, refl, ◌⊎◌, inl, inr, true, false, some, List, arith, Bool-cases,
}
use karpenter_provider_hetzn.Base.Int.{}
use karpenter_provider_hetzn.Errors.{Result, ok, err}
use karpenter_provider_hetzn.Metrics.{Metrics}
use karpenter_provider_hetzn.Hcloud.{ServerType}
use karpenter_provider_hetzn.InstanceType.{FloatOps}
use karpenter_provider_hetzn.InstanceType.Unavailable.{}
use karpenter_provider_hetzn.InstanceType.Catalogue.{}
use karpenter_provider_hetzn.InstanceType.Cache.{Provider}
use karpenter_provider_hetzn.InstanceType.Cache.Threads.{
  Pc, idle, start, waiting, holding, calling, failed, answered, showing, releasing, returned,
  Shared, System, is_resting, advance, Reach,
}
use karpenter_provider_hetzn.InstanceType.Cache.Threads.Exclusion.{
  holds, resting-holds, Reach-Excludes,
}

-- How many steps a caller has left at most.
abbrev pub rank : Pc → ℕ
rank idle = 0
rank (start ls) = 7
rank (waiting ls) = 6
rank (holding ls) = 5
rank (calling ls) = 4
rank (failed ls e) = 3
rank (answered ls types) = 3
rank (showing held ls types) = 2
rank (releasing ls r) = 1
rank (returned ls r) = 0

module _ (fl : FloatOps) where
  abbrev pub GoesOn : Shared → Pc → Type 0
  GoesOn s p =
      (answer : Result (List ServerType)) → (n : Shared × Pc) × (advance fl answer s p ≡ some n)

  abbrev pub IsWaiting : Pc → Type 0
  IsWaiting p = (locations : List String) × (p ≡ waiting locations)

  -- A caller goes on, or is done, or waits for the refresh lock.
  moves :
      (s : Shared) (p : Pc) → is_resting p ≡ false → GoesOn s p ⊎ (IsWaiting p × (s.locked ≡ true))
  unfolding advance
  moves s idle h = absurd (cc h)
  moves s (start ls) h = inl (λ answer. (_, refl))
  moves s (waiting ls) h = elim (Bool-cases s.locked) [
    | inl taken ↦ inr ((ls, refl), taken)
    | inr free ↦ inl (λ answer. ((record s { locked = true }, holding ls), rw (free, advance) refl))
  ]
  moves s (holding ls) h = inl (λ answer. (_, refl))
  moves s (calling ls) h = inl (λ answer. called answer)
    where
      called :
          (answer : Result (List ServerType))
          → (n : Shared × Pc) × (advance fl answer s (calling ls) ≡ some n)
      called (ok sts) = (_, refl)
      called (err e) = (_, refl)
  moves s (failed ls e) h = inl (λ answer. (_, refl))
  moves s (answered ls types) h = inl (λ answer. (_, refl))
  moves s (showing held ls types) h = inl (λ answer. (_, refl))
  moves s (releasing ls r) h = inl (λ answer. (_, refl))
  moves s (returned ls r) h = absurd (cc h)

  holds-resting : (p : Pc) → holds p ≡ true → is_resting p ≡ false
  holds-resting p h = elim (Bool-cases (is_resting p)) [
    | inl resting ↦ absurd (cc (h, resting-holds fl p resting))
    | inr busy ↦ busy
  ]

  -- A caller with the refresh lock goes on.
  holds-GoesOn : (s : Shared) (p : Pc) → holds p ≡ true → GoesOn s p
  holds-GoesOn s p h = elim (moves s p (holds-resting p h)) [
    | inl on ↦ on
    | inr ((ls, waits), locked) ↦ absurd (cc (rw waits at h))
  ]

  -- No deadlock: a caller of List that is not done goes on, whatever the API answers, unless it waits for
  -- the refresh lock; then some caller holds this lock, and that one goes on.
  pub list_progress :
      {p : Provider} {now : ℕ} {m : Metrics} {s : System}
      → Reach fl p now m s
      → (i : ℕ) → is_resting (s.pc i) ≡ false
      → GoesOn s.shared (s.pc i)
        ⊎ (IsWaiting (s.pc i) × (j : ℕ) × (holds (s.pc j) ≡ true) × GoesOn s.shared (s.pc j))
  list_progress {s} r i h = elim (moves s.shared (s.pc i) h) [
    | inl on ↦ inl on
    | inr (waits, locked) ↦
        let (j, held) = (Reach-Excludes fl r).owned locked in
        inr (waits, j, held, holds-GoesOn s.shared (s.pc j) held)
  ]

  Move-rank : {s t : Shared} {p q : Pc} → Move fl s p t q → (rank q < rank p) × (rank p ≤ 7)
  Move-rank (early_hit ls types h) = (omega arith, omega arith)
  Move-rank (early_miss ls) = (omega arith, omega arith)
  Move-rank (lock ls free) = (omega arith, omega arith)
  Move-rank (late_hit ls types h) = (omega arith, omega arith)
  Move-rank (late_miss ls h) = (omega arith, omega arith)
  Move-rank (answer_ok ls sts) = (omega arith, omega arith)
  Move-rank (answer_err ls e) = (omega arith, omega arith)
  Move-rank (stale_hit ls e types h) = (omega arith, omega arith)
  Move-rank (stale_miss ls e h) = (omega arith, omega arith)
  Move-rank (stored ls types) = (omega arith, omega arith)
  Move-rank (shown_locked ls types) = (omega arith, omega arith)
  Move-rank (shown_free ls types) = (omega arith, omega arith)
  Move-rank (unlock ls r) = (omega arith, omega arith)

  -- Every step of a caller brings it closer to its return, which is seven steps away at most.
  pub advance-rank :
      (answer : Result (List ServerType)) (s t : Shared) (p q : Pc)
      → advance fl answer s p ≡ some (t, q)
      → (rank q < rank p) × (rank p ≤ 7)
  advance-rank answer s t p q h = Move-rank (advance-Move fl answer s t p q h)
