-- ===== src/InstanceType/Cache/Threads/Calls.antt =====
-- How often concurrent callers of List call the API.
use karpenter_provider_hetzn.Base.{ℕ, ◌+◌, ◌≤◌, ◌<◌, ◌≡◌, refl, sym, ap, inl, inr, arith}
use karpenter_provider_hetzn.Errors.{ok, err}
use karpenter_provider_hetzn.Metrics.{Metrics}
use karpenter_provider_hetzn.InstanceType.{FloatOps}
use karpenter_provider_hetzn.InstanceType.Cache.{cache_ttl, Provider, mark}
use karpenter_provider_hetzn.InstanceType.Cache.Threads.{
  Pc, start, calling, System, run, call, pass, quarantine, Reach, begin, later,
}
use karpenter_provider_hetzn.InstanceType.Cache.Threads.Moves.{advance-Move}
use karpenter_provider_hetzn.InstanceType.Cache.Threads.Exclusion.{Reach-Excludes}
use karpenter_provider_hetzn.InstanceType.Cache.Threads.Fetches.{
  misses, Move-Fetch, Move-clock-advance, not_failed, resting-fetching,
}
use karpenter_provider_hetzn.InstanceType.Cache.Threads.Stages.{
  Stage, idle_stage, fetching_stage, stored_stage, quiet-Stage, step-Stage, more-Stage, Stage-bound,
}

-- Whether the next step of a caller takes the answer of the API.
abbrev asks : Pc → ℕ
asks (calling locations) = 1
asks _ = 0

module _ (fl : FloatOps) (p : Provider) (now : ℕ) (m : Metrics) where
  -- The answers of the API that were errors.
  abbrev pub failures : {s : System} → Reach fl p now m s → ℕ
  failures begin = 0
  failures (later {s} r (run i (ok sts) h)) = failures r
  failures (later {s} r (run i (err e) h)) = failures r + asks (s.pc i)
  failures (later r (call i locations h)) = failures r
  failures (later r (pass d)) = failures r
  failures (later r (quarantine t l)) = failures r

  Reach-clock : {s : System} → Reach fl p now m s → now ≤ s.shared.clock
  Reach-clock begin = omega arith
  Reach-clock (later {s} r (run i answer {m = t} {p = b} h)) =
      let before = Reach-clock r in
      let same = Move-clock-advance fl answer s.shared t (s.pc i) b h in omega arith
  Reach-clock (later r (call i locations h)) = Reach-clock r
  Reach-clock (later r (pass d)) = let before = Reach-clock r in omega arith
  Reach-clock (later r (quarantine t l)) = Reach-clock r

  Reach-Stage :
      {s : System} (r : Reach fl p now m s)
      → s.shared.clock < now + cache_ttl
      → Stage fl now (m.instance_type_cache_total "miss" + failures r) s
  unfolding mark
  Reach-Stage begin high = idle_stage (omega arith) (λ i. refl)
  Reach-Stage (later {s} r (run i (ok sts) {m = t} {p = b} h)) high =
      let same = Move-clock-advance fl (ok sts) s.shared t (s.pc i) b h in
      let before : s.shared.clock < now + cache_ttl = omega arith in
      elim (step-Stage fl now s i b t (Reach-Excludes fl r) _ (Reach-clock r) before
        (Move-Fetch fl (advance-Move fl (ok sts) s.shared t (s.pc i) b h)) (Reach-Stage r before)) [
          | inl st ↦ st
          | inr (st, ls, d, from, to) ↦
              absurd (not_failed fl sts s.shared t (s.pc i) b ls d h from to)
        ]
  Reach-Stage (later {s} r (run i (err e) {m = t} {p = b} h)) high =
      let same = Move-clock-advance fl (err e) s.shared t (s.pc i) b h in
      let before : s.shared.clock < now + cache_ttl = omega arith in
      let n = m.instance_type_cache_total "miss" + failures r in
      elim (step-Stage fl now s i b t (Reach-Excludes fl r) n (Reach-clock r) before
        (Move-Fetch fl (advance-Move fl (err e) s.shared t (s.pc i) b h)) (Reach-Stage r before)) [
          | inl st ↦ more-Stage fl now (omega arith) st
          | inr (st, ls, d, from, to) ↦
              let one : asks (s.pc i) ≡ 1 = ap asks from in more-Stage fl now (omega arith) st
        ]
  Reach-Stage (later {s} r (call i locations h)) high =
      quiet-Stage fl now s i (start locations) s.shared (Reach-Excludes fl r) _ refl
        (sym (resting-fetching fl (s.pc i) h)) refl (Reach-Stage r high)
  Reach-Stage (later {s} r (pass d)) high = passed (Reach-Stage r (omega arith))
    where
      passed :
          {n : ℕ}
          → Stage fl now n s
          → Stage fl now n (record s { shared = record s.shared { clock = s.shared.clock + d } })
      passed (idle_stage few rests) = idle_stage few rests
      passed (fetching_stage few k busy) = fetching_stage few k busy
      passed (stored_stage few cached expiry rests) = stored_stage few cached expiry rests
  Reach-Stage (later {s} r (quarantine t l)) high = quiet (Reach-Stage r high)
    where
      quiet :
          {n : ℕ}
          → Stage fl now n s
          → Stage fl now n (record s {
            shared = record s.shared { provider = mark s.shared.clock t l s.shared.provider };
          })
      quiet (idle_stage few rests) = idle_stage few rests
      quiet (fetching_stage few k busy) = fetching_stage few k busy
      quiet (stored_stage few cached expiry rests) = stored_stage few cached expiry rests

  -- However many callers of List there are and however they interleave, time passes and marks are set: in
  -- the six hours from the start they call the API at most once, and once more for each time it answers with
  -- an error.
  pub misses_bound :
      {s : System} (r : Reach fl p now m s)
      → s.shared.clock < now + cache_ttl
      → misses s.shared ≤ m.instance_type_cache_total "miss" + failures r + 1
  misses_bound r high = Stage-bound fl now (Reach-Stage r high)
