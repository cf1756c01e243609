-- ===== src/InstanceType/Cache/Threads/Exclusion.antt =====
-- The refresh lock excludes: at most one caller refreshes.
use karpenter_provider_hetzn.InstanceType.Cache.Threads.Moves.{
  Move, early_hit, early_miss, lock, late_hit, late_miss, answer_ok, answer_err, stale_hit,
  stale_miss, stored, shown_locked, shown_free, unlock, advance-Move,
}
use karpenter_provider_hetzn.Base.{
  ℕ, ◌≡◌, refl, sym, ap, ◌∙◌, ◌≢◌, ◌⊎◌, inl, inr, Bool, true, false, ◌==◌, ==_iff, Bool-cases,
}
use karpenter_provider_hetzn.Base.Int.{}
use karpenter_provider_hetzn.Errors.{}
use karpenter_provider_hetzn.Metrics.{Metrics}
use karpenter_provider_hetzn.Hcloud.{}
use karpenter_provider_hetzn.InstanceType.{FloatOps}
use karpenter_provider_hetzn.InstanceType.Unavailable.{}
use karpenter_provider_hetzn.InstanceType.Catalogue.{}
use karpenter_provider_hetzn.InstanceType.Cache.{Provider}
use karpenter_provider_hetzn.InstanceType.Cache.Threads.{
  Pc, idle, start, waiting, holding, calling, failed, answered, showing, releasing, returned,
  Shared, System, update, is_resting, Step, run, call, pass, quarantine, Reach, begin, later,
}

-- Between the Lock of refreshMu and its Unlock.
abbrev pub holds : Pc → Bool
holds (holding locations) = true
holds (calling locations) = true
holds (failed locations e) = true
holds (answered locations types) = true
holds (showing held locations types) = held
holds (releasing locations r) = true
holds _ = false

-- What a step does to the refresh lock: nothing, or it takes the free lock, or it gives it back.
abbrev pub Locking : Shared → Pc → Shared × Pc → Type 0
Locking s p (t, q) =
    ((t.locked ≡ s.locked) × (holds q ≡ holds p))
    ⊎ ((s.locked ≡ false) × (t.locked ≡ true) × (holds p ≡ false) × (holds q ≡ true))
    ⊎ ((t.locked ≡ false) × (holds p ≡ true) × (holds q ≡ false))

module _ (fl : FloatOps) where
  Move-Locking : {s t : Shared} {p q : Pc} → Move fl s p t q → Locking s p (t, q)
  Move-Locking (early_hit ls types h) = inl (refl, refl)
  Move-Locking (early_miss ls) = inl (refl, refl)
  Move-Locking (lock ls free) = inr (inl (free, refl, refl, refl))
  Move-Locking (late_hit ls types h) = inl (refl, refl)
  Move-Locking (late_miss ls h) = inl (refl, refl)
  Move-Locking (answer_ok ls sts) = inl (refl, refl)
  Move-Locking (answer_err ls e) = inl (refl, refl)
  Move-Locking (stale_hit ls e types h) = inl (refl, refl)
  Move-Locking (stale_miss ls e h) = inl (refl, refl)
  Move-Locking (stored ls types) = inl (refl, refl)
  Move-Locking (shown_locked ls types) = inl (refl, refl)
  Move-Locking (shown_free ls types) = inl (refl, refl)
  Move-Locking (unlock ls r) = inr (inr (refl, refl, refl))

  -- At most one caller holds the refresh lock, and it is locked exactly while one does.
  pub record Excludes (s : System) : Type 0 where
    pub unique : (i j : ℕ) → holds (s.pc i) ≡ true → holds (s.pc j) ≡ true → i ≡ j
    pub free : s.shared.locked ≡ false → (i : ℕ) → holds (s.pc i) ≡ false
    pub owned : s.shared.locked ≡ true → (i : ℕ) × (holds (s.pc i) ≡ true)

  -- Whether caller `j` holds the lock once caller `i` is at `p`.
  holds-update :
      (pc : ℕ → Pc) (i : ℕ) (p : Pc) (j : ℕ)
      → ((i ≡ j) × (holds (update pc i p j) ≡ holds p))
        ⊎ ((i ≢ j) × (holds (update pc i p j) ≡ holds (pc j)))
  holds-update pc i p j = elim (Bool-cases (i == j)) [
    | inl same ↦ inl ((==_iff i j).0 same, rw same refl)
    | inr other ↦ inr ((λ e. cc (other, (==_iff i j).1 e)), rw other refl)
  ]

  module _ (s : System) (i : ℕ) (p : Pc) (m : Shared) (e : Excludes s) where
    abbrev moved : System
    moved = record { shared = m; pc = update s.pc i p }

    -- A step that leaves the lock alone.
    same-Excludes : m.locked ≡ s.shared.locked → holds p ≡ holds (s.pc i) → Excludes moved
    same-Excludes same kept = record {
      unique = λ j k hj hk. e.unique j k (before j ∙ hj) (before k ∙ hk);
      free = λ off j. sym (before j) ∙ e.free (sym same ∙ off) j;
      owned = λ on. let (j, h) = e.owned (sym same ∙ on) in (j, sym (before j) ∙ h);
    }
      where
        before : (j : ℕ) → holds (s.pc j) ≡ holds (update s.pc i p j)
        before j = elim (holds-update s.pc i p j) [
          | inl (here, at) ↦ ap (λ k. holds (s.pc k)) (sym here) ∙ sym kept ∙ sym at
          | inr (other, at) ↦ sym at
        ]

    -- A step that takes the lock.
    taken-Excludes : s.shared.locked ≡ false → m.locked ≡ true → holds p ≡ true → Excludes moved
    taken-Excludes was on held = record {
      unique = λ j k hj hk. sym (only j hj) ∙ only k hk;
      free = λ off j. absurd (cc (off, on));
      owned = λ x. (
        i,
        elim (holds-update s.pc i p i) [
          | inl (here, at) ↦ at ∙ held
          | inr (other, at) ↦ absurd (other refl)
        ],
      );
    }
      where
        only : (j : ℕ) → holds (update s.pc i p j) ≡ true → i ≡ j
        only j h = elim (holds-update s.pc i p j) [
          | inl (here, at) ↦ here
          | inr (other, at) ↦ absurd (cc (at, h, e.free was j))
        ]

    -- A step that gives it back.
    freed-Excludes : m.locked ≡ false → holds (s.pc i) ≡ true → holds p ≡ false → Excludes moved
    freed-Excludes off held given = record {
      unique = λ j k hj hk. absurd (cc (none_holds j, hj));
      free = λ x j. none_holds j;
      owned = λ on. absurd (cc (off, on));
    }
      where
        none_holds : (j : ℕ) → holds (update s.pc i p j) ≡ false
        none_holds j = elim (holds-update s.pc i p j) [
          | inl (here, at) ↦ at ∙ given
          | inr (other, at) ↦ elim (Bool-cases (holds (s.pc j))) [
            | inl held' ↦ absurd (other (e.unique i j held held'))
            | inr free ↦ at ∙ free
          ]
        ]

    moved-Excludes : Locking s.shared (s.pc i) (m, p) → Excludes moved
    moved-Excludes (inl (same, kept)) = same-Excludes same kept
    moved-Excludes (inr (inl (was, on, free, held))) = taken-Excludes was on held
    moved-Excludes (inr (inr (off, held, given))) = freed-Excludes off held given

  pub resting-holds : (p : Pc) → is_resting p ≡ true → holds p ≡ false
  resting-holds idle h = refl
  resting-holds (start ls) h = absurd (cc h)
  resting-holds (waiting ls) h = absurd (cc h)
  resting-holds (holding ls) h = absurd (cc h)
  resting-holds (calling ls) h = absurd (cc h)
  resting-holds (failed ls e) h = absurd (cc h)
  resting-holds (answered ls types) h = absurd (cc h)
  resting-holds (showing held ls types) h = absurd (cc h)
  resting-holds (releasing ls r) h = absurd (cc h)
  resting-holds (returned ls r) h = refl

  Step-Excludes : {s t : System} → Excludes s → Step fl s t → Excludes t
  Step-Excludes {s} e (run i answer {m} {p} h) =
      moved-Excludes s i p m e (Move-Locking (advance-Move fl answer s.shared m (s.pc i) p h))
  Step-Excludes {s} e (call i locations h) =
      moved-Excludes s i (start locations) s.shared e (inl (refl, sym (resting-holds (s.pc i) h)))
  Step-Excludes e (pass d) = record { unique = e.unique; free = e.free; owned = e.owned }
  Step-Excludes e (quarantine t l) = record { unique = e.unique; free = e.free; owned = e.owned }

  pub Reach-Excludes :
      {p : Provider} {now : ℕ} {m : Metrics} {s : System} → Reach fl p now m s → Excludes s
  Reach-Excludes begin = record {
    unique = λ i j hi hj. absurd (cc hi);
    free = λ off i. refl;
    owned = λ on. absurd (cc on);
  }
  Reach-Excludes (later r step) = Step-Excludes (Reach-Excludes r) step

  -- However the callers of List interleave, two of them never call the API at once: the callers that
  -- hold the refresh lock are one at most.
  pub refresh_exclusive :
      {p : Provider} {now : ℕ} {m : Metrics} {s : System}
      → Reach fl p now m s
      → (i j : ℕ) → holds (s.pc i) ≡ true
      → holds (s.pc j) ≡ true
      → i ≡ j
  refresh_exclusive r = (Reach-Excludes r).unique
