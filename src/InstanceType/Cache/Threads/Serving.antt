-- ===== src/InstanceType/Cache/Threads/Serving.antt =====
-- What concurrent callers of List return: once a catalogue was fetched, no error, and always a catalogue
-- as the API answered it.
use karpenter_provider_hetzn.InstanceType.Cache.Threads.Moves.{
  Move, early_hit, early_miss, lock, late_hit, late_miss, answer_ok, answer_err, stale_hit,
  stale_miss, stored, shown_locked, shown_free, unlock, advance-Move,
}
use karpenter_provider_hetzn.Base.{
  ℕ, ◌≡◌, refl, sym, ap, ◌∙◌, ◌≢◌, inl, inr, Bool, true, false, none, ◌==◌, ==_iff, Bool-cases,
}
use karpenter_provider_hetzn.Base.Int.{}
use karpenter_provider_hetzn.Errors.{ok, err}
use karpenter_provider_hetzn.Metrics.{}
use karpenter_provider_hetzn.Hcloud.{}
use karpenter_provider_hetzn.InstanceType.{FloatOps}
use karpenter_provider_hetzn.InstanceType.Unavailable.{}
use karpenter_provider_hetzn.InstanceType.Catalogue.{}
use karpenter_provider_hetzn.InstanceType.Cache.{store, mark}
use karpenter_provider_hetzn.InstanceType.Cache.Threads.{
  Pc, start, releasing, returned, Shared, System, update, Step, run, call, pass, quarantine,
}

-- A caller that returns an error, or is about to.
abbrev pub is_failing : Pc → Bool
is_failing (releasing ls (err e)) = true
is_failing (returned ls (err e)) = true
is_failing _ = false

module _ (fl : FloatOps) where
  pub data Runs (s : System) : System → Type 0 where
    stays : Runs s s
    goes : {t u : System} → Runs s t → Step fl t u → Runs s u

  abbrev IsServing : Shared → Type 0
  IsServing s = s.provider.cached_types ≢ none

  abbrev KeepsServing : Pc → Shared × Pc → Type 0
  KeepsServing p (t, q) = IsServing t × (is_failing q ≡ true → is_failing p ≡ true)

  Move-Serving : {s t : Shared} {p q : Pc} → Move fl s p t q → IsServing s → KeepsServing p (t, q)
  unfolding store
  Move-Serving (early_hit ls types h) serving = (serving, λ f. absurd (cc f))
  Move-Serving (early_miss ls) serving = (serving, λ f. absurd (cc f))
  Move-Serving (lock ls free) serving = (serving, λ f. absurd (cc f))
  Move-Serving (late_hit ls types h) serving = (serving, λ f. absurd (cc f))
  Move-Serving (late_miss ls h) serving = (serving, λ f. absurd (cc f))
  Move-Serving (answer_ok ls sts) serving = (serving, λ f. absurd (cc f))
  Move-Serving (answer_err ls e) serving = (serving, λ f. absurd (cc f))
  Move-Serving (stale_hit ls e types h) serving = (serving, λ f. absurd (cc f))
  Move-Serving (stale_miss ls e h) serving = absurd (serving h)
  Move-Serving (stored ls types) serving = ((λ e. absurd (cc e)), λ f. absurd (cc f))
  Move-Serving (shown_locked ls types) serving = (serving, λ f. absurd (cc f))
  Move-Serving (shown_free ls types) serving = (serving, λ f. absurd (cc f))
  Move-Serving (unlock ls (ok its)) serving = (serving, λ f. absurd (cc f))
  Move-Serving (unlock ls (err e)) serving = (serving, λ f. refl)

  failing-update :
      (pc : ℕ → Pc) (i : ℕ) (p : Pc) (j : ℕ)
      → (is_failing p ≡ true → is_failing (pc i) ≡ true)
      → is_failing (update pc i p j) ≡ true
      → is_failing (pc j) ≡ true
  failing-update pc i p j k f = elim (Bool-cases (i == j)) [
    | inl same ↦
        let here : i ≡ j = (==_iff i j).0 same in
        ap (λ x. is_failing (pc x)) (sym here) ∙ k (rw same at f)
    | inr other ↦ rw other at f
  ]

  Step-Serving :
      {s t : System}
      → Step fl s t
      → IsServing s.shared
      → IsServing t.shared × ((j : ℕ) → is_failing (t.pc j) ≡ true → is_failing (s.pc j) ≡ true)
  unfolding mark
  Step-Serving {s} (run i answer {m} {p} h) serving =
      let (serves, keeps) = Move-Serving (advance-Move fl answer s.shared m (s.pc i) p h) serving in
      (serves, λ j f. failing-update s.pc i p j keeps f)
  Step-Serving {s} (call i locations h) serving =
      (serving, λ j f. failing-update s.pc i (start locations) j (λ g. absurd (cc g)) f)
  Step-Serving (pass d) serving = (serving, λ j f. f)
  Step-Serving (quarantine t l) serving = (serving, λ j f. f)

  Runs-IsServing :
      {s t : System}
      → Runs s t
      → IsServing s.shared
      → IsServing t.shared × ((j : ℕ) → is_failing (t.pc j) ≡ true → is_failing (s.pc j) ≡ true)
  Runs-IsServing stays serving = (serving, λ j f. f)
  Runs-IsServing (goes r step) serving =
      let (there, back) = Runs-IsServing r serving in
      let (after, keeps) = Step-Serving step there in (after, λ j f. back j (keeps j f))

  -- Once a catalogue is cached, it is never lost, and no caller of List gets an error any more, however
  -- the callers interleave, the API fails and the time passes: one that fails later failed already.
  pub list_serves :
      {s t : System}
      → Runs s t
      → s.shared.provider.cached_types ≢ none
      → (t.shared.provider.cached_types ≢ none)
        × ((j : ℕ) → is_failing (t.pc j) ≡ true → is_failing (s.pc j) ≡ true)
  list_serves r serving = Runs-IsServing r serving
