-- ===== src/InstanceType/Cache/Threads/Shows.antt =====
-- Where the catalogues come from that concurrent callers of List return.
use mathlib.Core.Path.{subst}
use mathlib.Core.Option.{some-injective}
use karpenter_provider_hetzn.Base.{
  ℕ, String, ◌≡◌, refl, sym, ap, ◌∙◌, ◌⊎◌, inl, inr, some, List, map, ◌==◌, Bool-cases,
}
use karpenter_provider_hetzn.Base.Int.{}
use karpenter_provider_hetzn.Errors.{Result, ok, err}
use karpenter_provider_hetzn.Metrics.{Metrics}
use karpenter_provider_hetzn.Hcloud.{ServerType}
use karpenter_provider_hetzn.InstanceType.{InstanceType, FloatOps}
use karpenter_provider_hetzn.InstanceType.Unavailable.{}
use karpenter_provider_hetzn.InstanceType.Catalogue.{to_instance_type}
use karpenter_provider_hetzn.InstanceType.Cache.{Provider, store, mark, view}
use karpenter_provider_hetzn.InstanceType.Cache.Threads.{
  Pc, idle, start, waiting, holding, calling, failed, answered, advance, Step, showing, releasing,
  returned, Shared, System, update, run, call, pass, quarantine, Reach, begin, later,
}
use karpenter_provider_hetzn.InstanceType.Cache.Threads.Moves.{
  Move, early_hit, early_miss, lock, late_hit, late_miss, answer_ok, answer_err, stale_hit,
  stale_miss, stored, shown_locked, shown_free, unlock, advance-Move,
}

module _ (fl : FloatOps) (first_provider : Provider) (start_time : ℕ)
    (start_metrics : Metrics) where
  abbrev Run : System → Type 0
  Run = Reach fl first_provider start_time start_metrics

  -- In the run a caller called the API, and it answered with these server types.
  abbrev pub Answered : {s : System} → Run s → List ServerType → Type 0
  Answered begin sts = ⊥
  Answered (later {s} r (run i (ok given) h)) sts =
      Answered r sts ⊎ ((ls : List String) × (s.pc i ≡ calling ls) × (given ≡ sts))
  Answered (later r (run i (err e) h)) sts = Answered r sts
  Answered (later r (call i locations h)) sts = Answered r sts
  Answered (later r (pass d)) sts = Answered r sts
  Answered (later r (quarantine t l)) sts = Answered r sts

  -- The callers share this at some time of the run before its last step.
  abbrev pub Occurs : {s : System} → Run s → Shared → Type 0
  Occurs begin x = ⊥
  Occurs (later {s} r st) x = Occurs r x ⊎ (s.shared ≡ x)

  -- A catalogue that was cached at the start, or that the API answered in the run.
  abbrev pub IsGenuine : {s : System} → Run s → List InstanceType → Type 0
  IsGenuine r types =
      (first_provider.cached_types ≡ some types)
      ⊎ ((sts : List ServerType) × Answered r sts × (types ≡ map (to_instance_type fl) sts))

  -- A view of a genuine catalogue for these locations, at a time of the run, with the quarantine of then.
  abbrev pub IsGenuineView : {s : System} → Run s → List String → List InstanceType → Type 0
  IsGenuineView r locations its =
      (types : List InstanceType) × (x : Shared) × Occurs r x
      × IsGenuine r types
      × (its ≡ view x.clock locations x.provider types)

  abbrev HasGenuine : {s : System} → Run s → Pc → Type 0
  HasGenuine r (answered ls types) = IsGenuine r types
  HasGenuine r (showing held ls types) = IsGenuine r types
  HasGenuine r (releasing ls (ok its)) = IsGenuineView r ls its
  HasGenuine r (returned ls (ok its)) = IsGenuineView r ls its
  HasGenuine r _ = Unit

  abbrev Caches : {s : System} → Run s → Shared → Type 0
  Caches r x =
      (types : List InstanceType) → x.provider.cached_types ≡ some types → IsGenuine r types

  Answered-later :
      {s t : System} (r : Run s) (st : Step fl s t) (sts : List ServerType)
      → Answered r sts
      → Answered (later r st) sts
  Answered-later r (run i (ok given) h) sts a = inl a
  Answered-later r (run i (err e) h) sts a = a
  Answered-later r (call i locations h) sts a = a
  Answered-later r (pass d) sts a = a
  Answered-later r (quarantine t l) sts a = a

  IsGenuine-later :
      {s t : System} (r : Run s) (st : Step fl s t) (types : List InstanceType)
      → IsGenuine r types
      → IsGenuine (later r st) types
  IsGenuine-later r st types (inl e) = inl e
  IsGenuine-later r st types (inr (sts, a, e)) = inr (sts, Answered-later r st sts a, e)

  IsGenuineView-later :
      {s t : System} (r : Run s) (st : Step fl s t) (ls : List String) (its : List InstanceType)
      → IsGenuineView r ls its
      → IsGenuineView (later r st) ls its
  IsGenuineView-later r st ls its (types, x, there, g, e) =
      (types, x, inl there, IsGenuine-later r st types g, e)

  HasGenuine-later :
      {s t : System} (r : Run s) (st : Step fl s t) (p : Pc)
      → HasGenuine r p
      → HasGenuine (later r st) p
  HasGenuine-later r st idle g = tt
  HasGenuine-later r st (start ls) g = tt
  HasGenuine-later r st (waiting ls) g = tt
  HasGenuine-later r st (holding ls) g = tt
  HasGenuine-later r st (calling ls) g = tt
  HasGenuine-later r st (failed ls e) g = tt
  HasGenuine-later r st (answered ls types) g = IsGenuine-later r st types g
  HasGenuine-later r st (showing held ls types) g = IsGenuine-later r st types g
  HasGenuine-later r st (releasing ls (ok its)) g = IsGenuineView-later r st ls its g
  HasGenuine-later r st (releasing ls (err e)) g = tt
  HasGenuine-later r st (returned ls (ok its)) g = IsGenuineView-later r st ls its g
  HasGenuine-later r st (returned ls (err e)) g = tt

  -- One step of a caller, if a catalogue that it is answered is genuine afterwards.
  Move-genuine :
      {s : System} {u : System} (r : Run s) (st : Step fl s u) {x t : Shared} {p q : Pc}
      → Move fl x p t q
      → s.shared ≡ x
      → ((ls : List String) (types : List InstanceType)
          → p ≡ calling ls
          → q ≡ answered ls types
          → IsGenuine (later r st) types)
      → Caches (later r st) x
      → HasGenuine (later r st) p
      → Caches (later r st) t × HasGenuine (later r st) q
  unfolding store
  Move-genuine r st (early_hit ls types h) here fresh c g = (c, c types h)
  Move-genuine r st (early_miss ls) here fresh c g = (c, tt)
  Move-genuine r st (lock ls free) here fresh c g = (c, tt)
  Move-genuine r st (late_hit ls types h) here fresh c g = (c, c types h)
  Move-genuine r st (late_miss ls h) here fresh c g = (c, tt)
  Move-genuine r st (answer_ok ls sts) here fresh c g = (c, fresh ls _ refl refl)
  Move-genuine r st (answer_err ls e) here fresh c g = (c, tt)
  Move-genuine r st (stale_hit ls e types h) here fresh c g = (c, c types h)
  Move-genuine r st (stale_miss ls e h) here fresh c g = (c, tt)
  Move-genuine r st (stored ls types) here fresh c g =
      ((λ others h. subst (IsGenuine (later r st)) (some-injective _ _ h) g), g)
  Move-genuine r st {x} (shown_locked ls types) here fresh c g = (c, (types, x, inr here, g, refl))
  Move-genuine r st {x} (shown_free ls types) here fresh c g = (c, (types, x, inr here, g, refl))
  Move-genuine r st (unlock ls (ok its)) here fresh c g = (c, g)
  Move-genuine r st (unlock ls (err e)) here fresh c g = (c, tt)

  -- What a caller is answered is what the API has answered in this step.
  answered-genuine :
      {s : System} (r : Run s) (i : ℕ) (answer : Result (List ServerType)) {t : Shared} {q : Pc}
      (h : advance fl answer s.shared (s.pc i) ≡ some (t, q)) (ls : List String)
      (types : List InstanceType)
      → s.pc i ≡ calling ls
      → q ≡ answered ls types
      → IsGenuine (later r (run i answer h)) types
  unfolding advance
  answered-genuine {s} r i (ok given) {t} {q} h ls types from to =
      let read : advance fl (ok given) s.shared (calling ls) ≡ some (t, q) =
        subst (λ x. advance fl (ok given) s.shared x ≡ some (t, q)) from h in
      let same : answered ls (map (to_instance_type fl) given) ≡ answered ls types =
        ap (λ (x : Shared × Pc). x.1) (some-injective _ _ read) ∙ to in
      inr (given, inr (ls, from, refl), sym (cc same))
  answered-genuine {s} r i (err e) {t} {q} h ls types from to =
      let read : advance fl (err e) s.shared (calling ls) ≡ some (t, q) =
        subst (λ x. advance fl (err e) s.shared x ≡ some (t, q)) from h in
      absurd (cc (ap (λ (x : Shared × Pc). x.1) (some-injective _ _ read), to))

  AreGenuine : {s : System} → Run s → Type 0
  AreGenuine {s} r = Caches r s.shared × ((i : ℕ) → HasGenuine r (s.pc i))

  genuine-update :
      {s : System} (r : Run s) (pc : ℕ → Pc) (i : ℕ) (p : Pc)
      → HasGenuine r p
      → ((j : ℕ) → HasGenuine r (pc j))
      → (j : ℕ) → HasGenuine r (update pc i p j)
  genuine-update r pc i p g h j = elim (Bool-cases (i == j)) [
    | inl same ↦ rw same g
    | inr other ↦ rw other (h j)
  ]

  Reach-AreGenuine : {s : System} (r : Run s) → AreGenuine r
  unfolding AreGenuine mark
  Reach-AreGenuine begin = ((λ types h. inl h), λ i. tt)
  Reach-AreGenuine (later {s} r (run i answer {m} {p} h)) =
      let (cached, held) = Reach-AreGenuine r in
      let st : Step fl s (record { shared = m; pc = update s.pc i p }) = run i answer h in
      let (caches, at) =
        Move-genuine r st (advance-Move fl answer s.shared m (s.pc i) p h) refl
          (answered-genuine r i answer h)
          (λ types there. IsGenuine-later r st types (cached types there))
          (HasGenuine-later r st (s.pc i) (held i)) in
      (
        caches,
        genuine-update (later r st) s.pc i p at (λ j. HasGenuine-later r st (s.pc j) (held j)),
      )
  Reach-AreGenuine (later {s} r (call i ls h)) =
      let (cached, held) = Reach-AreGenuine r in
      let st = call i ls h in
      (
        λ types there. IsGenuine-later r st types (cached types there),
        genuine-update (later r st) s.pc i (start ls) tt
            (λ j. HasGenuine-later r st (s.pc j) (held j)),
      )
  Reach-AreGenuine (later {s} r (pass d)) =
      let (cached, held) = Reach-AreGenuine r in
      (
        λ types there. IsGenuine-later r (pass d) types (cached types there),
        λ j. HasGenuine-later r (pass d) (s.pc j) (held j),
      )
  Reach-AreGenuine (later {s} r (quarantine t l)) =
      let (cached, held) = Reach-AreGenuine r in
      (
        λ types there. IsGenuine-later r (quarantine t l) types (cached types there),
        λ j. HasGenuine-later r (quarantine t l) (s.pc j) (held j),
      )

  -- However the callers of List interleave, time passes, and marks and answers of the API come in between:
  -- the types that a caller returns are a view, for the locations that it asked for, of one catalogue that
  -- was cached at the start or that the API answered to a caller of the run, with the time and the
  -- quarantine that the callers shared at one moment of it.
  pub list_returns :
      {s : System} (r : Run s) (i : ℕ) (locations : List String) (its : List InstanceType)
      → s.pc i ≡ returned locations (ok its)
      → IsGenuineView r locations its
  unfolding AreGenuine
  list_returns r i locations its h = subst (HasGenuine r) h ((Reach-AreGenuine r).1 i)
