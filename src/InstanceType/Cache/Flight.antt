-- ===== src/InstanceType/Cache/Flight.antt =====
-- Concurrent callers of List. A caller first looks at the cache, with no lock that a refresh holds; if
-- that finds nothing fresh it waits for the refresh lock and goes on as in `list_locked`. The lock makes
-- the second part one step, so that every interleaving of callers is a sequence of such steps.
use karpenter_provider_hetzn.Base.{
  ℕ, ◌+◌, ◌≤◌, ◌<◌, String, ◌≡◌, refl, ◌≢◌, inl, inr, none, some, List, [], ◌∷◌, arith, lt→ltb,
  Option-cases, some_of_ne, All,
}
use karpenter_provider_hetzn.Errors.{Result, ok, err}
use karpenter_provider_hetzn.Metrics.{Metrics}
use karpenter_provider_hetzn.Hcloud.{ServerType}
use karpenter_provider_hetzn.InstanceType.{InstanceType, FloatOps}
use karpenter_provider_hetzn.InstanceType.Unavailable.{}
use karpenter_provider_hetzn.InstanceType.Catalogue.{}
use karpenter_provider_hetzn.InstanceType.Cache.{
  cache_ttl, Provider, fresh_cache, mark, list_locked,
}

data Event : Type 0 where
  -- a caller looks at the cache
  look : ℕ → Event
  -- a caller has the lock
  refresh : ℕ → List String → Result (List ServerType) → Event
  -- MarkUnavailable
  quarantine : ℕ → String → String → Event

-- Whether the holder of the lock calls the API.
unfoldable calls_api : ℕ → Provider → ℕ
calls_api now p = elim (fresh_cache now p) [ some types ↦ 0 | none ↦ 1 ]

module _ (fl : FloatOps) where
  -- The calls of the API in a sequence of steps.
  unfoldable calls : List Event → Provider → Metrics → ℕ
  calls [] p m = 0
  calls (look now ∷ es) p m = calls es p m
  calls (refresh now locations answer ∷ es) p m =
      let (r, p', m') = list_locked fl now locations answer p m in calls_api now p + calls es p' m'
  calls (quarantine now t l ∷ es) p m = calls es (mark now t l p) m

  -- All steps are in the six hours from `start`, and the API answers them.
  abbrev IsInWindow : ℕ → Event → Type 0
  IsInWindow start (look now) = Unit
  IsInWindow start (refresh now locations (ok sts)) = (start ≤ now) × (now < start + cache_ttl)
  IsInWindow start (refresh now locations (err e)) = ⊥
  IsInWindow start (quarantine now t l) = Unit

  -- A catalogue that stays fresh in the window.
  abbrev IsSettled : ℕ → Provider → Type 0
  IsSettled start p = (p.cached_types ≢ none) × (start + cache_ttl ≤ p.cache_expiry)

  fresh_settled :
      (now start : ℕ) (p : Provider)
      → IsSettled start p
      → now < start + cache_ttl
      → (types : List InstanceType) × (fresh_cache now p ≡ some types)
  unfolding fresh_cache
  fresh_settled now start p h lt =
      let (types, cached) = some_of_ne p.cached_types h.0 in
      (types, rw (lt→ltb now p.cache_expiry (omega arith)) cached)

  list_locked_hit :
      (now : ℕ) (locations : List String) (answer : Result (List ServerType)) (p : Provider)
      (m : Metrics) {types : List InstanceType}
      → fresh_cache now p ≡ some types
      → (calls_api now p ≡ 0) × ((list_locked fl now locations answer p m).1 ≡ p)
  unfolding calls_api list_locked
  list_locked_hit now locations answer p m h = rw (h, calls_api, list_locked) (refl, refl)

  list_locked_miss :
      (now start : ℕ) (locations : List String) (sts : List ServerType) (p : Provider) (m : Metrics)
      → fresh_cache now p ≡ none
      → start ≤ now
      → (calls_api now p ≡ 1) × IsSettled start (list_locked fl now locations (ok sts) p m).1
  unfolding calls_api list_locked
  list_locked_miss now start locations sts p m h le =
      rw (h, calls_api, list_locked) (refl, ((λ e. cc), omega arith))

  calls_settled :
      (es : List Event) (start : ℕ) (p : Provider) (m : Metrics)
      → IsSettled start p
      → All (IsInWindow start) es
      → calls es p m ≡ 0
  unfolding calls mark
  calls_settled [] start p m h w = refl
  calls_settled (look now ∷ es) start p m h w = calls_settled es start p m h w.1
  calls_settled (refresh now locations (ok sts) ∷ es) start p m h w =
      let (types, fresh) = fresh_settled now start p h w.0.1 in
      let (none_made, same) = list_locked_hit now locations (ok sts) p m fresh in
      rw (none_made, same)
        (omega
          (arith, calls_settled es start p (list_locked fl now locations (ok sts) p m).2 h w.1))
  calls_settled (refresh now locations (err e) ∷ es) start p m h w = absurd w.0
  calls_settled (quarantine now t l ∷ es) start p m h w =
      calls_settled es start (mark now t l p) m h w.1

  -- However many callers miss the cache in the same six hours, and in whatever order they run: if the API
  -- answers, it is called at most once.
  calls-le-one :
      (es : List Event) (start : ℕ) (p : Provider) (m : Metrics)
      → All (IsInWindow start) es
      → calls es p m ≤ 1
  unfolding calls mark
  calls-le-one [] start p m w = omega arith
  calls-le-one (look now ∷ es) start p m w = calls-le-one es start p m w.1
  calls-le-one (refresh now locations (ok sts) ∷ es) start p m w =
      elim (Option-cases (fresh_cache now p)) [
        | inl stale ↦
            let (one_made, settled) = list_locked_miss now start locations sts p m stale w.0.0 in
            let none_more =
              calls_settled es start (list_locked fl now locations (ok sts) p m).1
                (list_locked fl now locations (ok sts) p m).2 settled w.1 in
            rw (one_made, none_more) (omega arith)
        | inr (types, fresh) ↦
            let (none_made, same) = list_locked_hit now locations (ok sts) p m fresh in
            rw (none_made, same)
              (omega
                (arith, calls-le-one es start p (list_locked fl now locations (ok sts) p m).2 w.1))
      ]
  calls-le-one (refresh now locations (err e) ∷ es) start p m w = absurd w.0
  calls-le-one (quarantine now t l ∷ es) start p m w = calls-le-one es start (mark now t l p) m w.1
