-- ===== src/Tests/Threads.antt =====
-- Two callers of List over an empty cache, and one over a catalogue.
use karpenter_provider_hetzn.Base.{
  ℕ, ◌+◌, ◌≤◌, ◌<◌, ◌≡◌, refl, ◌≢◌, ◌⊎◌, true, false, none, some, List, [], ◌∷◌, arith,
}
use karpenter_provider_hetzn.Base.Int.{}
use karpenter_provider_hetzn.Errors.{errorf, Result, ok, err}
use karpenter_provider_hetzn.Metrics.{record_cache_hit, record_cache_miss, zero_metrics}
use karpenter_provider_hetzn.Hcloud.{ServerType}
use karpenter_provider_hetzn.InstanceType.{InstanceType}
use karpenter_provider_hetzn.InstanceType.Unavailable.{}
use karpenter_provider_hetzn.InstanceType.Catalogue.{}
use karpenter_provider_hetzn.InstanceType.Cache.{Provider, new_provider, fresh_cache, view, list}
use karpenter_provider_hetzn.InstanceType.Cache.Threads.{
  idle, start, waiting, holding, calling, failed, showing, returned, Shared, after_look, System,
  update, init, advance, run, call, Reach, begin, later,
}
use karpenter_provider_hetzn.InstanceType.Cache.Threads.Fetches.{misses}
use karpenter_provider_hetzn.InstanceType.Cache.Threads.Calls.{failures, misses_bound}
use karpenter_provider_hetzn.InstanceType.Cache.Threads.Exclusion.{holds, refresh_exclusive}
use karpenter_provider_hetzn.InstanceType.Cache.Threads.Progress.{
  rank, GoesOn, IsWaiting, list_progress, advance-rank,
}
use karpenter_provider_hetzn.InstanceType.Cache.Threads.Alone.{alone, settled, alone-list}
use karpenter_provider_hetzn.InstanceType.Cache.Threads.Shows.{IsGenuineView, list_returns}
use karpenter_provider_hetzn.InstanceType.Cache.Threads.Serving.{
  is_failing, Runs, stays, goes, list_serves,
}
use karpenter_provider_hetzn.Tests.Fixtures.{floats, catalogue}

abbrev unreadable : Result (List ServerType)
unreadable = err (errorf "unavailable" [])

abbrev before : System
before = init new_provider 10 zero_metrics

abbrev called : System
called = record before { pc = update (update before.pc 0 (start [])) 1 (start []) }

-- Both have missed the cache, and the first has the refresh lock.
abbrev contended : System
contended = record {
  shared = record before.shared { locked = true };
  pc = update (update (update called.pc 0 (waiting [])) 1 (waiting [])) 0 (holding []);
}

contended-Reach : Reach floats new_provider 10 zero_metrics contended
unfolding advance after_look fresh_cache
contended-Reach =
    later
      (later (later (later (later begin (call 0 [] refl)) (call 1 [] refl)) (run 0 unreadable refl))
        (run 1 unreadable refl))
      (run 0 unreadable refl)

-- The first caller calls, and the API fails.
abbrev once_failed : System
once_failed = record {
  shared = record contended.shared { metrics = record_cache_miss zero_metrics };
  pc = update (update contended.pc 0 (calling [])) 0 (failed [] (errorf "unavailable" []));
}

once_failed-Reach : Reach floats new_provider 10 zero_metrics once_failed
unfolding advance after_look fresh_cache
once_failed-Reach = later (later contended-Reach (run 0 unreadable refl)) (run 0 unreadable refl)

misses_bound_example :
    misses once_failed.shared
    ≤ 0 + failures floats new_provider 10 zero_metrics once_failed-Reach + 1
misses_bound_example =
    misses_bound floats new_provider 10 zero_metrics once_failed-Reach (omega arith)

refresh_exclusive_example : ◌≡◌ {A = ℕ} 0 0
refresh_exclusive_example = refresh_exclusive floats contended-Reach 0 0 refl refl

list_progress_example :
    GoesOn floats contended.shared (waiting [])
    ⊎ (IsWaiting floats (waiting [])
        × (j : ℕ) × (holds (contended.pc j) ≡ true)
        × GoesOn floats contended.shared (contended.pc j))
list_progress_example = list_progress floats contended-Reach 1 refl

advance-rank_example : (rank (calling []) < rank (holding [])) × (rank (holding []) ≤ 7)
unfolding advance after_look fresh_cache
advance-rank_example =
    advance-rank floats unreadable contended.shared
      (record contended.shared { metrics = record_cache_miss zero_metrics }) (holding [])
      (calling []) refl

abbrev warm : Shared
warm = record before.shared {
  provider = record new_provider { cached_types = some catalogue; cache_expiry = 5 };
}

-- The catalogue has expired, and the API fails.
alone-list_example :
    alone floats 7 unreadable warm (start [])
    ≡ settled floats [] warm (list floats 10 [] unreadable warm.provider zero_metrics)
alone-list_example = alone-list floats unreadable warm [] refl

abbrev resting : System
resting = record { shared = warm; pc = λ i. idle }

abbrev missed : System
missed = record resting { pc = update (update resting.pc 0 (start [])) 0 (waiting []) }

missed-Runs : Runs floats resting missed
unfolding advance after_look fresh_cache
missed-Runs = goes (goes stays (call 0 [] refl)) (run 0 unreadable refl)

list_serves_example :
    (missed.shared.provider.cached_types ≢ none)
    × ((j : ℕ) → is_failing (missed.pc j) ≡ true → is_failing (resting.pc j) ≡ true)
list_serves_example = list_serves floats missed-Runs (λ e. absurd (cc e))

abbrev fresh : Provider
fresh = record new_provider { cached_types = some catalogue; cache_expiry = 100 }

abbrev shown : List InstanceType
shown = view 10 ("nbg1" ∷ []) fresh catalogue

-- A caller that has asked for one location, and found a fresh catalogue.
abbrev served : System
served = record {
  shared = record {
    provider = fresh;
    clock = 10;
    locked = false;
    metrics = record_cache_hit zero_metrics;
  };
  pc =
      update
        (update (update (λ i. idle) 0 (start ("nbg1" ∷ []))) 0
          (showing false ("nbg1" ∷ []) catalogue))
        0 (returned ("nbg1" ∷ []) (ok shown));
}

served-Reach : Reach floats fresh 10 zero_metrics served
unfolding advance after_look fresh_cache
served-Reach =
    later (later (later begin (call 0 ("nbg1" ∷ []) refl)) (run 0 unreadable refl))
      (run 0 unreadable refl)

list_returns_example : IsGenuineView floats fresh 10 zero_metrics served-Reach ("nbg1" ∷ []) shown
list_returns_example =
    list_returns floats fresh 10 zero_metrics served-Reach 0 ("nbg1" ∷ []) shown refl
