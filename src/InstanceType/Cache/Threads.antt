-- ===== src/InstanceType/Cache/Threads.antt =====
-- List of pkg/providers/instancetype/instancetype.go as its callers run it side by side: a step of a
-- caller is what it does between two points where another may run. A look at the cache and a store hold
-- `mu` throughout and are one step each; `refreshMu` is held from its Lock to the deferred Unlock, also
-- during the call of the API. Each step reads the clock for itself, and time, marks and other callers
-- may come between any two steps.
pub mod Moves
pub mod Exclusion
pub mod Progress
pub mod Alone
pub mod Shows
pub mod Calls
pub mod Fetches
pub mod Stages
pub mod Serving
use karpenter_provider_hetzn.Base.{
  ℕ, ◌+◌, String, ◌≡◌, Bool, true, false, Option, none, some, List, map, ◌==◌, if◌then◌else◌,
}
use karpenter_provider_hetzn.Errors.{Error, Result, ok, err}
use karpenter_provider_hetzn.Metrics.{
  Metrics, record_cache_hit, record_cache_miss, record_cache_stale,
}
use karpenter_provider_hetzn.Hcloud.{ServerType}
use karpenter_provider_hetzn.InstanceType.{InstanceType, FloatOps}
use karpenter_provider_hetzn.InstanceType.Catalogue.{to_instance_type}
use karpenter_provider_hetzn.InstanceType.Cache.{
  Provider, fresh_cache, stale_cache, store, mark, view,
}

-- Where a caller is. `showing` has a catalogue and filters it, with the refresh lock or without.
pub data Pc : Type 0 where
  idle : Pc
  start : List String → Pc
  waiting : List String → Pc
  holding : List String → Pc
  calling : List String → Pc
  failed : List String → Error → Pc
  answered : List String → List InstanceType → Pc
  showing : Bool → List String → List InstanceType → Pc
  releasing : List String → Result (List InstanceType) → Pc
  returned : List String → Result (List InstanceType) → Pc

-- What the callers share; `locked` is refreshMu.
pub record Shared : Type 0 where
  pub provider : Provider
  pub clock : ℕ
  pub locked : Bool
  pub metrics : Metrics

-- A look at the cache: a hit is counted and shown, a miss goes on as given.
unfoldable pub after_look :
    Bool → List String → Shared → Shared × Pc → Option (List InstanceType) → Shared × Pc
after_look held locations s miss none = miss
after_look held locations s miss (some types) =
    (record s { metrics = record_cache_hit s.metrics }, showing held locations types)

unfoldable pub after_stale :
    List String → Error → Shared → Option (List InstanceType × ℕ) → Shared × Pc
after_stale locations e s none = (s, releasing locations (err e))
after_stale locations e s (some (types, age)) =
    (record s { metrics = record_cache_stale s.metrics }, showing true locations types)

-- Callers by number, over what they share.
pub record System : Type 0 where
  pub shared : Shared
  pub pc : ℕ → Pc

abbrev pub update : (ℕ → Pc) → ℕ → Pc → ℕ → Pc
update pc i p j = if i == j then p else pc j

abbrev pub is_resting : Pc → Bool
is_resting idle = true
is_resting (returned locations r) = true
is_resting _ = false

abbrev pub init : Provider → ℕ → Metrics → System
init p now m = record {
  shared = record { provider = p; clock = now; locked = false; metrics = m };
  pc = λ i. idle;
}

module _ (fl : FloatOps) where
  -- The next step of a caller, if it has one. The API answers a call with `answer`.
  unfoldable pub advance : Result (List ServerType) → Shared → Pc → Option (Shared × Pc)
  unfolding fresh_cache stale_cache store view after_look after_stale
  advance answer s idle = none
  advance answer s (start locations) =
      some (after_look false locations s (s, waiting locations) (fresh_cache s.clock s.provider))
  advance answer s (waiting locations) =
      if s.locked then none else some (record s { locked = true }, holding locations)
  advance answer s (holding locations) = some (
      after_look true locations s
        (record s { metrics = record_cache_miss s.metrics }, calling locations)
        (fresh_cache s.clock s.provider))
  advance (ok sts) s (calling locations) =
      some (s, answered locations (map (to_instance_type fl) sts))
  advance (err e) s (calling locations) = some (s, failed locations e)
  advance answer s (failed locations e) =
      some (after_stale locations e s (stale_cache s.clock s.provider))
  advance answer s (answered locations types) =
      some (record s { provider = store s.clock types s.provider }, showing true locations types)
  advance answer s (showing held locations types) =
      let r = ok (view s.clock locations s.provider types) in
      some (s, (if held then releasing locations r else returned locations r))
  advance answer s (releasing locations r) =
      some (record s { locked = false }, returned locations r)
  advance answer s (returned locations r) = none

  pub data Step (s : System) : System → Type 0 where
    -- a caller goes on
    run :
        (i : ℕ) (answer : Result (List ServerType)) {m : Shared} {p : Pc}
        → advance answer s.shared (s.pc i) ≡ some (m, p)
        → Step s (record { shared = m; pc = update s.pc i p })
    -- List is called
    call :
        (i : ℕ) (locations : List String)
        → is_resting (s.pc i) ≡ true
        → Step s (record s { pc = update s.pc i (start locations) })
    -- time passes
    pass : (d : ℕ) → Step s (record s { shared = record s.shared { clock = s.shared.clock + d } })
    -- MarkUnavailable is called
    quarantine :
        (server_type location : String)
        → Step s (record s {
          shared = record s.shared {
            provider = mark s.shared.clock server_type location s.shared.provider;
          };
        })

  pub data Reach (p : Provider) (now : ℕ) (m : Metrics) : System → Type 0 where
    begin : Reach p now m (init p now m)
    later : {s t : System} → Reach p now m s → Step s t → Reach p now m t
