-- ===== src/InstanceType/Cache.antt =====
-- pkg/providers/instancetype/instancetype.go: List with its cache. The answer of the hcloud API to the
-- call that List makes, if it makes one, is the parameter `answer`.
pub mod Laws
pub mod Flight
pub mod Listed
pub mod Threads
use karpenter_provider_hetzn.Base.{
  ℕ, ◌+◌, ◌-◌, ◌*◌, String, Option, none, some, List, [], map, ltb, if◌then◌else◌,
}
use karpenter_provider_hetzn.Errors.{Result, ok, err}
use karpenter_provider_hetzn.Metrics.{
  Metrics, record_cache_hit, record_cache_miss, record_cache_stale,
}
use karpenter_provider_hetzn.Hcloud.{ServerType}
use karpenter_provider_hetzn.InstanceType.{InstanceType, FloatOps}
use karpenter_provider_hetzn.InstanceType.Unavailable.{UnavailableCache, mark_unavailable}
use karpenter_provider_hetzn.InstanceType.Catalogue.{
  filter_by_locations, apply_availability, to_instance_type,
}

-- six hours, in nanoseconds
abbrev pub cache_ttl : ℕ
cache_ttl = 6 * 3600 * 1000000000

-- Provider. A catalogue that was never fetched is `none`; the two times are meaningful with it.
pub record Provider : Type 0 where
  pub cached_types : Option (List InstanceType)
  pub cached_at : ℕ
  pub cache_expiry : ℕ
  pub unavailable : UnavailableCache

-- NewProvider, with the five minutes of quarantine.
abbrev pub new_provider : Provider
new_provider = record {
  cached_types = none;
  cached_at = 0;
  cache_expiry = 0;
  unavailable = record { ttl = 5 * 60 * 1000000000; items = [] };
}

unfoldable pub fresh_cache : ℕ → Provider → Option (List InstanceType)
fresh_cache now p = if ltb now p.cache_expiry then p.cached_types else none

-- The catalogue, and its age.
unfoldable pub stale_cache : ℕ → Provider → Option (List InstanceType × ℕ)
stale_cache now p = elim p.cached_types [
  | none ↦ none
  | some types ↦ some (types, now - p.cached_at)
]

unfoldable pub store : ℕ → List InstanceType → Provider → Provider
store now types p = record p {
  cached_types = some types;
  cached_at = now;
  cache_expiry = now + cache_ttl;
}

unfoldable pub mark : ℕ → String → String → Provider → Provider
unfolding mark_unavailable
mark now server_type location p = record p {
  unavailable = mark_unavailable now server_type location p.unavailable;
}

-- What List returns from a catalogue.
unfoldable pub view : ℕ → List String → Provider → List InstanceType → List InstanceType
unfolding apply_availability filter_by_locations
view now locations p types =
    apply_availability now p.unavailable (filter_by_locations types locations)

abbrev pub Outcome : Type 0
Outcome = Result (List InstanceType) × Provider × Metrics

module _ (fl : FloatOps) (now : ℕ) (locations : List String) where
  -- The API was called.
  fetched : Result (List ServerType) → Provider → Metrics → Outcome
  unfolding store stale_cache
  fetched (err e) p m = elim (stale_cache now p) [
    | some (types, age) ↦ (ok (view now locations p types), p, record_cache_stale m)
    | none ↦ (err e, p, m)
  ]
  fetched (ok server_types) p m =
      let types = map (to_instance_type fl) server_types in
      (ok (view now locations p types), store now types p, m)

  -- List from the point where it holds the refresh lock.
  unfoldable pub list_locked : Result (List ServerType) → Provider → Metrics → Outcome
  unfolding fetched
  list_locked answer p m = elim (fresh_cache now p) [
    | some types ↦ (ok (view now locations p types), p, record_cache_hit m)
    | none ↦ fetched answer p (record_cache_miss m)
  ]

  unfoldable pub list : Result (List ServerType) → Provider → Metrics → Outcome
  unfolding list_locked
  list answer p m = elim (fresh_cache now p) [
    | some types ↦ (ok (view now locations p types), p, record_cache_hit m)
    | none ↦ list_locked answer p m
  ]
