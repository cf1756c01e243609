-- ===== src/InstanceType/Cache/Laws.antt =====
-- When List fails, and that a failing API cannot take the catalogue away.
use karpenter_provider_hetzn.Base.{
  ℕ, ◌<◌, String, ◌≡◌, refl, ◌≢◌, ◌↔◌, none, List, arith, lt→ltb, some_of_ne,
}
use karpenter_provider_hetzn.Errors.{Error, Result, ok, err}
use karpenter_provider_hetzn.Metrics.{Metrics}
use karpenter_provider_hetzn.Hcloud.{ServerType}
use karpenter_provider_hetzn.InstanceType.{FloatOps}
use karpenter_provider_hetzn.InstanceType.Unavailable.{}
use karpenter_provider_hetzn.InstanceType.Catalogue.{}
use karpenter_provider_hetzn.InstanceType.Cache.{Provider, fresh_cache, list}

module _ (fl : FloatOps) (now : ℕ) (locations : List String) where
  -- List fails exactly if the API fails and no catalogue was ever fetched. The error is the API's.
  list-err_iff :
      (answer : Result (List ServerType)) (p : Provider) (m : Metrics) (e : Error)
      → ((list fl now locations answer p m).0 ≡ err e)
        ↔ ((p.cached_types ≡ none) × (answer ≡ err e))
  unfolding list fresh_cache
  list-err_iff (ok sts) p m e = ground arith
  list-err_iff (err d) p m e = ground arith

  -- A failed refresh leaves the provider as it was: the catalogue stays, and so does its expiry, so that
  -- the next call asks the API again.
  pub list_unreadable :
      (p : Provider) (m : Metrics) (e : Error) → (list fl now locations (err e) p m).1 ≡ p
  unfolding list fresh_cache
  list_unreadable p m e = ground arith

  -- While the catalogue is fresh, List does not depend on the API.
  pub list_fresh :
      (answer answer' : Result (List ServerType)) (p : Provider) (m : Metrics)
      → p.cached_types ≢ none
      → now < p.cache_expiry
      → list fl now locations answer p m ≡ list fl now locations answer' p m
  unfolding list fresh_cache
  list_fresh answer answer' p m h lt =
      let (types, cached) = some_of_ne p.cached_types h in
      rw (lt→ltb now p.cache_expiry lt, cached, list) refl
