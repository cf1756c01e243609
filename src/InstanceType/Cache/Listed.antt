-- ===== src/InstanceType/Cache/Listed.antt =====
-- What List shows: types that carry their own name, with offerings in the locations that were asked for.
use mathlib.Core.Path.{subst}
use karpenter_provider_hetzn.Base.{
  ℕ, String, ◌≡◌, refl, sym, ap, ◌∙◌, ◌⊎◌, inl, inr, none, some, List, [], map, arith, Option-cases,
  Within,
}
use karpenter_provider_hetzn.Base.Int.{}
use karpenter_provider_hetzn.Base.Text.{}
use karpenter_provider_hetzn.Errors.{Result, ok, err, ok-injective}
use karpenter_provider_hetzn.Metrics.{Metrics, record_cache_miss}
use karpenter_provider_hetzn.Api.{}
use karpenter_provider_hetzn.Hcloud.{ServerType}
use karpenter_provider_hetzn.InstanceType.{InstanceType, FloatOps}
use karpenter_provider_hetzn.InstanceType.Unavailable.{}
use karpenter_provider_hetzn.InstanceType.Catalogue.{to_instance_type}
use karpenter_provider_hetzn.InstanceType.Catalogue.Listed.{
  AreNamed, AreIn, converted-AreNamed, judged-AreNamed, judged-zones, filtered-AreIn,
  filtered-AreNamed,
}
use karpenter_provider_hetzn.InstanceType.Cache.{
  Provider, fresh_cache, stale_cache, view, list_locked, list, fetched,
}

-- The types that are cached, if any, carry their names.
abbrev pub IsNamed : Provider → Type 0
IsNamed p = (types : List InstanceType) → p.cached_types ≡ some types → AreNamed types

module _ (fl : FloatOps) (now : ℕ) (locations : List String) where
  view-AreNamed :
      (p : Provider) (types : List InstanceType)
      → AreNamed types
      → AreNamed (view now locations p types)
  unfolding view
  view-AreNamed p types h =
      judged-AreNamed now p.unavailable _ (filtered-AreNamed types locations h)

  view-AreIn :
      (p : Provider) (types : List InstanceType) → AreIn locations (view now locations p types)
  unfolding view
  view-AreIn p types =
      judged-zones now p.unavailable (λ z. (locations ≡ []) ⊎ Within z locations) _
        (filtered-AreIn types locations)

  -- The catalogue that a listing shows.
  abbrev pub Shows : Result (List ServerType) → Provider → List InstanceType → Type 0
  Shows answer p its =
      (types : List InstanceType) × (its ≡ view now locations p types)
      × ((p.cached_types ≡ some types)
          ⊎ ((sts : List ServerType) × (answer ≡ ok sts) × (types ≡ map (to_instance_type fl) sts)))

  fetched-ok :
      (answer : Result (List ServerType)) (p : Provider) (m : Metrics) (its : List InstanceType)
      → (fetched fl now locations answer p m).0 ≡ ok its
      → Shows answer p its
  unfolding fetched stale_cache
  fetched-ok (ok sts) p m its h = (_, ok-injective (sym h), inr (sts, refl, refl))
  fetched-ok (err e) p m its h = elim (Option-cases p.cached_types) [
    | inl never ↦ absurd (cc (rw (never, fetched) at h))
    | inr (types, cached) ↦ (types, ok-injective (sym (rw (cached, fetched) at h)), inl cached)
  ]

  fresh-cached :
      (p : Provider) (types : List InstanceType)
      → fresh_cache now p ≡ some types
      → p.cached_types ≡ some types
  unfolding fresh_cache
  fresh-cached p types h = ground arith

  list-stale :
      (answer : Result (List ServerType)) (p : Provider) (m : Metrics)
      → fresh_cache now p ≡ none
      → list fl now locations answer p m ≡ fetched fl now locations answer p (record_cache_miss m)
  unfolding list list_locked
  list-stale answer p m stale = rw (stale, list) (rw (stale, list_locked) refl)

  -- List shows the cached catalogue or the one that the API has just answered.
  pub list-ok :
      (answer : Result (List ServerType)) (p : Provider) (m : Metrics) (its : List InstanceType)
      → (list fl now locations answer p m).0 ≡ ok its
      → Shows answer p its
  unfolding list
  list-ok answer p m its h = elim (Option-cases (fresh_cache now p)) [
    | inl stale ↦
        fetched-ok answer p (record_cache_miss m) its
          (ap (λ x. x.0) (sym (list-stale answer p m stale)) ∙ h)
    | inr (types, fresh) ↦
        (types, ok-injective (sym (rw (fresh, list) at h)), inl (fresh-cached p types fresh))
  ]

  -- What List shows carries its names, if the cached types do, and is offered in the locations that were
  -- asked for.
  pub list-listed :
      (answer : Result (List ServerType)) (p : Provider) (m : Metrics) (its : List InstanceType)
      → IsNamed p
      → (list fl now locations answer p m).0 ≡ ok its
      → AreNamed its × AreIn locations its
  list-listed answer p m its named h =
      let (types, shown, origin) = list-ok answer p m its h in
      let types_named : AreNamed types = elim origin [
        | inl cached ↦ named types cached
        | inr (sts, answered, built) ↦ rw built (converted-AreNamed fl sts)
      ] in
      subst (λ x. AreNamed x × AreIn locations x) (sym shown)
        (view-AreNamed p types types_named, view-AreIn p types)
