-- ===== src/Instance/Lifecycle/Groups.antt =====
-- The placement group of a node pool over several launches.
use karpenter_provider_hetzn.Effects.{rewrap, then_run}
use karpenter_provider_hetzn.Base.{
  String, ◌≡◌, refl, sym, ap, ◌∙◌, Option, none, some, List, [], ◌∷◌,
}
use karpenter_provider_hetzn.Base.Int.{ℤ}
use karpenter_provider_hetzn.Errors.{Error, wrapf, Result, ok, err, ok-injective}
use karpenter_provider_hetzn.Instance.{PlacementGroupClient}
use karpenter_provider_hetzn.Instance.Lifecycle.{get_or_create_placement_group, first_or_create}

-- `first_group name w`: the spread group of this name that the API lists first. Listing changes no group,
-- and a group that is created where there was none is the first one.
pub record KeepsGroups {W : Type 0} (pg : PlacementGroupClient W) : Type 0 where
  pub first_group : String → W → Option ℤ
  pub listed_none :
      (name : String) (w v : W)
      → pg.all_with_opts name w ≡ (ok [], v)
      → (first_group name w ≡ none) × (first_group name v ≡ none)
  pub listed_first :
      (name : String) (w v : W) (id : ℤ) (ids : List ℤ)
      → pg.all_with_opts name w ≡ (ok (id ∷ ids), v)
      → (first_group name w ≡ some id) × (first_group name v ≡ some id)
  pub created :
      (name : String) (w v : W) (id : ℤ)
      → pg.create name w ≡ (ok id, v)
      → first_group name w ≡ none
      → first_group name v ≡ some id

module _ {W : Type 0} (pg : PlacementGroupClient W) (k : KeepsGroups pg) (name : String) where
  unwrapped :
      {A : Type 0} (f : Error → Error) (r : Result A × W) (a : A) (v : W)
      → rewrap f r ≡ (ok a, v)
      → r ≡ (ok a, v)
  unwrapped f (ok b, u) a v h = h
  unwrapped f (err e, u) a v h = absurd (cc (ap (λ x. x.0) h))

  -- The group that was answered is the first from then on.
  first-after :
      (w v : W) (id : ℤ)
      → get_or_create_placement_group pg name w ≡ (ok id, v)
      → k.first_group name v ≡ some id
  unfolding get_or_create_placement_group first_or_create
  first-after w v id = go (pg.all_with_opts name w) refl
    where
      go :
          (r : Result (List ℤ) × W)
          → pg.all_with_opts name w ≡ r
          → then_run (rewrap (wrapf "listing placement groups: %w" []) r) (first_or_create pg name)
            ≡ (ok id, v)
          → k.first_group name v ≡ some id
      go (ok [], u) e h =
          k.created name u v id (unwrapped _ (pg.create name u) id v h) (k.listed_none name w u e).1
      go (ok (i ∷ ids), u) e h =
          ap (k.first_group name) (sym (ap (λ x. x.1) h))
          ∙ (k.listed_first name w u i ids e).1
          ∙ ap (λ j. some j) (ok-injective (ap (λ x. x.0) h))
      go (err d, u) e h = absurd (cc (ap (λ x. x.0) h))

  -- If the API keeps the group that is listed first, and lists it: getOrCreatePlacementGroup gives a later
  -- launch of the same name the group that it gave the earlier one, and creates no other.
  pub placement_group-reused :
      (w v later t : W) (id : ℤ) (ids : List ℤ)
      → get_or_create_placement_group pg name w ≡ (ok id, v)
      → k.first_group name later ≡ k.first_group name v
      → pg.all_with_opts name later ≡ (ok ids, t)
      → get_or_create_placement_group pg name later ≡ (ok id, t)
  unfolding get_or_create_placement_group first_or_create
  placement_group-reused w v later t id ids earlier kept listing =
      rw (listing, get_or_create_placement_group) (go ids listing)
    where
      there : k.first_group name later ≡ some id
      there = kept ∙ first-after w v id earlier

      go :
          (js : List ℤ)
          → pg.all_with_opts name later ≡ (ok js, t)
          → first_or_create pg name js t ≡ (ok id, t)
      go [] e = absurd (cc ((k.listed_none name later t e).0, there))
      go (i ∷ js) e =
          let same : i ≡ id = cc ((k.listed_first name later t i js e).0, there) in
          ap (λ j. (ok j, t)) same
