-- ===== src/CloudProvider/Selection/Laws.antt =====
-- The selected type and offering are the best of all candidates.
use mathlib.Core.Path.{subst}
use mathlib.Core.Option.{some-injective}
use karpenter_provider_hetzn.Base.{
  ◌<◌, ◌≡◌, refl, sym, ◌∙◌, ◌⊎◌, inl, inr, true, false, ◌&&◌, Option, none, some, List, [], ◌∷◌,
  arith, if◌then◌else◌, Option-cases, All, Within,
}
use karpenter_provider_hetzn.Base.Order.{str_le}
use karpenter_provider_hetzn.Base.Order.Laws.{str_le_total, str_le_refl, str_le_trans}
use karpenter_provider_hetzn.Api.NodeClass.{HCloudNodeClass}
use karpenter_provider_hetzn.Api.NodeClaim.{NodeSelectorRequirement}
use karpenter_provider_hetzn.InstanceType.{Offering, InstanceType}
use karpenter_provider_hetzn.CloudProvider.Scheduling.{Scheduling}
use karpenter_provider_hetzn.CloudProvider.Image.{hcloud_arch_for, has_resolved_image}
use karpenter_provider_hetzn.CloudProvider.Selection.{
  Selection, is_better, keep_best, empty_selection, cheapest_offering, consider, select_from,
}

-- At a lower price, or at the same price with a name that is not greater.
abbrev pub IsPreferred : InstanceType → Offering → InstanceType → Offering → Type 0
IsPreferred it o it' o' =
    (o.price < o'.price) ⊎ ((o.price ≡ o'.price) × (str_le it.name it'.name ≡ true))

IsPreferred-refl : (it : InstanceType) (o : Offering) → IsPreferred it o it o
IsPreferred-refl it o = inr (refl, str_le_refl it.name)

IsPreferred-trans :
    (a : InstanceType) (o : Offering) (b : InstanceType) (p : Offering) (c : InstanceType)
    (q : Offering)
    → IsPreferred a o b p
    → IsPreferred b p c q
    → IsPreferred a o c q
IsPreferred-trans a o b p c q h k = ground (arith, str_le_trans a.name b.name c.name)

is_better-IsPreferred :
    (it : InstanceType) (o : Offering) (b : InstanceType) (c : Offering)
    → ((is_better it o b c ≡ true) × IsPreferred it o b c)
      ⊎ ((is_better it o b c ≡ false) × IsPreferred b c it o)
unfolding is_better
is_better-IsPreferred it o b c = ground (arith, str_le_total it.name b.name)

module _ (S : Scheduling) (nc : HCloudNodeClass) (reqs : List NodeSelectorRequirement) where
  -- The offering with which a type is a candidate: the type is compatible, there is an image for its
  -- architecture, and it has an available and compatible offering.
  unfoldable pub candidate : InstanceType → Option Offering
  candidate it =
      if S.is_compatible reqs it.requirements && has_resolved_image nc (hcloud_arch_for it)
      then cheapest_offering S nc reqs it
      else none

  add :
      InstanceType
      → Option Offering
      → Option (InstanceType × Offering)
      → Option (InstanceType × Offering)
  add it none best = best
  add it (some o) best = keep_best it o best

  pub best_of :
      Option (InstanceType × Offering) → List InstanceType → Option (InstanceType × Offering)
  best_of best [] = best
  best_of best (it ∷ its) = best_of (add it (candidate it) best) its

  consider-add :
      (it : InstanceType) (s : Selection)
      → (consider S nc reqs it s).best ≡ add it (candidate it) s.best
  unfolding consider candidate add
  consider-add it s = ground arith

  pub select_from-best_of :
      (s : Selection) (its : List InstanceType)
      → (select_from S nc reqs s its).best ≡ best_of s.best its
  unfolding select_from best_of
  select_from-best_of s [] = refl
  select_from-best_of s (it ∷ its) =
      rw (← consider-add it s) (select_from-best_of (consider S nc reqs it s) its)

  abbrev IsBestOf : InstanceType → Offering → List InstanceType → Type 0
  IsBestOf b c = All (λ it. (o : Offering) → candidate it ≡ some o → IsPreferred b c it o)

  -- What the loop makes of its best value so far.
  record Improves (b : InstanceType) (c : Offering) (its : List InstanceType) : Type 0 where
    it : InstanceType
    o : Offering
    result : best_of (some (b, c)) its ≡ some (it, o)
    origin : ((b ≡ it) × (c ≡ o)) ⊎ (Within it its × (candidate it ≡ some o))
    preferred : IsPreferred it o b c
    best : IsBestOf it o its

  -- The offering of a candidate is determined by its type.
  IsPreferred-at :
      (i it : InstanceType) (c o o' : Offering)
      → candidate i ≡ some o
      → candidate i ≡ some o'
      → IsPreferred it c i o
      → IsPreferred it c i o'
  IsPreferred-at i it c o o' e e' h = let same : o ≡ o' = cc in subst (IsPreferred it c i) same h

  origin_of :
      (i : InstanceType) (o : Offering) (its : List InstanceType) (r : Improves i o its)
      → candidate i ≡ some o
      → Within r.it (i ∷ its) × (candidate r.it ≡ some r.o)
  origin_of i o its r present = elim r.origin [
    | inl (same, same') ↦ (inl same, rw (← same, ← same') present)
    | inr (w, e) ↦ (inr w, e)
  ]

  best_of-Improves : (b : InstanceType) (c : Offering) (its : List InstanceType) → Improves b c its
  unfolding best_of add keep_best
  best_of-Improves b c [] = record {
    it = b;
    o = c;
    result = refl;
    origin = inl (refl, refl);
    preferred = IsPreferred-refl b c;
    best = tt;
  }
  best_of-Improves b c (i ∷ its) = elim (Option-cases (candidate i)) [
    | inl absent ↦
        let r = best_of-Improves b c its in
        record {
          it = r.it;
          o = r.o;
          result = rw (absent, add) r.result;
          origin = ground arith;
          preferred = r.preferred;
          best = ((λ o e. absurd (cc (absent, e))), r.best);
        }
    | inr (o, present) ↦ elim (is_better-IsPreferred i o b c) [
      | inl (better, pref) ↦
          let r = best_of-Improves i o its in
          record {
            it = r.it;
            o = r.o;
            result = rw (present, add, better, keep_best) r.result;
            origin = inr (origin_of i o its r present);
            preferred = IsPreferred-trans r.it r.o i o b c r.preferred pref;
            best = ((λ o' e. IsPreferred-at i r.it r.o o o' present e r.preferred), r.best);
          }
      | inr (worse, pref) ↦
          let r = best_of-Improves b c its in
          record {
            it = r.it;
            o = r.o;
            result = rw (present, add, worse, keep_best) r.result;
            origin = ground arith;
            preferred = r.preferred;
            best = (
              (λ o' e.
                  IsPreferred-at i r.it r.o o o' present e
                    (IsPreferred-trans r.it r.o b c i o r.preferred pref)),
              r.best,
            );
          }
    ]
  ]

  -- The result of the loop: a candidate with its best offering, preferred to all candidates.
  pub record IsSelected (its : List InstanceType) (it : InstanceType) (o : Offering) : Type 0 where
    pub listed : Within it its
    pub is_candidate : candidate it ≡ some o
    pub best : All (λ i. (o' : Offering) → candidate i ≡ some o' → IsPreferred it o i o') its

  best_of-none :
      (its : List InstanceType)
      → ((best_of none its ≡ none) × All (λ i. candidate i ≡ none) its)
        ⊎ ((it : InstanceType) × (o : Offering) × (best_of none its ≡ some (it, o))
            × IsSelected its it o)
  unfolding best_of add keep_best
  best_of-none [] = inl (refl, tt)
  best_of-none (i ∷ its) = elim (Option-cases (candidate i)) [
    | inl absent ↦
        rw (absent, add)
          (elim (best_of-none its) [
            | inl (none_there, all_none) ↦ inl (none_there, (refl, all_none))
            | inr (it, o, found, s) ↦ inr (
              it,
              o,
              found,
              record {
                listed = inr s.listed;
                is_candidate = s.is_candidate;
                best = ((λ o' e. absurd (cc (absent, e))), s.best);
              },
            )
          ])
    | inr (o, present) ↦
        let r = best_of-Improves i o its in
        let (w, e) = origin_of i o its r present in
        rw (present, add, keep_best)
          (inr (
            r.it,
            r.o,
            r.result,
            record {
              listed = w;
              is_candidate = e;
              best = ((λ o' e'. IsPreferred-at i r.it r.o o o' present e' r.preferred), r.best);
            },
          ))
  ]

  -- The loop selects nothing exactly if there is no candidate. What it selects is a candidate with its
  -- offering, and every other candidate has a higher price, or the same price and no smaller name.
  pub select_from_lem :
      (its : List InstanceType)
      → (((select_from S nc reqs empty_selection its).best ≡ none)
          × All (λ i. candidate i ≡ none) its)
        ⊎ ((it : InstanceType) × (o : Offering) × ((select_from S nc reqs empty_selection its).best
              ≡ some (it, o))
            × IsSelected its it o)
  select_from_lem its = rw (select_from-best_of empty_selection its) (best_of-none its)

  pub IsSelected-of :
      (its : List InstanceType) (it : InstanceType) (o : Offering)
      → (select_from S nc reqs empty_selection its).best ≡ some (it, o)
      → IsSelected its it o
  IsSelected-of its it o e = elim (select_from_lem its) [
    | inl (nothing, _) ↦ absurd (cc (nothing, e))
    | inr (it', o', found, s) ↦
        let pair : ◌≡◌ {A = InstanceType × Offering} (it', o') (it, o) =
          some-injective _ _ (sym found ∙ e) in
        subst (λ (x : InstanceType × Offering). IsSelected its x.0 x.1) pair s
  ]
