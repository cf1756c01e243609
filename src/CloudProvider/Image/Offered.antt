-- ===== src/CloudProvider/Image/Offered.antt =====
-- What GetInstanceTypes shows as available, and what Create selects from.
use karpenter_provider_hetzn.Base.{
  ◌≡◌, refl, sym, ap, ◌∙◌, inl, inr, Bool, true, false, not, ◌&&◌, none, some, List, [], ◌∷◌, map,
  arith, Bool-cases, Option-cases, is_none, is_empty, select, any, All, Within,
}
use karpenter_provider_hetzn.Base.Int.{}
use karpenter_provider_hetzn.Api.NodeClass.{HCloudNodeClass}
use karpenter_provider_hetzn.Api.NodeClaim.{NodeSelectorRequirement}
use karpenter_provider_hetzn.InstanceType.{Offering, InstanceType}
use karpenter_provider_hetzn.CloudProvider.Scheduling.{Scheduling, IsLawful}
use karpenter_provider_hetzn.CloudProvider.Image.{
  hcloud_arch_for, has_resolved_image, mark_imageless_arches_unavailable, withdraw, mark_type,
}
use karpenter_provider_hetzn.CloudProvider.Selection.{
  empty_selection, cheapest_offering, select_from,
}
use karpenter_provider_hetzn.CloudProvider.Selection.Laws.{candidate, select_from_lem}

module _ (S : Scheduling) (L : IsLawful S) (nc : HCloudNodeClass)
    (reqs : List NodeSelectorRequirement) where
  -- Core may launch a NodeClaim with these requirements on the type as it is shown: the type is compatible
  -- and has an offering that is available and fits.
  abbrev pub is_offered : InstanceType → Bool
  is_offered it =
      S.is_compatible reqs it.requirements && any (λ o. o.available && L.fits reqs o) it.offerings

  is_empty-select_twice :
      (p q : Offering → Bool) (os : List Offering)
      → is_empty (select p (select q os)) ≡ not (any (λ o. q o && p o) os)
  unfolding select any
  is_empty-select_twice p q [] = refl
  is_empty-select_twice p q (o ∷ os) = elim (Bool-cases (q o)) [
    | inl e ↦ elim (Bool-cases (p o)) [
      | inl f ↦ rw (e, f) refl
      | inr f ↦ rw (e, f) (is_empty-select_twice p q os)
    ]
    | inr e ↦ rw e (is_empty-select_twice p q os)
  ]

  is_none-cheapest : (os : List Offering) → is_none (S.cheapest os) ≡ is_empty os
  is_none-cheapest os = elim (Option-cases (S.cheapest os)) [
    | inl nothing ↦ rw (nothing, L.cheapest-none os nothing) refl
    | inr (o, found) ↦ rw found (go o os (L.cheapest-some os o found).0)
  ]
    where
      go : (o : Offering) (xs : List Offering) → Within o xs → false ≡ is_empty xs
      go o [] w = absurd w
      go o (x ∷ xs) w = refl

  is_none-cheapest_offering :
      (it : InstanceType)
      → is_none (cheapest_offering S nc reqs it)
        ≡ not (any (λ o. o.available && L.fits reqs o) it.offerings)
  unfolding cheapest_offering
  is_none-cheapest_offering it =
      is_none-cheapest (S.compatible reqs (S.available it.offerings))
      ∙ ap is_empty (
          L.compatible_lem reqs (S.available it.offerings)
          ∙ ap (select (L.fits reqs)) (L.available_lem it.offerings))
      ∙ is_empty-select_twice (L.fits reqs) (λ o. o.available) it.offerings

  withdrawn :
      (os : List Offering) → any (λ o. o.available && L.fits reqs o) (map withdraw os) ≡ false
  unfolding any withdraw
  withdrawn [] = refl
  withdrawn (o ∷ os) = withdrawn os

  -- A type is a candidate for Create exactly if it is offered as GetInstanceTypes shows it.
  candidate-offered :
      (it : InstanceType) → is_none (candidate S nc reqs it) ≡ not (is_offered (mark_type nc it))
  unfolding candidate mark_type withdraw
  candidate-offered it = elim (Bool-cases (has_resolved_image nc (hcloud_arch_for it))) [
    | inl kept ↦ elim (Bool-cases (S.is_compatible reqs it.requirements)) [
      | inl fit ↦ rw (kept, fit, mark_type, candidate) (is_none-cheapest_offering it)
      | inr unfit ↦ rw (kept, unfit, mark_type, candidate) refl
    ]
    | inr dropped ↦ elim (Bool-cases (S.is_compatible reqs it.requirements)) [
      | inl fit ↦ rw (dropped, fit, mark_type, candidate) (ap not (sym (withdrawn it.offerings)))
      | inr unfit ↦ rw (dropped, unfit, mark_type, candidate) refl
    ]
  ]

  none_offered :
      (its : List InstanceType)
      → All (λ i. candidate S nc reqs i ≡ none) its
      → any is_offered (mark_imageless_arches_unavailable its nc) ≡ false
  unfolding any mark_imageless_arches_unavailable
  none_offered [] h = refl
  none_offered (it ∷ its) h =
      let off : true ≡ not (is_offered (mark_type nc it)) =
        ap is_none (sym h.0) ∙ candidate-offered it in
      let rest = none_offered its h.1 in ground arith

  some_offered :
      (its : List InstanceType) (it : InstanceType) (o : Offering)
      → Within it its
      → candidate S nc reqs it ≡ some o
      → any is_offered (mark_imageless_arches_unavailable its nc) ≡ true
  unfolding any mark_imageless_arches_unavailable
  some_offered [] it o w h = absurd w
  some_offered (i ∷ its) it o (inl e) h =
      let on : false ≡ not (is_offered (mark_type nc i)) =
        ap is_none (sym (ap (candidate S nc reqs) e ∙ h)) ∙ candidate-offered i in
      ground arith
  some_offered (i ∷ its) it o (inr w) h = let rest = some_offered its it o w h in ground arith

  -- Nothing is selected from a listing exactly if nothing of it is offered as it is shown.
  pub select_from-offered :
      (its : List InstanceType)
      → is_none (select_from S nc reqs empty_selection its).best
        ≡ not (any is_offered (mark_imageless_arches_unavailable its nc))
  select_from-offered its = elim (select_from_lem S nc reqs its) [
    | inl (nothing, absent) ↦ rw (nothing, none_offered its absent) refl
    | inr (it, o, found, s) ↦ rw (found, some_offered its it o s.listed s.is_candidate) refl
  ]
