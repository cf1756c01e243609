-- ===== src/Tests/Selection.antt =====
-- Selection and images at the catalogue of two types.
use mathlib.Core.List.{Permᴰ}
use karpenter_provider_hetzn.Base.{
  String, ◌≤◌, ◌≡◌, refl, sym, ◌∙◌, ◌≢◌, ◌⊎◌, inl, inr, not, ◌&&◌, none, some, [], ◌∷◌, arith,
  eq_iff, any, first, All, Within,
}
use karpenter_provider_hetzn.Base.Int.{pos}
use karpenter_provider_hetzn.Errors.{is_insufficient_capacity, is_node_class_not_ready, ok}
use karpenter_provider_hetzn.Api.{architecture_arm}
use karpenter_provider_hetzn.Api.NodeClass.{
  images_ready_generation, resolved_images_generation, current_resolved_images,
}
use karpenter_provider_hetzn.ImageFamily.{resolve}
use karpenter_provider_hetzn.InstanceType.{Offering, InstanceType}
use karpenter_provider_hetzn.CloudProvider.Image.{
  hcloud_arch_for, find_image, has_resolved_image, resolve_image,
}
use karpenter_provider_hetzn.CloudProvider.Selection.{
  empty_selection, cheapest_offering, consider, select_from, selection_error,
}
use karpenter_provider_hetzn.Tests.Fixtures.{
  offering_at, cx22, cax11, catalogue, node_class_at, node_class, claim, snapshot, catalogue_images,
  scheduling, scheduling-IsLawful,
}
use karpenter_provider_hetzn.CloudProvider.Selection.Laws.{candidate, IsSelected, select_from_lem}
use karpenter_provider_hetzn.CloudProvider.Selection.Price.{
  IsLaunchable, IsEligible, select_from-cheapest,
}
use karpenter_provider_hetzn.CloudProvider.Selection.Reproducible.{
  HasDistinctNames, select_from-perm,
}
use karpenter_provider_hetzn.CloudProvider.Selection.Failure.{
  is_imageless, is_blocked, selection_error_lem,
}
use karpenter_provider_hetzn.CloudProvider.Image.Laws.{IsFor, resolve_image-architecture}

-- The cheaper type has no image, so the other is chosen.
picked :
    (select_from scheduling node_class claim.requirements empty_selection catalogue).best
    ≡ some (cx22, offering_at "nbg1" 4)
unfolding select_from scheduling has_resolved_image hcloud_arch_for current_resolved_images consider
    cheapest_offering
picked = refl

select_from_lem_example :
    (((select_from scheduling node_class claim.requirements empty_selection catalogue).best ≡ none)
      × All (λ i. candidate scheduling node_class claim.requirements i ≡ none) catalogue)
    ⊎ ((it : InstanceType) × (o : Offering) × ((select_from scheduling node_class claim.requirements
            empty_selection catalogue).best
          ≡ some (it, o))
        × IsSelected scheduling node_class claim.requirements catalogue it o)
select_from_lem_example = select_from_lem scheduling node_class claim.requirements catalogue

select_from-cheapest_example :
    Within cx22 catalogue
    × IsEligible scheduling scheduling-IsLawful node_class claim.requirements cx22
    × Within (offering_at "nbg1" 4) cx22.offerings
    × IsLaunchable scheduling scheduling-IsLawful node_class claim.requirements
        (offering_at "nbg1" 4)
    × All
        (λ i.
          IsEligible scheduling scheduling-IsLawful node_class claim.requirements i
          → All
              (λ x.
                IsLaunchable scheduling scheduling-IsLawful node_class claim.requirements x
                → 4 ≤ x.price)
              i.offerings)
        catalogue
select_from-cheapest_example =
    select_from-cheapest scheduling scheduling-IsLawful node_class claim.requirements catalogue cx22
      (offering_at "nbg1" 4) picked

catalogue-distinct : HasDistinctNames catalogue
catalogue-distinct a b (inl h) (inl k) e = sym h ∙ k
catalogue-distinct a b (inl h) (inr (inl k)) e = absurd (ground (arith, eq_iff "cx22" "cax11"))
catalogue-distinct a b (inr (inl h)) (inl k) e = absurd (ground (arith, eq_iff "cax11" "cx22"))
catalogue-distinct a b (inr (inl h)) (inr (inl k)) e = sym h ∙ k
catalogue-distinct a b (inr (inr h)) k e = absurd h
catalogue-distinct a b (inl h) (inr (inr k)) e = absurd k
catalogue-distinct a b (inr (inl h)) (inr (inr k)) e = absurd k

select_from-perm_example :
    (select_from scheduling node_class claim.requirements empty_selection (cx22 ∷ cax11 ∷ [])).best
    ≡ (select_from scheduling node_class claim.requirements empty_selection
        (cax11 ∷ cx22 ∷ [])).best
select_from-perm_example =
    select_from-perm scheduling node_class claim.requirements (cx22 ∷ cax11 ∷ [])
      (cax11 ∷ cx22 ∷ []) catalogue-distinct (Permᴰ.swap refl refl)

-- Of the ARM type alone nothing is selected, for want of an image.
selection_error_lem_example :
    let e =
      selection_error claim node_class
        (select_from scheduling node_class claim.requirements empty_selection (cax11 ∷ [])) in
    (is_node_class_not_ready e ≡ (
      any (is_imageless scheduling node_class claim.requirements) (cax11 ∷ [])
      && not (any (is_blocked scheduling node_class claim.requirements) (cax11 ∷ []))))
    × (is_insufficient_capacity e
        ≡ not (
            any (is_imageless scheduling node_class claim.requirements) (cax11 ∷ [])
            && not (any (is_blocked scheduling node_class claim.requirements) (cax11 ∷ []))))
selection_error_lem_example =
    selection_error_lem scheduling node_class claim.requirements claim (cax11 ∷ [])

-- Without a current image the newest snapshot is resolved.
live :
    resolve_image catalogue_images (node_class_at (pos 1) []) architecture_arm
    ≡ ok (snapshot architecture_arm (pos 22) 2)
unfolding resolve_image find_image first current_resolved_images resolve
live = refl

resolve_image-architecture_example :
    (◌≡◌ {A = String} architecture_arm architecture_arm)
    × IsFor catalogue_images
        (node_class_at (pos 1) [])
        architecture_arm
        (snapshot architecture_arm (pos 22) 2)
resolve_image-architecture_example =
    resolve_image-architecture catalogue_images (node_class_at (pos 1) []) architecture_arm live

superseded : resolved_images_generation (node_class_at (pos 1) []) ≢ pos 2
unfolding resolved_images_generation images_ready_generation
superseded e = absurd (cc e)
