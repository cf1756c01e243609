-- ===== src/CloudProvider/Selection/Failure.antt =====
-- Which error Create reports when it selects nothing.
use karpenter_provider_hetzn.Base.{
  String, ◌≡◌, refl, Bool, false, not, ◌&&◌, ◌||◌, List, [], ◌∷◌, arith, is_none, is_empty, any,
}
use karpenter_provider_hetzn.Errors.{is_insufficient_capacity, is_node_class_not_ready}
use karpenter_provider_hetzn.Metrics.{}
use karpenter_provider_hetzn.Api.NodeClass.{HCloudNodeClass}
use karpenter_provider_hetzn.Api.NodeClaim.{NodeSelectorRequirement, NodeClaim}
use karpenter_provider_hetzn.InstanceType.{InstanceType}
use karpenter_provider_hetzn.CloudProvider.Scheduling.{Scheduling}
use karpenter_provider_hetzn.CloudProvider.Image.{hcloud_arch_for, has_resolved_image}
use karpenter_provider_hetzn.CloudProvider.Selection.{
  Selection, empty_selection, cheapest_offering, consider, select_from, selection_error, insert_set,
}

module _ (S : Scheduling) (nc : HCloudNodeClass) (reqs : List NodeSelectorRequirement) where
  -- A compatible type without an image for its architecture.
  abbrev pub is_imageless : InstanceType → Bool
  is_imageless it =
      S.is_compatible reqs it.requirements && not (has_resolved_image nc (hcloud_arch_for it))

  -- A compatible type with an image and no offering.
  abbrev pub is_blocked : InstanceType → Bool
  is_blocked it =
      S.is_compatible reqs it.requirements
      && (has_resolved_image nc (hcloud_arch_for it) && is_none (cheapest_offering S nc reqs it))

  insert_set-ne : (s : String) (set : List String) → is_empty (insert_set s set) ≡ false
  unfolding insert_set any
  insert_set-ne s [] = refl
  insert_set-ne s (t ∷ set) = ground arith

  consider-flags :
      (it : InstanceType) (s : Selection)
      → (not (is_empty (consider S nc reqs it s).archs_missing_images)
          ≡ (is_imageless it || not (is_empty s.archs_missing_images)))
        × ((consider S nc reqs it s).capacity_blocked ≡ (is_blocked it || s.capacity_blocked))
  unfolding consider
  consider-flags it s = ground (arith, insert_set-ne (hcloud_arch_for it) s.archs_missing_images)

  select_from-flags :
      (s : Selection) (its : List InstanceType)
      → (not (is_empty (select_from S nc reqs s its).archs_missing_images)
          ≡ (any is_imageless its || not (is_empty s.archs_missing_images)))
        × ((select_from S nc reqs s its).capacity_blocked
            ≡ (any is_blocked its || s.capacity_blocked))
  unfolding select_from any
  select_from-flags s [] = (refl, refl)
  select_from-flags s (it ∷ its) =
      let (missing, blocked) = consider-flags it s in
      let (missing', blocked') = select_from-flags (consider S nc reqs it s) its in
      (ground arith, ground arith)

  -- The failure is put down to the NodeClass exactly if some compatible type has no image, and none with
  -- an image lacks an offering. Every other failure is a lack of capacity.
  pub selection_error_lem :
      (claim : NodeClaim) (its : List InstanceType)
      → let e = selection_error claim nc (select_from S nc reqs empty_selection its) in
        (is_node_class_not_ready e ≡ (any is_imageless its && not (any is_blocked its)))
        × (is_insufficient_capacity e ≡ not (any is_imageless its && not (any is_blocked its)))
  unfolding selection_error is_node_class_not_ready is_insufficient_capacity
  selection_error_lem claim its =
      let (missing, blocked) = select_from-flags empty_selection its in (ground arith, ground arith)
