-- ===== src/CloudProvider/Selection.antt =====
-- The loop of Create in pkg/cloudprovider/cloudprovider.go that selects the instance type, and the error
-- when it selects none.
pub mod Laws
pub mod Reproducible
pub mod Price
pub mod Failure
use karpenter_provider_hetzn.Base.{
  String, Bool, true, false, not, ◌&&◌, ◌||◌, Option, none, some, List, [], ◌∷◌, map, str_eq, ltb,
  ◌==◌, if◌then◌else◌, is_empty, any,
}
use karpenter_provider_hetzn.Base.Order.{str_lt, sort_strings}
use karpenter_provider_hetzn.Errors.{
  Arg, text, Error, errorf, insufficient_capacity, node_class_not_ready,
}
use karpenter_provider_hetzn.Metrics.{Metrics, record_selection_skipped}
use karpenter_provider_hetzn.Api.NodeClass.{HCloudNodeClass}
use karpenter_provider_hetzn.Api.NodeClaim.{NodeSelectorRequirement, NodeClaim}
use karpenter_provider_hetzn.InstanceType.{Offering, InstanceType}
use karpenter_provider_hetzn.CloudProvider.Scheduling.{Scheduling}
use karpenter_provider_hetzn.CloudProvider.Image.{hcloud_arch_for, has_resolved_image}

pub record Selection : Type 0 where
  pub best : Option (InstanceType × Offering)
  -- the set of architectures, each once
  pub archs_missing_images : List String
  pub capacity_blocked : Bool

unfoldable pub insert_set : String → List String → List String
unfolding any
insert_set s set = if any (λ t. str_eq t s) set then set else s ∷ set

-- Whether the offering of a type is preferred to the best so far.
unfoldable pub is_better : InstanceType → Offering → InstanceType → Offering → Bool
is_better it o best_it best =
    ltb o.price best.price || (o.price == best.price && str_lt it.name best_it.name)

unfoldable pub keep_best :
    InstanceType → Offering → Option (InstanceType × Offering) → Option (InstanceType × Offering)
unfolding is_better
keep_best it o none = some (it, o)
keep_best it o (some (b, c)) = if is_better it o b c then some (it, o) else some (b, c)

abbrev pub empty_selection : Selection
empty_selection = record { best = none; archs_missing_images = []; capacity_blocked = false }

module _ (S : Scheduling) (nc : HCloudNodeClass) (reqs : List NodeSelectorRequirement) where
  -- The best offering of the type, if it has one.
  unfoldable pub cheapest_offering : InstanceType → Option Offering
  cheapest_offering it = S.cheapest (S.compatible reqs (S.available it.offerings))

  offered : Option Offering → InstanceType → Selection → Selection
  unfolding keep_best
  offered none it s = record s { capacity_blocked = true }
  offered (some o) it s = record s { best = keep_best it o s.best }

  -- One round of the loop.
  unfoldable pub consider : InstanceType → Selection → Selection
  unfolding offered
  consider it s =
      if not (S.is_compatible reqs it.requirements)
      then s
      else if not (has_resolved_image nc (hcloud_arch_for it))
      then record s {
        archs_missing_images = insert_set (hcloud_arch_for it) s.archs_missing_images;
      }
      else offered (cheapest_offering it) it s

  unfoldable pub select_from : Selection → List InstanceType → Selection
  unfolding consider
  select_from s [] = s
  select_from s (it ∷ its) = select_from (consider it s) its

-- `metrics.RecordSelectionSkipped` for each architecture.
unfoldable pub record_skips : List String → Metrics → Metrics
unfolding record_selection_skipped
record_skips [] m = m
record_skips (arch ∷ archs) m =
    record_skips archs (record_selection_skipped arch "no_resolved_image" m)

arch_args : List String → List Arg
arch_args archs = map (λ a. text a) archs

unfoldable pub selection_error : NodeClaim → HCloudNodeClass → Selection → Error
unfolding arch_args
selection_error claim nc s =
    if not (is_empty s.archs_missing_images) && not s.capacity_blocked
    then node_class_not_ready (
        errorf
          "no instance type satisfies requirements for nodeclaim %s: HCloudNodeClass %q has no resolved image for architecture %s"
          (text claim.name ∷ text nc.name ∷ arch_args (sort_strings s.archs_missing_images)))
    else insufficient_capacity
        (errorf "no instance type satisfies requirements for nodeclaim %s" (text claim.name ∷ []))
