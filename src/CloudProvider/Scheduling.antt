-- ===== src/CloudProvider/Scheduling.antt =====
-- What the provider uses of karpenter's scheduling and cloudprovider packages, and the documented
-- behaviour of these functions.
use karpenter_provider_hetzn.Base.{
  ◌≤◌, ◌≡◌, Bool, Option, none, some, List, [], select, All, Within,
}
use karpenter_provider_hetzn.Api.NodeClaim.{ResourceList, NodeSelectorRequirement}
use karpenter_provider_hetzn.InstanceType.{Offering, TypeRequirements, InstanceType}

pub record Scheduling : Type 0 where
  -- reqs.IsCompatible(it.Requirements, AllowUndefinedWellKnownLabels)
  pub is_compatible : List NodeSelectorRequirement → TypeRequirements → Bool
  -- Offerings.Available, Offerings.Compatible and Offerings.Cheapest
  pub available : List Offering → List Offering
  pub compatible : List NodeSelectorRequirement → List Offering → List Offering
  pub cheapest : List Offering → Option Offering
  -- InstanceType.Allocatable
  pub allocatable : InstanceType → ResourceList

-- Available and Compatible filter the offerings, the latter by a test `fits`, and Cheapest returns an
-- offering of the lowest price, and none only of an empty list.
pub record IsLawful (S : Scheduling) : Type 0 where
  pub fits : List NodeSelectorRequirement → Offering → Bool
  pub available_lem : (os : List Offering) → S.available os ≡ select (λ o. o.available) os
  pub compatible_lem :
      (reqs : List NodeSelectorRequirement) (os : List Offering)
      → S.compatible reqs os ≡ select (fits reqs) os
  pub cheapest-some :
      (os : List Offering) (o : Offering)
      → S.cheapest os ≡ some o
      → Within o os × All (λ x. o.price ≤ x.price) os
  pub cheapest-none : (os : List Offering) → S.cheapest os ≡ none → os ≡ []
