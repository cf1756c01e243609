-- ===== src/InstanceType/Catalogue/Listed.antt =====
-- Listed types carry their names, and are offered in the locations that were asked for.
use karpenter_provider_hetzn.Base.{
  ℕ, String, ◌≡◌, refl, ◌⊎◌, inl, inr, List, [], ◌∷◌, map, str_eq, eq_iff, Bool-cases, is_empty,
  select, All, Within, All-by_Within, All-imp, any_iff,
}
use karpenter_provider_hetzn.Base.Int.{}
use karpenter_provider_hetzn.Base.Text.{}
use karpenter_provider_hetzn.Errors.{}
use karpenter_provider_hetzn.Metrics.{}
use karpenter_provider_hetzn.Api.{}
use karpenter_provider_hetzn.Hcloud.{ServerType}
use karpenter_provider_hetzn.InstanceType.{Offering, InstanceType, FloatOps}
use karpenter_provider_hetzn.InstanceType.Unavailable.{UnavailableCache}
use karpenter_provider_hetzn.InstanceType.Catalogue.{
  filter_by_locations, apply_availability, to_instance_type, in_locations, keep_types,
  with_availability, judge_type,
}
use karpenter_provider_hetzn.InstanceType.Catalogue.Laws.{filter_by_locations_lem}

-- A type carries its name as the requirement of the instance type.
abbrev pub AreNamed : List InstanceType → Type 0
AreNamed its = All (λ it. it.requirements.instance_type ≡ it.name) its

-- No location asks for no location in particular.
abbrev pub AreIn : List String → List InstanceType → Type 0
AreIn locations its =
    All (λ it. All (λ o. (locations ≡ []) ⊎ Within o.zone locations) it.offerings) its

pub converted-AreNamed :
    (fl : FloatOps) (sts : List ServerType) → AreNamed (map (to_instance_type fl) sts)
unfolding to_instance_type
converted-AreNamed fl [] = tt
converted-AreNamed fl (st ∷ sts) = (refl, converted-AreNamed fl sts)

keep_types-AreNamed :
    (locations : List String) (its : List InstanceType)
    → AreNamed its
    → AreNamed (keep_types locations its)
unfolding keep_types
keep_types-AreNamed locations [] h = tt
keep_types-AreNamed locations (it ∷ its) h =
    elim (Bool-cases (is_empty (select (in_locations locations) it.offerings))) [
      | inl without ↦ rw (without, keep_types) (keep_types-AreNamed locations its h.1)
      | inr offered ↦ rw (offered, keep_types) (h.0, keep_types-AreNamed locations its h.1)
    ]

pub judged-AreNamed :
    (now : ℕ) (c : UnavailableCache) (its : List InstanceType)
    → AreNamed its
    → AreNamed (apply_availability now c its)
unfolding apply_availability judge_type
judged-AreNamed now c [] h = tt
judged-AreNamed now c (it ∷ its) h = (h.0, judged-AreNamed now c its h.1)

judged-offerings :
    (now : ℕ) (c : UnavailableCache) (P : String → Type 0) (name : String) (os : List Offering)
    → All (λ o. P o.zone) os
    → All (λ o. P o.zone) (map (with_availability now c name) os)
unfolding with_availability
judged-offerings now c P name [] h = tt
judged-offerings now c P name (o ∷ os) h = (h.0, judged-offerings now c P name os h.1)

-- Availability does not change where a type is offered.
pub judged-zones :
    (now : ℕ) (c : UnavailableCache) (P : String → Type 0) (its : List InstanceType)
    → All (λ it. All (λ o. P o.zone) it.offerings) its
    → All (λ it. All (λ o. P o.zone) it.offerings) (apply_availability now c its)
unfolding apply_availability judge_type
judged-zones now c P [] h = tt
judged-zones now c P (it ∷ its) h =
    (judged-offerings now c P it.name it.offerings h.0, judged-zones now c P its h.1)

all_offerings : (its : List InstanceType) → AreIn [] its
all_offerings [] = tt
all_offerings (it ∷ its) = (All-by_Within _ it.offerings (λ o w. inl refl), all_offerings its)

pub filtered-AreIn :
    (its : List InstanceType) (locations : List String)
    → AreIn locations (filter_by_locations its locations)
unfolding filter_by_locations
filtered-AreIn its [] = all_offerings its
filtered-AreIn its (l ∷ ls) =
    All-imp _ _ (filter_by_locations its (l ∷ ls))
      (λ it h.
        All-imp _ _ it.offerings
          (λ o e. inr ((any_iff (λ x. str_eq x o.zone) o.zone (λ x. eq_iff x o.zone) (l ∷ ls)).0 e))
          h.1)
      (filter_by_locations_lem its (l ∷ ls) refl).0

pub filtered-AreNamed :
    (its : List InstanceType) (locations : List String)
    → AreNamed its
    → AreNamed (filter_by_locations its locations)
unfolding filter_by_locations
filtered-AreNamed its [] h = h
filtered-AreNamed its (l ∷ ls) h = keep_types-AreNamed (l ∷ ls) its h
