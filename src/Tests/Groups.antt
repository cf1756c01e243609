-- ===== src/Tests/Groups.antt =====
-- Two launches of one node pool, where the API knows one name.
use karpenter_provider_hetzn.Base.{◌≡◌, refl, ap, Option, none, some, List, [], ◌∷◌}
use karpenter_provider_hetzn.Base.Int.{ℤ, pos}
use karpenter_provider_hetzn.Errors.{ok, ok-injective}
use karpenter_provider_hetzn.Effects.{}
use karpenter_provider_hetzn.Instance.{PlacementGroupClient}
use karpenter_provider_hetzn.Instance.Lifecycle.{get_or_create_placement_group}
use karpenter_provider_hetzn.Instance.Lifecycle.Groups.{KeepsGroups, placement_group-reused}

abbrev groups : Option ℤ → List ℤ
groups none = []
groups (some id) = id ∷ []

-- The one group, if it is there.
abbrev group_client : PlacementGroupClient (Option ℤ)
group_client = record {
  all_with_opts = λ name w. (ok (groups w), w);
  create = λ name w. (ok (pos 7), some (pos 7));
}

groups-none :
    (w v : Option ℤ)
    → group_client.all_with_opts "karpenter-prod" w ≡ (ok [], v)
    → (w ≡ none) × (v ≡ none)
groups-none none v h = (refl, cc (ap (λ x. x.1) h))
groups-none (some i) v h = absurd (cc (ok-injective (ap (λ x. x.0) h)))

groups-first :
    (w v : Option ℤ) (id : ℤ) (ids : List ℤ)
    → group_client.all_with_opts "karpenter-prod" w ≡ (ok (id ∷ ids), v)
    → (w ≡ some id) × (v ≡ some id)
groups-first none v id ids h = absurd (cc (ok-injective (ap (λ x. x.0) h)))
groups-first (some i) v id ids h =
    let same : some i ≡ v = ap (λ x. x.1) h in
    let listed : i ∷ [] ≡ id ∷ ids = ok-injective (ap (λ x. x.0) h) in
    (cc listed, cc (same, listed))

group_client-KeepsGroups : KeepsGroups group_client
group_client-KeepsGroups = record {
  first_group = λ name w. w;
  listed_none = λ name w v h. groups-none w v h;
  listed_first = λ name w v id ids h. groups-first w v id ids h;
  created = λ name w v id h before.
      let left : some (pos 7) ≡ v = ap (λ x. x.1) h in
      let given : pos 7 ≡ id = ok-injective (ap (λ x. x.0) h) in cc (left, given);
}

first_launch :
    get_or_create_placement_group group_client "karpenter-prod" none ≡ (ok (pos 7), some (pos 7))
unfolding get_or_create_placement_group
first_launch = refl

placement_group-reused_example :
    get_or_create_placement_group group_client "karpenter-prod" (some (pos 7))
    ≡ (ok (pos 7), some (pos 7))
placement_group-reused_example =
    placement_group-reused group_client group_client-KeepsGroups "karpenter-prod" none
      (some (pos 7)) (some (pos 7)) (some (pos 7)) (pos 7) (pos 7 ∷ []) first_launch refl refl
