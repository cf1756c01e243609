-- ===== src/CloudProvider/Selection/Reproducible.antt =====
-- The selection does not depend on the order of the catalogue.
use mathlib.Core.Path.{subst}
use mathlib.Core.List.{Permᴰ}
use mathlib.Core.List.Permᴰ
use karpenter_provider_hetzn.Base.{
  ◌≡◌, sym, ap, ◌∙◌, inl, inr, some, List, arith, All, Within, All-of_Within,
}
use karpenter_provider_hetzn.Base.Order.Laws.{str_le_antisymm}
use karpenter_provider_hetzn.Api.NodeClass.{HCloudNodeClass}
use karpenter_provider_hetzn.Api.NodeClaim.{NodeSelectorRequirement}
use karpenter_provider_hetzn.InstanceType.{Offering, InstanceType}
use karpenter_provider_hetzn.CloudProvider.Scheduling.{Scheduling}
use karpenter_provider_hetzn.CloudProvider.Selection.{empty_selection, select_from}
use karpenter_provider_hetzn.CloudProvider.Selection.Laws.{
  IsPreferred, candidate, IsSelected, select_from_lem,
}

Within-perm : {A : Type 0} {xs ys : List A} (a : A) → Permᴰ xs ys → Within a xs → Within a ys
Within-perm a Permᴰ.nil w = w
Within-perm a (Permᴰ.cons e p) (inl same) = inl (sym e ∙ same)
Within-perm a (Permᴰ.cons e p) (inr w) = inr (Within-perm a p w)
Within-perm a (Permᴰ.swap e f) (inl same) = inr (inl (sym e ∙ same))
Within-perm a (Permᴰ.swap e f) (inr (inl same)) = inl (sym f ∙ same)
Within-perm a (Permᴰ.swap e f) (inr (inr w)) = inr (inr w)
Within-perm a (Permᴰ.trans p q) w = Within-perm a q (Within-perm a p w)

All-perm {κ} : {A : Type 0} {xs ys : List A} (P : A → Type κ) → Permᴰ xs ys → All P xs → All P ys
All-perm P Permᴰ.nil h = h
All-perm P (Permᴰ.cons e p) h = (subst P e h.0, All-perm P p h.1)
All-perm P (Permᴰ.swap e f) h = (subst P f h.1.0, (subst P e h.0, h.1.1))
All-perm P (Permᴰ.trans p q) h = All-perm P q (All-perm P p h)

-- No two types of the catalogue share a name.
abbrev pub HasDistinctNames : List InstanceType → Type 0
HasDistinctNames its = (a b : InstanceType) → Within a its → Within b its → a.name ≡ b.name → a ≡ b

module _ (S : Scheduling) (nc : HCloudNodeClass) (reqs : List NodeSelectorRequirement) where
  IsPreferred-antisymm :
      (a : InstanceType) (o : Offering) (b : InstanceType) (p : Offering)
      → IsPreferred a o b p
      → IsPreferred b p a o
      → a.name ≡ b.name
  IsPreferred-antisymm a o b p h k = ground (arith, str_le_antisymm a.name b.name)

  best_unique :
      (its its' : List InstanceType) (a : InstanceType) (o : Offering) (b : InstanceType)
      (p : Offering)
      → HasDistinctNames its
      → Permᴰ its its'
      → IsSelected S nc reqs its a o
      → IsSelected S nc reqs its' b p
      → (a ≡ b) × (o ≡ p)
  best_unique its its' a o b p distinct π s t =
      let b_listed = Within-perm b (Permᴰ.symm π) t.listed in
      let a_first : IsPreferred a o b p = All-of_Within _ b its b_listed s.best p t.is_candidate in
      let b_first : IsPreferred b p a o =
        All-of_Within _ a its' (Within-perm a π s.listed) t.best o s.is_candidate in
      let same : a ≡ b =
        distinct a b s.listed b_listed (IsPreferred-antisymm a o b p a_first b_first) in
      let offered : some o ≡ some p =
        sym s.is_candidate ∙ (ap (candidate S nc reqs) same ∙ t.is_candidate) in
      (same, cc)

  -- From the same types with distinct names, in any order, the same type and the same offering are selected.
  pub select_from-perm :
      (its its' : List InstanceType)
      → HasDistinctNames its
      → Permᴰ its its'
      → (select_from S nc reqs empty_selection its).best
        ≡ (select_from S nc reqs empty_selection its').best
  select_from-perm its its' distinct π = elim (select_from_lem S nc reqs its) [
    | inl (nothing, all_none) ↦ elim (select_from_lem S nc reqs its') [
      | inl (nothing', _) ↦ nothing ∙ sym nothing'
      | inr (it, o, found, s) ↦
          absurd (cc (All-of_Within _ it its' s.listed (All-perm _ π all_none), s.is_candidate))
    ]
    | inr (it, o, found, s) ↦ elim (select_from_lem S nc reqs its') [
      | inl (nothing, all_none) ↦ absurd (
          cc (All-of_Within _ it its s.listed (All-perm _ (Permᴰ.symm π) all_none), s.is_candidate))
      | inr (it', o', found', s') ↦
          let (same, same') = best_unique its its' it o it' o' distinct π s s' in
          cc (found, found', same, same')
    ]
  ]
