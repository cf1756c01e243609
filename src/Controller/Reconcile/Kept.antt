-- ===== src/Controller/Reconcile/Kept.antt =====
-- What the conditions that Reconcile sets leave as it was.
use karpenter_provider_hetzn.Base.{
  String, ◌≡◌, refl, sym, ◌∙◌, ◌≢◌, ◌↔◌, inl, inr, Bool, true, false, not, Option, some, List, [],
  ◌∷◌, str_eq, if◌then◌else◌, Bool-cases, Option-cases, is_empty,
}
use karpenter_provider_hetzn.Base.Int.{ℤ, eq_ℤ, eq_ℤ_iff}
use karpenter_provider_hetzn.Api.NodeClass.{
  ResolvedImage, ConditionStatus, condition_true, condition_false, condition_unknown,
  HCloudNodeClass, condition_type_images_ready, resolved_images_generation, current_resolved_images,
}
use karpenter_provider_hetzn.Errors.{Error}
use karpenter_provider_hetzn.Controller.{
  SetCondition, condition_ready, condition_status, has_condition, IsSetCondition, Sets,
}
use karpenter_provider_hetzn.Controller.Images.{Merged, with_images, drop_superseded}
use karpenter_provider_hetzn.Controller.Images.Laws.{images_status}

-- What the conditions that are set before the images leave alone.
pub record Kept (a b : HCloudNodeClass) : Type 0 where
  pub spec : b.spec ≡ a.spec
  pub generation : b.generation ≡ a.generation
  pub images : b.status.resolved_images ≡ a.status.resolved_images
  pub stamp : resolved_images_generation b ≡ (
      if has_condition condition_type_images_ready a
      then resolved_images_generation a
      else a.generation)
  pub present :
      has_condition condition_type_images_ready a ≡ true
      → has_condition condition_type_images_ready b ≡ true

stamp_trans :
    (p q : Bool) (x y z g h : ℤ)
    → (p ≡ true → q ≡ true)
    → y ≡ (if p then x else g)
    → z ≡ (if q then y else h)
    → h ≡ g
    → z ≡ (if p then x else g)
stamp_trans true true x y z g h k e d same = d ∙ e
stamp_trans true false x y z g h k e d same = absurd (cc (k refl))
stamp_trans false true x y z g h k e d same = d ∙ e
stamp_trans false false x y z g h k e d same = d ∙ same

pub Kept-trans : (a b c : HCloudNodeClass) → Kept a b → Kept b c → Kept a c
Kept-trans a b c h k = record {
  spec = k.spec ∙ h.spec;
  generation = k.generation ∙ h.generation;
  images = k.images ∙ h.images;
  stamp =
      stamp_trans (has_condition condition_type_images_ready a)
        (has_condition condition_type_images_ready b) _ _ _ _ _ h.present h.stamp k.stamp
        h.generation;
  present = λ e. k.present (h.present e);
}

module _ (set : SetCondition) (lawful : IsSetCondition set) where
  still_present :
      (type : String) (status : ConditionStatus) (reason : String) (message : Option Error)
      (a : HCloudNodeClass)
      → str_eq type condition_type_images_ready ≡ false
      → has_condition condition_type_images_ready a ≡ true
      → has_condition condition_type_images_ready (set type status reason message a) ≡ true
  still_present type status reason message a other h =
      elim (Option-cases (condition_status condition_type_images_ready a.status.conditions)) [
        | inl missing ↦ absurd (cc (rw missing at h))
        | inr (s, there) ↦
            rw
              (lawful.keeps_status type condition_type_images_ready status s reason message a other
                refl there)
              refl
      ]

  pub Sets-Kept :
      (type : String) (status : ConditionStatus) (a b : HCloudNodeClass)
      → str_eq type condition_type_images_ready ≡ false
      → Sets set type status a b
      → Kept a b
  Sets-Kept type status a b other (reason, message, e) = rw e (record {
    spec = lawful.keeps_spec type status reason message a;
    generation = lawful.keeps_generation type status reason message a;
    images = lawful.keeps_images type status reason message a;
    stamp = lawful.stamp_lem type status reason message a other;
    present = still_present type status reason message a other;
  })

  pub Sets-stores :
      (type : String) (status : ConditionStatus) (a b : HCloudNodeClass)
      → str_eq condition_ready type ≡ false
      → Sets set type status a b
      → condition_status type b.status.conditions ≡ some status
  Sets-stores type status a b dependent (reason, message, e) =
      rw e (lawful.stores type status reason message a dependent)

  pub Sets-keeps :
      (type type' : String) (status status' : ConditionStatus) (a b : HCloudNodeClass)
      → str_eq type type' ≡ false
      → str_eq condition_ready type' ≡ false
      → Sets set type status a b
      → condition_status type' a.status.conditions ≡ some status'
      → condition_status type' b.status.conditions ≡ some status'
  Sets-keeps type type' status status' a b other dependent (reason, message, e) h =
      rw e (lawful.keeps_status type type' status status' reason message a other dependent h)

-- The images that Reconcile takes for current: those of the present generation, and all of them where
-- ImagesReady is missing, since setting the other conditions adds it.
unfoldable pub dated_images : HCloudNodeClass → List ResolvedImage
unfolding current_resolved_images
dated_images nc =
    if has_condition condition_type_images_ready nc
    then current_resolved_images nc
    else nc.status.resolved_images

pub dated_images-Kept :
    (a b : HCloudNodeClass) → Kept a b → current_resolved_images b ≡ dated_images a
unfolding current_resolved_images dated_images
dated_images-Kept a b k = elim (Bool-cases (has_condition condition_type_images_ready a)) [
  | inl there ↦
      let stamp : resolved_images_generation b ≡ resolved_images_generation a =
        k.stamp ∙ (rw there refl) in
      rw (there, dated_images, current_resolved_images, stamp, k.generation, k.images) refl
  | inr missing ↦
      let stamp : resolved_images_generation b ≡ b.generation =
        k.stamp ∙ (rw missing (sym k.generation)) in
      rw
        (
          missing,
          dated_images,
          current_resolved_images,
          (eq_ℤ_iff (resolved_images_generation b) b.generation).1 stamp,
          k.images,
        )
        refl
]

pub drop_superseded-status :
    (t : String) (nc : HCloudNodeClass)
    → condition_status t (drop_superseded nc).status.conditions
      ≡ condition_status t nc.status.conditions
unfolding drop_superseded with_images
drop_superseded-status t nc =
    elim (Bool-cases (eq_ℤ (resolved_images_generation nc) nc.generation)) [
      | inl same ↦ rw (same, drop_superseded) refl
      | inr moved ↦ rw (moved, drop_superseded) refl
    ]

pub images_status_iff : (m : Merged) → (images_status m ≡ condition_true) ↔ (m.resolved ≢ [])
images_status_iff m = go m.resolved
  where
    go :
        (xs : List ResolvedImage)
        → ((if not (is_empty xs)
              then condition_true
              else if not (is_empty m.transient_errs)
              then condition_unknown
              else condition_false)
            ≡ condition_true)
          ↔ (xs ≢ [])
    go [] = (
      λ h. elim (Bool-cases (not (is_empty m.transient_errs))) [
        | inl t ↦ absurd (cc (rw t at h))
        | inr t ↦ absurd (cc (rw t at h))
      ],
      λ h. absurd (h refl),
    )
    go (x ∷ xs) = ((λ h e. cc e), (λ h. refl))
