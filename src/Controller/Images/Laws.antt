-- ===== src/Controller/Images/Laws.antt =====
-- The images that a pass of the controller records.
use karpenter_provider_hetzn.Base.{
  ◌≡◌, refl, ap, ◌∙◌, inl, inr, Bool, false, not, List, [], ◌∷◌, if◌then◌else◌, Bool-cases,
  is_empty,
}
use karpenter_provider_hetzn.Base.Int.{eq_ℤ}
use karpenter_provider_hetzn.Errors.{Error}
use karpenter_provider_hetzn.Api.NodeClass.{
  ConditionStatus, condition_true, condition_false, condition_unknown, HCloudNodeClass,
  condition_type_images_ready, resolved_images_generation, current_resolved_images,
}
use karpenter_provider_hetzn.ImageFamily.{ImageClient}
use karpenter_provider_hetzn.Controller.{warnf-nc, Sets, SetCondition, Pass, on_class}
use karpenter_provider_hetzn.Controller.Images.{
  Merged, join_two, join_errors, drop_superseded, merge_pass, images_pass, with_images, unreadable,
  failure, settle, settle_all,
}

-- The superseded images are those that may not be used.
pub drop_superseded-images :
    (nc : HCloudNodeClass)
    → (drop_superseded nc).status.resolved_images ≡ current_resolved_images nc
unfolding drop_superseded current_resolved_images with_images
drop_superseded-images nc = elim (Bool-cases (eq_ℤ (resolved_images_generation nc) nc.generation)) [
  | inl same ↦ rw (same, drop_superseded, current_resolved_images) refl
  | inr moved ↦ rw (moved, drop_superseded, current_resolved_images) refl
]

pub drop_superseded-spec : (nc : HCloudNodeClass) → (drop_superseded nc).spec ≡ nc.spec
unfolding drop_superseded with_images
drop_superseded-spec nc = elim (Bool-cases (eq_ℤ (resolved_images_generation nc) nc.generation)) [
  | inl same ↦ rw (same, drop_superseded) refl
  | inr moved ↦ rw (moved, drop_superseded) refl
]

pub drop_superseded-generation :
    (nc : HCloudNodeClass) → (drop_superseded nc).generation ≡ nc.generation
unfolding drop_superseded with_images
drop_superseded-generation nc =
    elim (Bool-cases (eq_ℤ (resolved_images_generation nc) nc.generation)) [
      | inl same ↦ rw (same, drop_superseded) refl
      | inr moved ↦ rw (moved, drop_superseded) refl
    ]

-- The status of the condition ImagesReady.
abbrev pub images_status : Merged → ConditionStatus
images_status m =
    if not (is_empty m.resolved)
    then condition_true
    else if not (is_empty m.transient_errs)
    then condition_unknown
    else condition_false

empty_of : {A : Type 0} (xs : List A) → not (is_empty xs) ≡ false → xs ≡ []
empty_of [] h = refl
empty_of (x ∷ xs) h = absurd (cc h)

module _ (set : SetCondition) (recording : Bool) where
  failure-nc : (errs : List Error) (s : Pass) → (failure set recording errs s).nc ≡ s.nc
  unfolding failure
  failure-nc errs s = warnf-nc recording _ s

  unreadable-nc : (errs : List Error) (s : Pass) → (unreadable set recording errs s).nc ≡ s.nc
  unfolding unreadable
  unreadable-nc [] s = refl
  unreadable-nc (e ∷ es) s = warnf-nc recording _ _

  settle-Sets :
      (m : Merged) (s : Pass)
      → Sets set condition_type_images_ready
          (images_status m)
          (with_images m.resolved s.nc)
          (settle set recording m s).nc
  unfolding settle on_class
  settle-Sets m s = elim (Bool-cases (not (is_empty m.resolved))) [
    | inl some_resolved ↦ rw (some_resolved, settle) (_, _, refl)
    | inr none_resolved ↦ elim (Bool-cases (not (is_empty m.transient_errs))) [
      | inl some_transient ↦ elim (Bool-cases (is_empty m.definitive_errs)) [
        | inl d ↦
            rw (none_resolved, some_transient, d, settle, empty_of m.resolved none_resolved)
              (_, _, refl)
        | inr d ↦
            rw (none_resolved, some_transient, d, settle, empty_of m.resolved none_resolved)
              (
                _,
                _,
                failure-nc m.definitive_errs (
                    on_class
                      (λ nc.
                        set condition_type_images_ready condition_unknown "ImageResolutionErrored"
                          (join_two (join_errors m.transient_errs) (join_errors m.definitive_errs))
                          (with_images [] nc))
                      s),
              )
      ]
      | inr no_transient ↦
          rw (none_resolved, no_transient, settle, empty_of m.resolved none_resolved)
            (
              _,
              _,
              failure-nc m.definitive_errs (
                  on_class
                    (λ nc.
                      set condition_type_images_ready condition_false "ImageResolutionFailed"
                        (join_errors m.definitive_errs) (with_images [] nc))
                    s),
            )
    ]
  ]

  settle_all-Sets :
      (m : Merged) (s : Pass)
      → Sets set condition_type_images_ready
          (images_status m)
          (with_images m.resolved s.nc)
          (settle_all set recording m s).nc
  unfolding settle_all
  settle_all-Sets m s =
      let (reason, message, e) = settle-Sets m (unreadable set recording m.transient_errs s) in
      (
        reason,
        message,
        e
            ∙ ap
                (λ nc.
                  set condition_type_images_ready (images_status m) reason message
                    (with_images m.resolved nc))
                (unreadable-nc m.transient_errs s),
      )

  pub images_pass-Sets :
      (images : ImageClient) (s : Pass)
      → let m = merge_pass images (drop_superseded s.nc) in
        Sets set condition_type_images_ready
          (images_status m)
          (with_images m.resolved (drop_superseded s.nc))
          (images_pass set recording images s).nc
  unfolding images_pass on_class
  images_pass-Sets images s =
      settle_all-Sets (merge_pass images (drop_superseded s.nc)) (on_class drop_superseded s)
