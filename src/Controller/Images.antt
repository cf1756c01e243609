-- ===== src/Controller/Images.antt =====
-- The image resolution of pkg/controllers/nodeclass/controller.go: resolveImages, and how Reconcile
-- merges its answers with the images in the status.
pub mod Entries
pub mod Laws
pub mod Again
use karpenter_provider_hetzn.Base.{
  String, Bool, false, not, Option, none, some, List, [], ◌∷◌, ◌++◌, map, str_eq, if◌then◌else◌,
  is_empty,
}
use karpenter_provider_hetzn.Base.Dict.{Dict, lookup, insert}
use karpenter_provider_hetzn.Base.Int.{ℤ, pos, eq_ℤ}
use karpenter_provider_hetzn.Errors.{
  int, text, Error, errorf, wrapf, joined, is_permanent, Result, ok, err,
}
use karpenter_provider_hetzn.Metrics.{record_image_resolution_error}
use karpenter_provider_hetzn.Api.{architecture_x86, architecture_arm}
use karpenter_provider_hetzn.Api.NodeClass.{
  ResolvedImage, condition_true, condition_false, condition_unknown, HCloudNodeClass,
  condition_type_images_ready, resolved_images_generation,
}
use karpenter_provider_hetzn.ImageFamily.{Image, ImageClient, resolve}
use karpenter_provider_hetzn.Controller.{SetCondition, Pass, warnf, on_class}

-- imageResolution
pub record ImageResolution : Type 0 where
  pub arch : String
  pub image_id : ℤ
  pub error : Option Error
  pub transient : Bool

unfoldable pub resolution : String → Result Image → ImageResolution
unfolding is_permanent
resolution arch (err e) = record {
  arch = arch;
  image_id = pos 0;
  error = some (wrapf "%s: %w" (text arch ∷ []) e);
  transient = not (is_permanent e);
}
resolution arch (ok image) =
    if str_eq image.architecture arch
    then record { arch = arch; image_id = image.id; error = none; transient = false }
    else record {
      arch = arch;
      image_id = pos 0;
      error = some (
          errorf "%s: catalogue returned image %d with architecture %q"
            (text arch ∷ int image.id ∷ text image.architecture ∷ []));
      transient = false;
    }

unfoldable pub resolve_images : ImageClient → HCloudNodeClass → List ImageResolution
unfolding resolution
resolve_images images nc =
    map (λ arch. resolution arch (resolve images nc.spec.image_selector arch))
      (architecture_x86 ∷ architecture_arm ∷ [])

-- The map `prev`, to which a later entry for an architecture is the one that counts.
unfoldable pub prev_images : Dict ℤ → List ResolvedImage → Dict ℤ
unfolding insert
prev_images prev [] = prev
prev_images prev (ri ∷ ris) = prev_images (insert ri.architecture ri.image_id prev) ris

pub record Merged : Type 0 where
  pub resolved : List ResolvedImage
  pub transient_errs : List Error
  pub definitive_errs : List Error

carried : String → Option ℤ → List ResolvedImage
carried arch none = []
carried arch (some id) = record { architecture = arch; image_id = id } ∷ []

-- One round of the loop over the answers.
unfoldable pub merge_resolution : Dict ℤ → ImageResolution → Merged → Merged
unfolding carried lookup
merge_resolution prev r m = elim r.error [
  | none ↦ record m {
    resolved = m.resolved ++ (record { architecture = r.arch; image_id = r.image_id } ∷ []);
  }
  | some e ↦
      if r.transient
      then record m {
        resolved = m.resolved ++ carried r.arch (lookup r.arch prev);
        transient_errs = m.transient_errs ++ (e ∷ []);
      }
      else record m { definitive_errs = m.definitive_errs ++ (e ∷ []) }
]

unfoldable pub merge_all : Dict ℤ → Merged → List ImageResolution → Merged
unfolding merge_resolution
merge_all prev m [] = m
merge_all prev m (r ∷ rs) = merge_all prev (merge_resolution prev r m) rs

abbrev pub empty_merge : Merged
empty_merge = record { resolved = []; transient_errs = []; definitive_errs = [] }

-- errors.Join, which skips a nil error and is nil without errors.
unfoldable pub join_two : Option Error → Option Error → Option Error
join_two none e = e
join_two (some d) none = some d
join_two (some d) (some e) = some (joined d e)

unfoldable pub join_errors : List Error → Option Error
unfolding join_two
join_errors [] = none
join_errors (e ∷ es) = join_two (some e) (join_errors es)

described : String → Option Error → Option Error
described format none = none
described format (some e) = some (wrapf format [] e)

-- The images in the status, for which the superseded ones are dropped first.
unfoldable pub with_images : List ResolvedImage → HCloudNodeClass → HCloudNodeClass
with_images images nc = record nc { status = record nc.status { resolved_images = images } }

unfoldable pub drop_superseded : HCloudNodeClass → HCloudNodeClass
unfolding with_images resolved_images_generation eq_ℤ
drop_superseded nc =
    if eq_ℤ (resolved_images_generation nc) nc.generation then nc else with_images [] nc

-- What Reconcile makes of the images that the status has already.
unfoldable pub merge_pass : ImageClient → HCloudNodeClass → Merged
unfolding merge_all prev_images resolve_images
merge_pass images nc =
    merge_all (prev_images [] nc.status.resolved_images) empty_merge (resolve_images images nc)

module _ (set : SetCondition) (recording : Bool) where
  unreadable : List Error → Pass → Pass
  unfolding warnf record_image_resolution_error join_errors described
  unreadable [] s = s
  unreadable (e ∷ es) s =
      warnf recording
        (record {
          reason = "ImageResolutionErrored";
          action = "ResolveImages";
          message = described "image catalogue unreadable: %v" (join_errors (e ∷ es));
        })
        (record s { metrics = record_image_resolution_error s.metrics })

  failure : List Error → Pass → Pass
  unfolding warnf join_errors described
  failure errs s =
      warnf recording
        (record {
          reason = "ImageResolutionFailed";
          action = "ResolveImages";
          message = described "image resolution failed: %v" (join_errors errs);
        })
        s

  -- The last switch of Reconcile.
  settle : Merged → Pass → Pass
  unfolding with_images on_class failure join_errors join_two
  settle m s =
      if not (is_empty m.resolved)
      then on_class
          (λ nc.
            set condition_type_images_ready condition_true condition_type_images_ready none
              (with_images m.resolved nc))
          s
      else if not (is_empty m.transient_errs)
      then (let s' =
            on_class
              (λ nc.
                set condition_type_images_ready condition_unknown "ImageResolutionErrored"
                  (join_two (join_errors m.transient_errs) (join_errors m.definitive_errs))
                  (with_images [] nc))
              s in
          if is_empty m.definitive_errs then s' else failure m.definitive_errs s')
      else failure m.definitive_errs (
          on_class
            (λ nc.
              set condition_type_images_ready condition_false "ImageResolutionFailed"
                (join_errors m.definitive_errs) (with_images [] nc))
            s)

  settle_all : Merged → Pass → Pass
  unfolding settle unreadable
  settle_all m s = settle m (unreadable m.transient_errs s)

  unfoldable pub images_pass : ImageClient → Pass → Pass
  unfolding drop_superseded merge_pass settle_all on_class
  images_pass images s =
      let s' = on_class drop_superseded s in settle_all (merge_pass images s'.nc) s'
