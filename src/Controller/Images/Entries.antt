-- ===== src/Controller/Images/Entries.antt =====
-- What the answers of the catalogue make of the images that the status has.
use karpenter_provider_hetzn.Base.{
  String, ◌≡◌, refl, sym, ap, ◌∙◌, inl, inr, Option, none, some, arith, str_eq, List, [], ◌∷◌, ◌++◌,
  if◌then◌else◌, Bool-cases, Option-cases,
}
use karpenter_provider_hetzn.Base.Dict.{Dict, lookup, insert, lookup-insert}
use karpenter_provider_hetzn.Base.Int.{ℤ}
use karpenter_provider_hetzn.Errors.{is_permanent, Result, ok, err}
use karpenter_provider_hetzn.Api.{architecture_x86, architecture_arm}
use karpenter_provider_hetzn.Api.NodeClass.{ImageSelector, ResolvedImage, HCloudNodeClass}
use karpenter_provider_hetzn.ImageFamily.{Image, ImageClient, resolve}
use karpenter_provider_hetzn.Controller.Images.{
  resolution, resolve_images, prev_images, Merged, merge_resolution, merge_all, empty_merge,
  merge_pass, carried,
}

-- The image that the status has for an architecture: the last entry counts.
unfoldable pub recorded : String → List ResolvedImage → Option ℤ
recorded arch [] = none
recorded arch (ri ∷ ris) = elim (recorded arch ris) [
  | some id ↦ some id
  | none ↦ if str_eq ri.architecture arch then some ri.image_id else none
]

abbrev image_for : String → ℤ → ResolvedImage
image_for arch id = record { architecture = arch; image_id = id }

-- What becomes of one architecture: the catalogue's image, if it has this architecture; without a
-- permanent error, the image of the status; and otherwise none.
unfoldable pub entry : List ResolvedImage → String → Result Image → List ResolvedImage
unfolding recorded
entry previous arch (ok image) =
    if str_eq image.architecture arch then image_for arch image.id ∷ [] else []
entry previous arch (err e) =
    if is_permanent e
    then []
    else elim (recorded arch previous) [ none ↦ [] | some id ↦ image_for arch id ∷ [] ]

prev_images-recorded :
    (arch : String) (prev : Dict ℤ) (ris : List ResolvedImage)
    → lookup arch (prev_images prev ris)
      ≡ elim (recorded arch ris) [ none ↦ lookup arch prev | some id ↦ some id ]
unfolding prev_images recorded
prev_images-recorded arch prev [] = refl
prev_images-recorded arch prev (ri ∷ ris) = elim (Option-cases (recorded arch ris)) [
  | inl nothing ↦
      let rest = prev_images-recorded arch (insert ri.architecture ri.image_id prev) ris in
      ground (arith, rest, nothing, lookup-insert ri.architecture arch ri.image_id prev)
  | inr (id, there) ↦
      let rest = prev_images-recorded arch (insert ri.architecture ri.image_id prev) ris in
      ground (arith, rest, there)
]

append_nil : {A : Type 0} (xs : List A) → xs ++ [] ≡ xs
append_nil [] = refl
append_nil (x ∷ xs) = ap (λ t. x ∷ t) (append_nil xs)

merge_resolution-resolved :
    (previous : List ResolvedImage) (arch : String) (answer : Result Image) (m : Merged)
    → (merge_resolution (prev_images [] previous) (resolution arch answer) m).resolved
      ≡ m.resolved ++ entry previous arch answer
unfolding merge_resolution resolution entry carried lookup
merge_resolution-resolved previous arch (ok image) m =
    elim (Bool-cases (str_eq image.architecture arch)) [
      | inl same ↦ rw (same, resolution, entry) refl
      | inr other ↦ rw (other, resolution, entry) (sym (append_nil m.resolved))
    ]
merge_resolution-resolved previous arch (err e) m =
    let before = prev_images-recorded arch [] previous in
    elim (Bool-cases (is_permanent e)) [
      | inl gone ↦ rw (gone, resolution, entry) (sym (append_nil m.resolved))
      | inr unread ↦ elim (Option-cases (recorded arch previous)) [
        | inl nothing ↦
            let missing : lookup arch (prev_images [] previous) ≡ none =
              before ∙ (rw nothing refl) in
            rw (unread, nothing, missing, resolution, entry) refl
        | inr (id, there) ↦
            let found : lookup arch (prev_images [] previous) ≡ some id =
              before ∙ (rw there refl) in
            rw (unread, there, found, resolution, entry) refl
      ]
    ]

-- What the answers make of the two architectures, with the previous images.
abbrev pub entries : ImageClient → ImageSelector → List ResolvedImage → List ResolvedImage
entries images selector previous =
    entry previous architecture_x86 (resolve images selector architecture_x86)
    ++ entry previous architecture_arm (resolve images selector architecture_arm)

pub merge_pass-resolved :
    (images : ImageClient) (nc : HCloudNodeClass)
    → (merge_pass images nc).resolved
      ≡ entries images nc.spec.image_selector nc.status.resolved_images
unfolding merge_pass merge_all resolve_images
merge_pass-resolved images nc =
    let previous = nc.status.resolved_images in
    let prev = prev_images [] previous in
    let x86 = resolve images nc.spec.image_selector architecture_x86 in
    let arm = resolve images nc.spec.image_selector architecture_arm in
    merge_resolution-resolved previous architecture_arm arm
      (merge_resolution prev (resolution architecture_x86 x86) empty_merge)
    ∙ ap (λ x. x ++ entry previous architecture_arm arm)
        (merge_resolution-resolved previous architecture_x86 x86 empty_merge)
