-- ===== src/CloudProvider/Image/Laws.antt =====
-- Which image is launched, and what GetInstanceTypes reports for an architecture without one.
use karpenter_provider_hetzn.Base.{
  ℕ, String, ◌≡◌, refl, sym, ap, ◌≢◌, ◌∙◌, ◌⊎◌, none, some, first, inl, inr, true, false, List, [],
  ◌∷◌, map, arith, str_eq, eq_iff, Bool-cases, Option-cases, is_empty, All, Within, first-Within,
  first-of_any,
}
use karpenter_provider_hetzn.Base.Int.{eq_ℤ, eq_ℤ_iff}
use karpenter_provider_hetzn.Errors.{Result, ok, err, ok-injective}
use karpenter_provider_hetzn.ImageFamily.{Image, ImageClient, resolve}
use karpenter_provider_hetzn.Api.NodeClass.{
  ResolvedImage, HCloudNodeClass, resolved_images_generation, current_resolved_images,
}
use karpenter_provider_hetzn.InstanceType.{Offering, InstanceType}
use karpenter_provider_hetzn.CloudProvider.Image.{
  hcloud_arch_for, find_image, has_resolved_image, resolve_image, mark_imageless_arches_unavailable,
  checked_image, withdraw, mark_type,
}

-- No entry is for this architecture.
abbrev pub Lacks : String → List ResolvedImage → Type 0
Lacks arch ris = All (λ ri. ri.architecture ≢ arch) ris

-- The entry of the status for the architecture, or, without one, the image that the catalogue gives for
-- it.
abbrev pub IsFor : ImageClient → HCloudNodeClass → String → Image → Type 0
IsFor images nc arch img =
    ((ri : ResolvedImage) × Within ri (current_resolved_images nc)
      × (ri.architecture ≡ arch)
      × (img.id ≡ ri.image_id))
    ⊎ (Lacks arch (current_resolved_images nc)
        × (resolve images nc.spec.image_selector arch ≡ ok img))

none-Lacks :
    (arch : String) (ris : List ResolvedImage) → find_image arch ris ≡ none → Lacks arch ris
unfolding find_image first
none-Lacks arch [] h = tt
none-Lacks arch (ri ∷ ris) h = elim (Bool-cases (str_eq ri.architecture arch)) [
  | inl same ↦ absurd (cc (rw same at h))
  | inr other ↦
      (λ e. cc (other, (eq_iff ri.architecture arch).1 e), none-Lacks arch ris (rw other at h))
]

-- The image that is launched has the architecture that the claim requires. It is the one that the status
-- has for this architecture and the current generation, or, if there is none, the one that the catalogue
-- gives.
pub resolve_image-architecture :
    (images : ImageClient) (nc : HCloudNodeClass) (arch : String) {img : Image}
    → resolve_image images nc arch ≡ ok img
    → (img.architecture ≡ arch) × IsFor images nc arch img
unfolding resolve_image find_image
resolve_image-architecture images nc arch {img} e =
    elim (Option-cases (find_image arch (current_resolved_images nc))) [
      | inl live ↦
          let (same, given) =
            checked (resolve images nc.spec.image_selector arch) (rw (live, resolve_image) at e) in
          (same, inr (none-Lacks arch _ live, given))
      | inr (ri, hit) ↦
          let same = ok-injective (rw (hit, resolve_image) at e) in
          let (there, fits) = entry_found ri hit in
          (
            ap (λ (i : Image). i.architecture) (sym same),
            inl (ri, there, fits, ap (λ (i : Image). i.id) (sym same)),
          )
    ]
  where
    checked :
        (r : Result Image)
        → checked_image images nc.name arch r ≡ ok img
        → (img.architecture ≡ arch) × (r ≡ ok img)
    checked (ok i) h = elim (Bool-cases (str_eq i.architecture arch)) [
      | inl same ↦
          let is : i ≡ img = ok-injective (rw (same, checked_image) at h) in
          (
            ap (λ (x : Image). x.architecture) (sym is) ∙ (eq_iff i.architecture arch).0 same,
            ap (λ x. ok x) is,
          )
      | inr other ↦ absurd (cc (rw (other, checked_image) at h))
    ]
    checked (err c) h = absurd (ground arith)

    entry_found :
        (ri : ResolvedImage)
        → find_image arch (current_resolved_images nc) ≡ some ri
        → Within ri (current_resolved_images nc) × (ri.architecture ≡ arch)
    entry_found ri hit =
        let (w, same) =
          first-Within (λ x. str_eq x.architecture arch) (current_resolved_images nc) ri hit in
        (w, (eq_iff ri.architecture arch).0 same)

-- Where status holds images of the current generation, an architecture that passes the gate is launched
-- with an image of status, whatever a live lookup would answer.
resolve_image_gated :
    (images : ImageClient) (nc : HCloudNodeClass) (arch : String)
    → is_empty (current_resolved_images nc) ≡ false
    → has_resolved_image nc arch ≡ true
    → (ri : ResolvedImage) × Within ri (current_resolved_images nc)
      × (ri.architecture ≡ arch)
      × ((img : Image) × (resolve_image images nc arch ≡ ok img) × (img.id ≡ ri.image_id))
unfolding resolve_image has_resolved_image find_image
resolve_image_gated images nc arch reported gate =
    let (ri, hit) =
      first-of_any (λ ri. str_eq ri.architecture arch) (current_resolved_images nc)
        (rw (reported, has_resolved_image) at gate) in
    let (w, same) = first-Within (λ ri. str_eq ri.architecture arch) _ ri hit in
    let img : Image = record {
      id = ri.image_id;
      architecture = arch;
      description = "";
      created = 0;
    } in
    (
      ri,
      w,
      (eq_iff ri.architecture arch).0 same,
      (img, rw (hit, find_image, resolve_image) refl, refl),
    )

-- Entries of another generation are not used: the launch does not depend on them.
pub resolve_image_superseded :
    (images : ImageClient) (nc : HCloudNodeClass) (arch : String) (entries : List ResolvedImage)
    → resolved_images_generation nc ≢ nc.generation
    → resolve_image images
        (record nc { status = record nc.status { resolved_images = entries } })
        arch
      ≡ resolve_image images nc arch
unfolding resolve_image current_resolved_images
resolve_image_superseded images nc arch entries h =
    let other : eq_ℤ (resolved_images_generation nc) nc.generation ≡ false =
      ground (arith, eq_ℤ_iff (resolved_images_generation nc) nc.generation) in
    rw (other, current_resolved_images, resolve_image) refl

withdraw-All : (os : List Offering) → All (λ o. o.available ≡ false) (map withdraw os)
unfolding withdraw
withdraw-All [] = tt
withdraw-All (o ∷ os) = (refl, withdraw-All os)

mark_type-unavailable :
    (nc : HCloudNodeClass) (it : InstanceType)
    → has_resolved_image nc (hcloud_arch_for (mark_type nc it)) ≡ false
    → All (λ o. o.available ≡ false) (mark_type nc it).offerings
unfolding mark_type
mark_type-unavailable nc it h = elim (Bool-cases (has_resolved_image nc (hcloud_arch_for it))) [
  | inl kept ↦ absurd (ground arith)
  | inr dropped ↦ rw (dropped, mark_type) (withdraw-All it.offerings)
]

-- Nothing is available of a type whose architecture has no image.
pub mark_imageless-unavailable :
    (its : List InstanceType) (nc : HCloudNodeClass)
    → All
        (λ it.
          has_resolved_image nc (hcloud_arch_for it) ≡ false
          → All (λ o. o.available ≡ false) it.offerings)
        (mark_imageless_arches_unavailable its nc)
unfolding mark_imageless_arches_unavailable
mark_imageless-unavailable [] nc = tt
mark_imageless-unavailable (it ∷ its) nc =
    (mark_type-unavailable nc it, mark_imageless-unavailable its nc)

-- An offering, and a type with its offerings, without the availability.
abbrev pub listing : Offering → String × String × ℕ
listing o = (o.zone, o.capacity_type, o.price)

abbrev pub type_listing : InstanceType → String × List (String × String × ℕ)
type_listing it = (it.name, map listing it.offerings)

withdraw-listing : (os : List Offering) → map listing (map withdraw os) ≡ map listing os
unfolding withdraw
withdraw-listing [] = refl
withdraw-listing (o ∷ os) = cc (withdraw-listing os)

mark_type-listing :
    (nc : HCloudNodeClass) (it : InstanceType) → type_listing (mark_type nc it) ≡ type_listing it
unfolding mark_type
mark_type-listing nc it = elim (Bool-cases (has_resolved_image nc (hcloud_arch_for it))) [
  | inl kept ↦ rw (kept, mark_type) refl
  | inr dropped ↦
      rw (dropped, mark_type)
        (ap (λ (l : List (String × String × ℕ)). (it.name, l)) (withdraw-listing it.offerings))
]

-- The types and the offerings stay listed, in their order, with their prices.
pub mark_imageless-listing :
    (its : List InstanceType) (nc : HCloudNodeClass)
    → map type_listing (mark_imageless_arches_unavailable its nc) ≡ map type_listing its
unfolding mark_imageless_arches_unavailable
mark_imageless-listing [] nc = refl
mark_imageless-listing (it ∷ its) nc = cc (mark_type-listing nc it, mark_imageless-listing its nc)
