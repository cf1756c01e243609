-- ===== src/Controller/Images/Again.antt =====
-- Resolving the images once more, with the same answers, changes nothing.
use karpenter_provider_hetzn.Base.{
  String, ◌≡◌, refl, ap, ◌∙◌, ◌⊎◌, inl, inr, Option, none, some, List, [], ◌∷◌, ◌++◌, str_eq,
  Bool-cases, Option-cases,
}
use karpenter_provider_hetzn.Base.Int.{ℤ}
use karpenter_provider_hetzn.Errors.{is_permanent, Result, ok, err}
use karpenter_provider_hetzn.Api.{architecture_x86, architecture_arm}
use karpenter_provider_hetzn.Api.NodeClass.{ImageSelector, ResolvedImage}
use karpenter_provider_hetzn.ImageFamily.{Image, ImageClient, resolve}
use karpenter_provider_hetzn.Controller.Images.Entries.{recorded, entry, entries}

-- At most one image, of the given architecture.
abbrev pub IsSingle : String → List ResolvedImage → Type 0
IsSingle arch ris =
    (ris ≡ []) ⊎ ((id : ℤ) × (ris ≡ record { architecture = arch; image_id = id } ∷ []))

head_id : List ResolvedImage → Option ℤ
head_id [] = none
head_id (ri ∷ ris) = some ri.image_id

pub entry-IsSingle :
    (previous : List ResolvedImage) (arch : String) (r : Result Image)
    → IsSingle arch (entry previous arch r)
unfolding entry
entry-IsSingle previous arch (ok image) = elim (Bool-cases (str_eq image.architecture arch)) [
  | inl same ↦ rw (same, entry) (inr (image.id, refl))
  | inr other ↦ rw (other, entry) (inl refl)
]
entry-IsSingle previous arch (err e) = elim (Bool-cases (is_permanent e)) [
  | inl gone ↦ rw (gone, entry) (inl refl)
  | inr unread ↦ elim (Option-cases (recorded arch previous)) [
    | inl nothing ↦ rw (unread, nothing, entry) (inl refl)
    | inr (id, there) ↦ rw (unread, there, entry) (inr (id, refl))
  ]
]

-- An answer makes of its own image, kept from before, the same once more.
entry-again :
    (previous next : List ResolvedImage) (arch : String) (r : Result Image)
    → recorded arch next ≡ head_id (entry previous arch r)
    → entry next arch r ≡ entry previous arch r
unfolding entry head_id
entry-again previous next arch (ok image) h = refl
entry-again previous next arch (err e) h = elim (Bool-cases (is_permanent e)) [
  | inl gone ↦ rw (gone, entry) refl
  | inr unread ↦ elim (Option-cases (recorded arch previous)) [
    | inl nothing ↦
        let none_again : recorded arch next ≡ none = rw (unread, nothing, entry) at h in
        rw (unread, nothing, none_again, entry) refl
    | inr (id, there) ↦
        let again : recorded arch next ≡ some id = rw (unread, there, entry) at h in
        rw (unread, there, again, entry) refl
  ]
]

recorded_both :
    (a b : List ResolvedImage)
    → IsSingle architecture_x86 a
    → IsSingle architecture_arm b
    → (recorded architecture_x86 (a ++ b) ≡ head_id a)
      × (recorded architecture_arm (a ++ b) ≡ head_id b)
unfolding recorded head_id
recorded_both a b (inl e) (inl f) = rw (e, f) (refl, refl)
recorded_both a b (inl e) (inr (j, f)) = rw (e, f) (refl, refl)
recorded_both a b (inr (i, e)) (inl f) = rw (e, f) (refl, refl)
recorded_both a b (inr (i, e)) (inr (j, f)) = rw (e, f) (refl, refl)

pub entries-again :
    (images : ImageClient) (selector : ImageSelector) (previous : List ResolvedImage)
    → entries images selector (entries images selector previous) ≡ entries images selector previous
entries-again images selector previous =
    let x86 = resolve images selector architecture_x86 in
    let arm = resolve images selector architecture_arm in
    let next = entries images selector previous in
    let (found_x86, found_arm) =
      recorded_both (entry previous architecture_x86 x86) (entry previous architecture_arm arm)
        (entry-IsSingle previous architecture_x86 x86)
        (entry-IsSingle previous architecture_arm arm) in
    let same_x86 = entry-again previous next architecture_x86 x86 found_x86 in
    let same_arm = entry-again previous next architecture_arm arm found_arm in
    ap (λ t. t ++ entry next architecture_arm arm) same_x86
    ∙ ap (λ t. entry previous architecture_x86 x86 ++ t) same_arm
