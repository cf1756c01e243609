-- ===== src/Controller/Reconcile/Launched.antt =====
-- A launch after Reconcile: resolveImage of pkg/cloudprovider/cloudprovider.go at the NodeClass that
-- Reconcile leaves.
use karpenter_provider_hetzn.Base.{
  String, ◌≡◌, refl, ap, ◌∙◌, ◌⊎◌, inl, inr, some, List, [], ◌∷◌, ◌++◌, eq_iff, first,
}
use karpenter_provider_hetzn.Errors.{ok}
use karpenter_provider_hetzn.Metrics.{Metrics}
use karpenter_provider_hetzn.Api.{architecture_x86, architecture_arm}
use karpenter_provider_hetzn.Api.NodeClass.{
  ImageSelector, ResolvedImage, HCloudNodeClass, current_resolved_images,
}
use karpenter_provider_hetzn.ImageFamily.{Image, ImageClient, resolve}
use karpenter_provider_hetzn.CloudProvider.Image.{find_image, resolve_image}
use karpenter_provider_hetzn.Controller.{IsSetCondition}
use karpenter_provider_hetzn.Controller.Images.Entries.{entry, entries}
use karpenter_provider_hetzn.Controller.Images.Again.{IsSingle, entry-IsSingle}
use karpenter_provider_hetzn.Controller.Reconcile.Kept.{dated_images}
use karpenter_provider_hetzn.Controller.Reconcile.Laws.{final, reconcile-images, reconcile-current}
use karpenter_provider_hetzn.Controller.Reconcile.{Controller}

-- The architectures that Reconcile asks for.
abbrev pub IsServed : String → Type 0
IsServed arch = (arch ≡ architecture_x86) ⊎ (arch ≡ architecture_arm)

abbrev entry_for : Image → String → ResolvedImage
entry_for img arch = record { architecture = arch; image_id = img.id }

found-entry :
    (previous : List ResolvedImage) (arch : String) (img : Image)
    → img.architecture ≡ arch
    → entry previous arch (ok img) ≡ entry_for img arch ∷ []
unfolding entry
found-entry previous arch img h = rw ((eq_iff img.architecture arch).1 h, entry) refl

find_image-past_x86 :
    (ris rest : List ResolvedImage)
    → IsSingle architecture_x86 ris
    → find_image architecture_arm (ris ++ rest) ≡ find_image architecture_arm rest
unfolding find_image first
find_image-past_x86 ris rest (inl e) = rw e refl
find_image-past_x86 ris rest (inr (id, e)) = rw e refl

-- The image that the catalogue gave is the one that a look into the entries finds.
find_image-entries :
    (images : ImageClient) (selector : ImageSelector) (previous : List ResolvedImage)
    (arch : String) (img : Image)
    → IsServed arch
    → resolve images selector arch ≡ ok img
    → img.architecture ≡ arch
    → find_image arch (entries images selector previous) ≡ some (entry_for img arch)
unfolding find_image first
find_image-entries images selector previous arch img (inl is) found same =
    let x86_first : entry previous architecture_x86 (resolve images selector architecture_x86)
        ≡ entry_for img architecture_x86 ∷ [] =
      rw (← is, found) (found-entry previous arch img same) in
    rw (is, x86_first) refl
find_image-entries images selector previous arch img (inr is) found same =
    let second : entry previous architecture_arm (resolve images selector architecture_arm)
        ≡ entry_for img architecture_arm ∷ [] =
      rw (← is, found) (found-entry previous arch img same) in
    rw is (
      find_image-past_x86 (entry previous architecture_x86 _) _
        (entry-IsSingle previous architecture_x86 _)
      ∙ rw second refl)

module _ {W : Type 0} (c : Controller W) (nc : HCloudNodeClass) (w : W) (m : Metrics)
    (lawful : IsSetCondition c.set) where
  -- If setting a condition behaves as documented, and the catalogue gives Reconcile an image of the
  -- architecture asked for: a launch from the NodeClass that Reconcile leaves takes this image, whatever
  -- the catalogue answers by then, and whatever the status had recorded before.
  pub reconcile-launch :
      (later : ImageClient) (arch : String) (img : Image)
      → IsServed arch
      → resolve c.images nc.spec.image_selector arch ≡ ok img
      → img.architecture ≡ arch
      → (j : Image) × (resolve_image later (final c nc w m) arch ≡ ok j)
        × (j.id ≡ img.id)
        × (j.architecture ≡ arch)
  unfolding resolve_image
  reconcile-launch later arch img served found same =
      let current = reconcile-current c nc w m lawful ∙ reconcile-images c nc w m lawful in
      let hit : find_image arch (current_resolved_images (final c nc w m))
          ≡ some (entry_for img arch) =
        ap (find_image arch) current
        ∙ find_image-entries c.images nc.spec.image_selector (dated_images nc) arch img served found
            same in
      let j : Image = record { id = img.id; architecture = arch; description = ""; created = 0 } in
      (j, rw (hit, resolve_image) refl, refl, refl)
