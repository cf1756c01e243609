-- ===== src/CloudProvider/Image.antt =====
-- hcloudArchFor, hasResolvedImage and resolveImage of pkg/cloudprovider/cloudprovider.go, and the mark
-- on types whose architecture has no image.
pub mod Laws
pub mod Offered
use karpenter_provider_hetzn.Base.{
  String, Bool, true, false, Option, none, some, List, [], ◌∷◌, map, str_eq, if◌then◌else◌,
  is_empty, any, first,
}
use karpenter_provider_hetzn.Errors.{
  int, text, errorf, wrapf, node_class_not_ready, is_permanent, Result, ok, err,
}
use karpenter_provider_hetzn.ImageFamily.{Image, ImageClient, resolve}
use karpenter_provider_hetzn.Api.{architecture_x86, architecture_arm}
use karpenter_provider_hetzn.Api.NodeClass.{ResolvedImage, HCloudNodeClass, current_resolved_images}
use karpenter_provider_hetzn.InstanceType.{Offering, InstanceType}

unfoldable pub hcloud_arch_for : InstanceType → String
hcloud_arch_for it =
    if str_eq it.requirements.arch "arm64" then architecture_arm else architecture_x86

unfoldable pub find_image : String → List ResolvedImage → Option ResolvedImage
find_image arch images = first (λ ri. str_eq ri.architecture arch) images

unfoldable pub has_resolved_image : HCloudNodeClass → String → Bool
has_resolved_image nc arch =
    let resolved = current_resolved_images nc in
    if is_empty resolved then true else any (λ ri. str_eq ri.architecture arch) resolved

module _ (images : ImageClient) where
  checked_image : String → String → Result Image → Result Image
  checked_image name arch (err e) =
      if is_permanent e
      then err (
          node_class_not_ready (
            wrapf "HCloudNodeClass %q has no image for architecture %s: %w"
              (text name ∷ text arch ∷ []) e))
      else err (wrapf "resolving image: %w" [] e)
  checked_image name arch (ok image) =
      if str_eq image.architecture arch
      then ok image
      else err (
          node_class_not_ready (
            errorf "HCloudNodeClass %q resolved image %d with architecture %q for architecture %s"
              (text name ∷ int image.id ∷ text image.architecture ∷ text arch ∷ [])))

  image_from : HCloudNodeClass → String → Option ResolvedImage → Result Image
  unfolding checked_image
  -- only the ID and the architecture of this image are set
  image_from nc arch (some ri) =
      ok (record { id = ri.image_id; architecture = arch; description = ""; created = 0 })
  image_from nc arch none = checked_image nc.name arch (resolve images nc.spec.image_selector arch)

  unfoldable pub resolve_image : HCloudNodeClass → String → Result Image
  unfolding image_from
  resolve_image nc arch = image_from nc arch (find_image arch (current_resolved_images nc))

withdraw : Offering → Offering
withdraw o = record o { available = false }

mark_type : HCloudNodeClass → InstanceType → InstanceType
unfolding withdraw
mark_type nc it =
    if has_resolved_image nc (hcloud_arch_for it)
    then it
    else record it { offerings = map withdraw it.offerings }

unfoldable pub mark_imageless_arches_unavailable :
    List InstanceType → HCloudNodeClass → List InstanceType
unfolding mark_type
mark_imageless_arches_unavailable its nc = map (mark_type nc) its
