-- ===== src/ImageFamily.antt =====
-- pkg/providers/imagefamily/imagefamily.go: the image of a selector and an architecture. The hcloud
-- images API is the parameter `client`, the answer of AllWithOpts to a query.
pub mod Selector
pub mod Laws
use karpenter_provider_hetzn.Base.{
  ℕ, String, ◌<>◌, List, [], ◌∷◌, map, Option, none, some, Bool, ◌||◌, ◌&&◌, ltb, str_eq,
  if◌then◌else◌, first,
}
use karpenter_provider_hetzn.Base.Dict.{Dict, lookup}
use karpenter_provider_hetzn.Base.Int.{ℤ}
use karpenter_provider_hetzn.Base.Order.{sort_strings}
use karpenter_provider_hetzn.Base.Text.{codes, to_lower, contains, bytes_eq}
use karpenter_provider_hetzn.Errors.{
  Result, ok, err, ◌>>=◌, context, Error, errorf, permanent, text,
}
use karpenter_provider_hetzn.Api.NodeClass.{ImageSelector}

-- hcloud.Image; the creation time in nanoseconds.
pub record Image : Type 0 where
  pub id : ℤ
  pub architecture : String
  pub description : String
  pub created : ℕ

-- hcloud.ImageListOpts
pub record ImageListOpts : Type 0 where
  pub type : String
  pub architecture : String
  pub label_selector : String

abbrev pub ImageClient : Type 0
ImageClient = ImageListOpts → Result (List Image)

-- `m[k]` with the zero value for a missing key.
value_of : Dict String → String → String
unfolding lookup
value_of m k = elim (lookup k m) [ none ↦ "" | some v ↦ v ]

-- `strings.Join(parts, ",")`
join_commas : List String → String
join_commas [] = ""
join_commas (p ∷ []) = p
join_commas (p ∷ q ∷ ps) = p <> ("," <> join_commas (q ∷ ps))

unfoldable pub label_selector_string : Dict String → String
unfolding value_of join_commas sort_strings
label_selector_string m =
    join_commas (map (λ k. k <> ("=" <> value_of m k)) (sort_strings (map (λ e. e.0) m)))

-- The test that both loops make: the description, in lower case, names the family, and the version
-- if the selector has one.
unfoldable pub describes : String → String → Image → Bool
unfolding to_lower contains
describes family version img =
    let desc = to_lower (codes img.description) in
    contains (codes family) desc && (str_eq version "" || contains (codes version) desc)

no_image : String → String → String → String → Error
no_image with_version without version arch =
    if str_eq version ""
    then permanent (errorf without (text arch ∷ []))
    else permanent (errorf with_version (text version ∷ text arch ∷ []))

-- The loop of resolveTalos over the images, with `best` so far.
newest : String → Option Image → List Image → Option Image
newest version best [] = best
newest version best (img ∷ imgs) =
    newest version
      (if describes "talos" version img
        then elim best [
          | none ↦ some img
          | some b ↦ if ltb b.created img.created then some img else some b
        ]
        else best)
      imgs

found : Error → Option Image → Result Image
found e none = err e
found e (some img) = ok img

-- `strings.ToLower(selector.Family) == family`
unfoldable pub family_is : ImageSelector → String → Bool
unfolding bytes_eq to_lower
family_is selector family = bytes_eq (to_lower (codes selector.family)) (codes family)

module _ (client : ImageClient) where
  unfoldable pub resolve_ubuntu : String → String → String → Result Image
  unfolding no_image found first describes context
  resolve_ubuntu version arch ls = do
    images ←
        context "listing ubuntu images: %w" []
          (client (record { type = "system"; architecture = arch; label_selector = ls }))
    found
        (no_image "no ubuntu image found for version %q and arch %q"
          "no ubuntu image found for arch %q" version arch)
        (first (describes "ubuntu" version) images)

  unfoldable pub resolve_talos : String → String → String → Result Image
  unfolding no_image found newest describes context
  resolve_talos version arch ls = do
    images ←
        context "listing talos images: %w" []
          (client (record { type = "snapshot"; architecture = arch; label_selector = ls }))
    found
        (no_image "no talos snapshot found for version %q and arch %q"
          "no talos snapshot found for arch %q" version arch)
        (newest version none images)

  unfoldable pub resolve : ImageSelector → String → Result Image
  unfolding resolve_ubuntu resolve_talos family_is label_selector_string
  resolve selector arch =
      let ls = label_selector_string selector.selector in
      if family_is selector "ubuntu"
      then resolve_ubuntu selector.version arch ls
      else if family_is selector "talos"
      then resolve_talos selector.version arch ls
      else err (
          permanent (
            errorf "unsupported image family %q: must be one of ubuntu, talos"
              (text selector.family ∷ [])))
