-- ===== src/Tests/Catalogue.antt =====
-- The catalogue, its cache and the images at concrete inputs.
use karpenter_provider_hetzn.Base.{◌+◌, ◌/◌, String, ◌≡◌, refl, ◌⊎◌, some, List, [], ◌∷◌, ltb}
use karpenter_provider_hetzn.Base.Dict.{Dict, lookup, NodupKeys}
use karpenter_provider_hetzn.Base.Text.{codes, to_lower, bytes_eq}
use karpenter_provider_hetzn.InstanceType.{FloatOps}
use karpenter_provider_hetzn.Errors.{Error, errorf, wrapf, err, context}
use karpenter_provider_hetzn.Api.{architecture_x86}
use karpenter_provider_hetzn.ImageFamily.{label_selector_string, family_is, resolve_talos, resolve}
use karpenter_provider_hetzn.Hcloud.{ServerTypeLocationPricing}
use karpenter_provider_hetzn.InstanceType.Unavailable.{
  UnavailableCache, mark_unavailable, is_unavailable,
}
use karpenter_provider_hetzn.Tests.Fixtures.{floats, catalogue, spec, unreadable_images}
use mathlib.Core.List.{Permᴰ}
use karpenter_provider_hetzn.InstanceType.Cache
use karpenter_provider_hetzn.InstanceType.Cache.{
  cache_ttl, Provider, new_provider, fresh_cache, stale_cache, store, mark, view, Outcome,
  list_locked, list,
}
use karpenter_provider_hetzn.InstanceType.Unavailable.Laws.{
  HasNoNul, is_unavailable-mark_unavailable,
}
use karpenter_provider_hetzn.ImageFamily.Laws.{IsExplained, resolve-err}
use karpenter_provider_hetzn.ImageFamily.Selector.{label_selector_string-perm}

abbrev empty_cache : UnavailableCache
empty_cache = record { ttl = 300; items = [] }

fsn1_no_nul : HasNoNul (codes "cx22")
fsn1_no_nul = (
  (λ e. absurd (cc e)),
  ((λ e. absurd (cc e)), ((λ e. absurd (cc e)), ((λ e. absurd (cc e)), tt))),
)

is_unavailable-mark_unavailable_example :
    ((◌≡◌ {A = String} "cx22" "cx22")
      × (◌≡◌ {A = String} "fsn1" "fsn1")
      × (is_unavailable 200 "cx22" "fsn1" (mark_unavailable 10 "cx22" "fsn1" empty_cache)
          ≡ ltb 200 310))
    ⊎ (¬ ((◌≡◌ {A = String} "cx22" "cx22") × (◌≡◌ {A = String} "fsn1" "fsn1"))
        × (is_unavailable 200 "cx22" "fsn1" (mark_unavailable 10 "cx22" "fsn1" empty_cache)
            ≡ is_unavailable 200 "cx22" "fsn1" empty_cache))
is_unavailable-mark_unavailable_example =
    is_unavailable-mark_unavailable empty_cache 10 200 "cx22" "fsn1" "cx22" "fsn1" fsn1_no_nul
      fsn1_no_nul

abbrev pricings : List ServerTypeLocationPricing
pricings =
    record { location = some "fsn1"; hourly_net = "3.5"; monthly_net = "" }
    ∷ record { location = some "nbg1"; hourly_net = ""; monthly_net = "x" }
    ∷ []

-- Division by 730, rounded to the nearest value, and halves down.
abbrev rounding : FloatOps
rounding = record floats { div_730 = λ v. (v + 364) / 730 }

abbrev warm : Cache.Provider
warm = record Cache.new_provider { cached_types = some catalogue; cache_expiry = 100 }

abbrev unread : Error
unread = wrapf "listing talos images: %w" [] (errorf "unavailable" [])

not_read : resolve unreadable_images spec.image_selector architecture_x86 ≡ err unread
unfolding resolve resolve_talos family_is to_lower bytes_eq context
not_read = refl

resolve-err_example : IsExplained unreadable_images spec.image_selector architecture_x86 unread
resolve-err_example = resolve-err unreadable_images spec.image_selector architecture_x86 not_read

abbrev labels_ab : Dict String
labels_ab = ("a", "1") ∷ ("b", "2") ∷ []

abbrev labels_ba : Dict String
labels_ba = ("b", "2") ∷ ("a", "1") ∷ []

labels_ab-NodupKeys : NodupKeys labels_ab
unfolding lookup
labels_ab-NodupKeys = (refl, (refl, tt))

label_selector_string-perm_example :
    label_selector_string labels_ab ≡ label_selector_string labels_ba
label_selector_string-perm_example =
    label_selector_string-perm (Permᴰ.swap refl refl) labels_ab-NodupKeys
