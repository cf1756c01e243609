-- ===== src/ImageFamily/Selector.antt =====
-- The label selector does not depend on the iteration order of the map.
use mathlib.Core.List.{Permᴰ}
use mathlib.Core.List.Permᴰ
use mathlib.Core.Path.{fun_ext}
use karpenter_provider_hetzn.Base.{String, ◌<>◌, ◌≡◌, ap, map}
use karpenter_provider_hetzn.Base.Dict.{Dict, NodupKeys}
use karpenter_provider_hetzn.Base.Dict.Order.{lookup-perm}
use karpenter_provider_hetzn.Base.Order.Laws.{sort_strings-perm}
use karpenter_provider_hetzn.Base.Order.{sort_strings}
use karpenter_provider_hetzn.ImageFamily.{label_selector_string, value_of, join_commas}

value_of-perm :
    {m n : Dict String} → Permᴰ m n → NodupKeys m → (k : String) → value_of m k ≡ value_of n k
unfolding value_of
value_of-perm p h k = rw ((lookup-perm p h).1 k, value_of)

-- The same entries, one to a key, listed in any order, give the same selector text.
pub label_selector_string-perm :
    {m n : Dict String}
    → Permᴰ m n
    → NodupKeys m
    → label_selector_string m ≡ label_selector_string n
unfolding label_selector_string
label_selector_string-perm {m} {n} p h =
    rw (sort_strings-perm (Permᴰ.map (λ (e : String × String). e.0) p)) (
      ap
        (λ (value : String → String).
          join_commas (map (λ k. k <> ("=" <> value k)) (sort_strings (map (λ e. e.0) n))))
        (fun_ext (value_of-perm p h)))
