-- ===== src/Base/Order/Laws.antt =====
-- The byte order is total, and the sorted list does not depend on the order of the input.
use Prim.Native.String.{String}
use mathlib.Core.Path.{◌≡◌, refl, ◌∙◌}
use mathlib.Core.Logic.{◌⊎◌, inl, inr}
use mathlib.Core.Bool.{true}
use mathlib.Core.List.{List, [], ◌∷◌, Permᴰ}
use native.Mathlib.Omega.{arith}
use text.Mathlib.TextEquality.{Char-path}
use karpenter_provider_hetzn.Base.Text.{Bytes, codes}
use karpenter_provider_hetzn.Base.Order.{bytes_le, str_le, put_sorted, sort_strings}

bytes_le_total : (a b : Bytes) → (bytes_le a b ≡ true) ⊎ (bytes_le b a ≡ true)
unfolding bytes_le
bytes_le_total [] b = inl refl
bytes_le_total (x ∷ a) [] = inr refl
bytes_le_total (x ∷ a) (y ∷ b) = ground (arith, bytes_le_total a b)

bytes_le_antisymm : (a b : Bytes) → bytes_le a b ≡ true → bytes_le b a ≡ true → a ≡ b
unfolding bytes_le
bytes_le_antisymm [] [] h k = refl
bytes_le_antisymm [] (y ∷ b) h k = cc
bytes_le_antisymm (x ∷ a) [] h k = cc
bytes_le_antisymm (x ∷ a) (y ∷ b) h k = ground (arith, bytes_le_antisymm a b)

bytes_le_trans : (a b c : Bytes) → bytes_le a b ≡ true → bytes_le b c ≡ true → bytes_le a c ≡ true
unfolding bytes_le
bytes_le_trans [] b c h k = refl
bytes_le_trans (x ∷ a) [] c h k = cc
bytes_le_trans (x ∷ a) (y ∷ b) [] h k = cc
bytes_le_trans (x ∷ a) (y ∷ b) (z ∷ c) h k = ground (arith, bytes_le_trans a b c)

pub codes-injective : (s t : String) → codes s ≡ codes t → s ≡ t
codes-injective String.[] String.[] e = refl
codes-injective String.[] (String.◌∷◌ d t) e = cc
codes-injective (String.◌∷◌ c s) String.[] e = cc
codes-injective (String.◌∷◌ c s) (String.◌∷◌ d t) e =
    cc (Char-path c d (ground arith), codes-injective s t (ground arith))

pub str_le_total : (s t : String) → (str_le s t ≡ true) ⊎ (str_le t s ≡ true)
unfolding str_le
str_le_total s t = bytes_le_total (codes s) (codes t)

pub str_le_refl : (s : String) → str_le s s ≡ true
str_le_refl s = ground (arith, str_le_total s s)

pub str_le_antisymm : (s t : String) → str_le s t ≡ true → str_le t s ≡ true → s ≡ t
unfolding str_le
str_le_antisymm s t h k = codes-injective s t (bytes_le_antisymm (codes s) (codes t) h k)

pub str_le_trans : (s t u : String) → str_le s t ≡ true → str_le t u ≡ true → str_le s u ≡ true
unfolding str_le
str_le_trans s t u h k = bytes_le_trans (codes s) (codes t) (codes u) h k

put_sorted_comm :
    (s t : String) (l : List String) → put_sorted s (put_sorted t l) ≡ put_sorted t (put_sorted s l)
unfolding put_sorted
put_sorted_comm s t [] = ground (arith, str_le_total s t, str_le_antisymm s t)
put_sorted_comm s t (u ∷ l) = ground (
  arith,
  put_sorted_comm s t l,
  str_le_total s t,
  str_le_antisymm s t,
  str_le_trans s t u,
  str_le_trans t s u,
)

-- `sort.Strings` gives one list for all orders of its input.
pub sort_strings-perm : {xs ys : List String} → Permᴰ xs ys → sort_strings xs ≡ sort_strings ys
unfolding sort_strings
sort_strings-perm Permᴰ.nil = refl
sort_strings-perm (Permᴰ.cons e p) = cc (sort_strings-perm p)
sort_strings-perm (Permᴰ.swap {a = s} {b = t} {l} e f) =
    rw (← e, ← f) (put_sorted_comm s t (sort_strings l))
sort_strings-perm (Permᴰ.trans p q) = sort_strings-perm p ∙ sort_strings-perm q
