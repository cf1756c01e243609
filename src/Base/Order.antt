-- ===== src/Base/Order.antt =====
-- Go's byte order of strings, and `sort.Strings`.
pub mod Laws
use Prim.Native.Nat.{ℕ}
use Prim.Native.String.{String}
use mathlib.Core.Bool.{Bool, true, false, not, ◌||◌, ◌&&◌}
use mathlib.Core.List.{List, [], ◌∷◌}
use karpenter_provider_hetzn.Base.Tests.{ltb, ◌==◌, if◌then◌else◌}
use karpenter_provider_hetzn.Base.Text.{Bytes, codes}

-- `a <= b`
unfoldable pub bytes_le : Bytes → Bytes → Bool
bytes_le [] b = true
bytes_le (x ∷ a) [] = false
bytes_le (x ∷ a) (y ∷ b) = ltb x y || (x == y && bytes_le a b)

pub str_le : String → String → Bool
str_le s t = bytes_le (codes s) (codes t)

-- `s < t`
abbrev pub str_lt : String → String → Bool
str_lt s t = not (str_le t s)

unfoldable pub put_sorted : String → List String → List String
unfolding str_le bytes_le
put_sorted s [] = s ∷ []
put_sorted s (t ∷ ts) = if str_le s t then s ∷ t ∷ ts else t ∷ put_sorted s ts

-- `sort.Strings`
unfoldable pub sort_strings : List String → List String
unfolding put_sorted
sort_strings [] = []
sort_strings (s ∷ ss) = put_sorted s (sort_strings ss)
