-- ===== src/Base/Text.antt =====
-- Byte strings and the `strings` and `strconv` functions that the program calls. Texts are read
-- as ASCII: `to_lower` changes the letters A to Z only.
pub mod Laws
use Prim.Native.Nat.{ℕ, zero, suc, ◌+◌, ◌-◌, ◌*◌, ◌/◌, ◌%◌, ◌≤◌, ◌<◌}
use Prim.Native.Char.{code}
use Prim.Native.String.{String}
use mathlib.Core.Path.{◌≡◌, refl}
use mathlib.Core.Bool.{Bool, true, false, ◌&&◌, ◌||◌}
use mathlib.Core.List.{List, [], ◌∷◌, ◌++◌, map, reverse}
use mathlib.Core.Option.{Option, none, some}
use native.Mathlib.Omega.{arith}
use karpenter_provider_hetzn.Base.Tests.{ltb, leb, ◌==◌, if◌then◌else◌}
use karpenter_provider_hetzn.Base.Int.{ℤ, pos, negsuc, int64_half, IsInt64}

abbrev pub Bytes : Type 0
Bytes = List ℕ

abbrev pub codes : String → Bytes
codes String.[] = []
codes (String.◌∷◌ letter rest) = code letter ∷ codes rest

abbrev pub is_digit : ℕ → Bool
is_digit c = leb b'0' c && leb c b'9'

lower_byte : ℕ → ℕ
lower_byte c = if leb b'A' c && leb c b'Z' then c + 32 else c

-- `strings.ToLower`
unfoldable pub to_lower : Bytes → Bytes
unfolding lower_byte
to_lower s = map lower_byte s

-- `a == b`
unfoldable pub bytes_eq : Bytes → Bytes → Bool
bytes_eq [] [] = true
bytes_eq (c ∷ a) (d ∷ b) = c == d && bytes_eq a b
bytes_eq _ _ = false

-- `strings.TrimPrefix(s, p)` where `strings.HasPrefix(s, p)`, and `none` where not.
unfoldable pub strip_prefix : Bytes → Bytes → Option Bytes
strip_prefix [] s = some s
strip_prefix (c ∷ p) [] = none
strip_prefix (c ∷ p) (d ∷ s) = if c == d then strip_prefix p s else none

-- `strings.HasPrefix(s, p)`
unfoldable pub has_prefix : Bytes → Bytes → Bool
has_prefix [] s = true
has_prefix (c ∷ p) [] = false
has_prefix (c ∷ p) (d ∷ s) = c == d && has_prefix p s

-- `strings.Contains(s, t)`
unfoldable pub contains : Bytes → Bytes → Bool
unfolding has_prefix
contains t [] = has_prefix t []
contains t (c ∷ s) = has_prefix t (c ∷ s) || contains t s

is_space : ℕ → Bool
is_space c = c == b' ' || leb 9 c && leb c 13

drop_spaces : Bytes → Bytes
unfolding is_space
drop_spaces [] = []
drop_spaces (c ∷ s) = let rest = drop_spaces s in if is_space c then rest else c ∷ s

-- `strings.TrimSpace`
unfoldable pub trim_space : Bytes → Bytes
unfolding drop_spaces
trim_space s = reverse (drop_spaces (reverse (drop_spaces s)))

-- The digits of `n`, before `out`; one round for each digit, so that `n + 1` rounds are enough.
digits : ℕ → ℕ → Bytes → Bytes
digits zero n out = out
digits (suc fuel) n out =
    let more = digits fuel (n / 10) ((b'0' + n % 10) ∷ out) in
    if ltb n 10 then (b'0' + n) ∷ out else more

format_nat : ℕ → Bytes
unfolding digits
format_nat n = digits (suc n) n []

-- `strconv.FormatInt(n, 10)`
unfoldable pub format_int : ℤ → Bytes
unfolding format_nat
format_int (pos n) = format_nat n
format_int (negsuc n) = b'-' ∷ format_nat (suc n)

-- Decimal digits and nothing else.
read_digits : Bytes → ℕ → Option ℕ
read_digits [] n = some n
read_digits (c ∷ s) n = if is_digit c then read_digits s (n * 10 + (c - b'0')) else none

read_nat : Bytes → Option ℕ
unfolding read_digits
read_nat [] = none
read_nat (c ∷ s) = read_digits (c ∷ s) 0

positive : Option ℕ → Option ℤ
positive none = none
positive (some n) = if ltb n int64_half then some (pos n) else none

negative : Option ℕ → Option ℤ
negative none = none
negative (some zero) = some (pos zero)
negative (some (suc n)) = if ltb n int64_half then some (negsuc n) else none

-- `strconv.ParseInt(s, 10, 64)`: an optional sign and at least one digit; `none` on a syntax error
-- and on a value out of range.
unfoldable pub parse_int : Bytes → Option ℤ
unfolding read_nat positive negative
parse_int [] = none
parse_int (c ∷ s) =
    if c == b'-'
    then negative (read_nat s)
    else if c == b'+'
    then positive (read_nat s)
    else positive (read_nat (c ∷ s))
