-- ===== src/Base/Text/Laws.antt =====
-- `strconv` round trip, and prefixes.
use karpenter_provider_hetzn.Base.Tests.{◌==◌, Bool-cases}
use Prim.Native.Nat.{ℕ, zero, suc, ◌+◌, ◌/◌, ◌%◌, ◌<◌}
use mathlib.Core.Path.{◌≡◌, refl}
use mathlib.Core.Logic.{◌⊎◌, ◌↔◌, inl, inr}
use mathlib.Core.Bool.{true}
use mathlib.Core.List.{[], ◌∷◌, ◌++◌}
use mathlib.Core.Option.{Option, none, some}
use native.Mathlib.Omega.{arith}
use karpenter_provider_hetzn.Base.Int.{ℤ, pos, negsuc, IsInt64}
use karpenter_provider_hetzn.Base.Text.{
  Bytes, bytes_eq, digits, read_digits, read_nat, positive, negative, format_nat, format_int,
  parse_int, strip_prefix, is_digit,
}

pub bytes_eq_iff : (a b : Bytes) → (bytes_eq a b ≡ true) ↔ (a ≡ b)
unfolding bytes_eq
bytes_eq_iff [] [] = ground arith
bytes_eq_iff [] (d ∷ b) = ground arith
bytes_eq_iff (c ∷ a) [] = ground arith
bytes_eq_iff (c ∷ a) (d ∷ b) = let (to, from) = bytes_eq_iff a b in ground arith

pub strip_prefix-append : (p s : Bytes) → strip_prefix p (p ++ s) ≡ some s
unfolding strip_prefix
strip_prefix-append [] s = refl
strip_prefix-append (c ∷ p) s = ground (arith, strip_prefix-append p s)

pub append-strip_prefix :
    (p s : Bytes) {rest : Bytes} → strip_prefix p s ≡ some rest → s ≡ p ++ rest
unfolding strip_prefix
append-strip_prefix [] s e = ground arith
append-strip_prefix (c ∷ p) [] e = cc
append-strip_prefix (c ∷ p) (d ∷ s) {rest} e = ground (arith, append-strip_prefix p s {rest = rest})

read_digits-digits :
    (fuel n : ℕ) (out : Bytes) → n < fuel → read_digits (digits fuel n out) 0 ≡ read_digits out n
unfolding digits read_digits
read_digits-digits zero n out h = elim h [ ]
read_digits-digits (suc fuel) n out h =
    ground (arith, read_digits-digits fuel (n / 10) ((b'0' + n % 10) ∷ out))

-- The text of a number is not empty and begins with a digit.
BeginsWithDigit : Bytes → Type 0
BeginsWithDigit [] = ⊥
BeginsWithDigit (c ∷ s) = is_digit c ≡ true

digits-BeginsWithDigit :
    (fuel n : ℕ) (out : Bytes)
    → (0 < fuel) ⊎ BeginsWithDigit out
    → BeginsWithDigit (digits fuel n out)
unfolding digits BeginsWithDigit
digits-BeginsWithDigit zero n out (inl h) = elim h [ ]
digits-BeginsWithDigit zero n out (inr h) = h
digits-BeginsWithDigit (suc fuel) n out h =
    ground (arith, digits-BeginsWithDigit fuel (n / 10) ((b'0' + n % 10) ∷ out))

read_nat_of_digit : (s : Bytes) → BeginsWithDigit s → read_nat s ≡ read_digits s 0
unfolding read_nat BeginsWithDigit
read_nat_of_digit [] h = elim h [ ]
read_nat_of_digit (c ∷ s) h = refl

parse_int_of_digit : (s : Bytes) → BeginsWithDigit s → parse_int s ≡ positive (read_digits s 0)
unfolding parse_int BeginsWithDigit
parse_int_of_digit [] h = elim h [ ]
parse_int_of_digit (c ∷ s) h = ground arith

format_nat-BeginsWithDigit : (n : ℕ) → BeginsWithDigit (format_nat n)
unfolding format_nat
format_nat-BeginsWithDigit n = digits-BeginsWithDigit (suc n) n [] (inl (omega arith))

read_digits-format_nat : (n : ℕ) → read_digits (format_nat n) 0 ≡ some n
unfolding format_nat read_digits
read_digits-format_nat n = read_digits-digits (suc n) n [] (omega arith)

-- Reading back the text of any int64 gives the number.
pub parse_int-format_int : (i : ℤ) → IsInt64 i → parse_int (format_int i) ≡ some i
unfolding format_int positive negative parse_int
parse_int-format_int (pos n) h =
    rw (parse_int_of_digit (format_nat n) (format_nat-BeginsWithDigit n), read_digits-format_nat)
      (ground arith)
parse_int-format_int (negsuc n) h =
    rw
      (
        read_nat_of_digit (format_nat (suc n)) (format_nat-BeginsWithDigit (suc n)),
        read_digits-format_nat,
      )
      (ground arith)

positive_range : (o : Option ℕ) (i : ℤ) → positive o ≡ some i → IsInt64 i
unfolding positive
positive_range o (pos n) e = ground arith
positive_range o (negsuc n) e = ground arith

negative_range : (o : Option ℕ) (i : ℤ) → negative o ≡ some i → IsInt64 i
unfolding negative
negative_range none i e = cc
negative_range (some zero) (pos n) e = ground arith
negative_range (some zero) (negsuc n) e = ground arith
negative_range (some (suc m)) (pos n) e = ground arith
negative_range (some (suc m)) (negsuc n) e = ground arith

pub parse_int-IsInt64 : (s : Bytes) (i : ℤ) → parse_int s ≡ some i → IsInt64 i
unfolding parse_int
parse_int-IsInt64 [] i e = cc
parse_int-IsInt64 (c ∷ s) i e = elim (Bool-cases (c == b'-')) [
  | inl minus ↦ negative_range (read_nat s) i (rw minus at e)
  | inr other ↦ elim (Bool-cases (c == b'+')) [
    | inl plus ↦ positive_range (read_nat s) i (rw (other, plus) at e)
    | inr digit ↦ positive_range (read_nat (c ∷ s)) i (rw (other, digit) at e)
  ]
]
