-- ===== src/Base/Lists.antt =====
-- Lists: lengths by native numbers, quantifiers that compute, and Go's loops over a slice.
use Prim.Native.Nat.{ℕ, suc}
use mathlib.Core.Path.{◌≡◌, refl}
use mathlib.Core.Logic.{◌⊎◌, ◌↔◌, inl, inr}
use mathlib.Core.Bool.{Bool, true, false, ◌&&◌, ◌||◌}
use mathlib.Core.List.{List, [], ◌∷◌, map}
use mathlib.Core.Option.{Option, none, some}
use native.Mathlib.Omega.{arith}
use karpenter_provider_hetzn.Base.Tests.{if◌then◌else◌, Bool-cases}

module _ {ℓ} {A : Type ℓ} where
  abbrev pub length : List A → ℕ
  length [] = 0
  length (x ∷ xs) = suc (length xs)

  abbrev pub is_empty : List A → Bool
  is_empty [] = true
  is_empty (x ∷ xs) = false

  -- The elements that pass a test, in order.
  unfoldable pub select : (A → Bool) → List A → List A
  select p [] = []
  select p (x ∷ xs) = if p x then x ∷ select p xs else select p xs

  unfoldable pub any : (A → Bool) → List A → Bool
  any p [] = false
  any p (x ∷ xs) = p x || any p xs

  unfoldable pub all : (A → Bool) → List A → Bool
  all p [] = true
  all p (x ∷ xs) = p x && all p xs

  -- The first element that passes a test.
  unfoldable pub first : (A → Bool) → List A → Option A
  first p [] = none
  first p (x ∷ xs) = if p x then some x else first p xs

  abbrev pub All {κ} : (A → Type κ) → List A → Type κ
  All P [] = Unit
  All P (x ∷ xs) = P x × All P xs

-- Membership that a proof may take apart: the place where the element stands.
abbrev pub Within : {A : Type 0} → A → List A → Type 0
Within a [] = ⊥
Within a (x ∷ xs) = (x ≡ a) ⊎ Within a xs

module _ {ℓ} {A : Type ℓ} (p : A → Bool) where
  pub select-All : (xs : List A) → All (λ x. p x ≡ true) (select p xs)
  unfolding select
  select-All [] = tt
  select-All (x ∷ xs) = ground (arith, select-All xs)

  pub All-select {κ} : (P : A → Type κ) (xs : List A) → All P xs → All P (select p xs)
  unfolding select
  All-select P [] h = tt
  All-select P (x ∷ xs) h = elim (Bool-cases (p x)) [
    | inl e ↦ rw e (h.0, All-select P xs h.1)
    | inr e ↦ rw e (All-select P xs h.1)
  ]

  pub all_iff : (xs : List A) → (all p xs ≡ true) ↔ All (λ x. p x ≡ true) xs
  unfolding all
  all_iff [] = (λ e. tt, λ u. refl)
  all_iff (x ∷ xs) = let (to, from) = all_iff xs in ground arith

  pub first-some : (xs : List A) {x : A} → first p xs ≡ some x → p x ≡ true
  unfolding first
  first-some (y ∷ ys) {x} e = ground (arith, first-some ys {x = x})
  first-some [] e = cc

  pub first-none_iff : (xs : List A) → (first p xs ≡ none) ↔ (any p xs ≡ false)
  unfolding first any
  first-none_iff [] = ground arith
  first-none_iff (x ∷ xs) = let (to, from) = first-none_iff xs in ground arith

pub All-map {ℓ κ ι} :
    {A : Type ℓ} {B : Type κ} (f : A → B) (P : B → Type ι) (xs : List A)
    → All (λ x. P (f x)) xs
    → All P (map f xs)
All-map f P [] h = tt
All-map f P (x ∷ xs) h = (h.0, All-map f P xs h.1)

pub All-of_Within {κ} :
    {A : Type 0} (P : A → Type κ) (a : A) (xs : List A) → Within a xs → All P xs → P a
All-of_Within P a [] w h = absurd w
All-of_Within P a (x ∷ xs) (inl e) h = rw (← e) h.0
All-of_Within P a (x ∷ xs) (inr w) h = All-of_Within P a xs w h.1

pub All-by_Within {κ} :
    {A : Type 0} (P : A → Type κ) (xs : List A) → ((a : A) → Within a xs → P a) → All P xs
All-by_Within P [] h = tt
All-by_Within P (x ∷ xs) h = (h x (inl refl), All-by_Within P xs (λ a w. h a (inr w)))

pub Within-select :
    {A : Type 0} (p : A → Bool) (a : A) (xs : List A)
    → Within a (select p xs)
    → Within a xs × (p a ≡ true)
unfolding select
Within-select p a [] w = absurd w
Within-select p a (x ∷ xs) w = elim (Bool-cases (p x)) [
  | inl e ↦ elim (rw e at w) [
    | inl same ↦ (inl same, rw (← same) e)
    | inr w' ↦ let (there, holds) = Within-select p a xs w' in (inr there, holds)
  ]
  | inr e ↦ let (there, holds) = Within-select p a xs (rw e at w) in (inr there, holds)
]

pub All-of_select {ℓ κ} :
    {A : Type ℓ} (p : A → Bool) (P : A → Type κ) (xs : List A)
    → All P (select p xs)
    → All (λ x. p x ≡ true → P x) xs
unfolding select
All-of_select p P [] h = tt
All-of_select p P (x ∷ xs) h = elim (Bool-cases (p x)) [
  | inl e ↦
      let h' : P x × All P (select p xs) = rw e at h in ((λ t. h'.0), All-of_select p P xs h'.1)
  | inr e ↦ ((λ t. absurd (cc (e, t))), All-of_select p P xs (rw e at h))
]

pub All-imp {ℓ κ ι} :
    {A : Type ℓ} (P : A → Type κ) (Q : A → Type ι) (xs : List A)
    → ((x : A) → P x → Q x)
    → All P xs
    → All Q xs
All-imp P Q [] f h = tt
All-imp P Q (x ∷ xs) f h = (f x h.0, All-imp P Q xs f h.1)

pub first-Within :
    {A : Type 0} (p : A → Bool) (xs : List A) (a : A)
    → first p xs ≡ some a
    → Within a xs × (p a ≡ true)
unfolding first
first-Within p [] a e = cc
first-Within p (x ∷ xs) a e = elim (Bool-cases (p x)) [
  | inl hit ↦
      let found : some x ≡ some a = rw hit at e in
      let same : x ≡ a = cc in (inl same, rw (← same) hit)
  | inr miss ↦ let (w, h) = first-Within p xs a (rw miss at e) in (inr w, h)
]

pub first-of_any {ℓ} :
    {A : Type ℓ} (p : A → Bool) (xs : List A) → any p xs ≡ true → (a : A) × (first p xs ≡ some a)
unfolding first any
first-of_any p [] h = absurd (cc h)
first-of_any p (x ∷ xs) h = elim (Bool-cases (p x)) [
  | inl hit ↦ (x, rw hit)
  | inr miss ↦ rw miss (first-of_any p xs (rw miss at h))
]

-- A test for equality with `t` finds `t`.
pub any_iff :
    {A : Type 0} (p : A → Bool) (t : A)
    → ((x : A) → (p x ≡ true) ↔ (x ≡ t))
    → (xs : List A) → (any p xs ≡ true) ↔ Within t xs
unfolding any
any_iff p t h [] = ground arith
any_iff p t h (x ∷ xs) = let (to, from) = any_iff p t h xs in let (to', from') = h x in ground arith
