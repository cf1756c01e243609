-- ===== src/InstanceType/Catalogue/Laws.antt =====
-- Filtering by location, and the availability that List reports.
use mathlib.Core.Path.{subst}
use Prim.Native.Char.{code}
use karpenter_provider_hetzn.Base.{
  ℕ, String, ◌≡◌, refl, ap, ◌∙◌, ◌≢◌, inl, inr, Bool, true, false, not, none, some, List, [], ◌∷◌,
  map, arith, str_eq, eq_iff, Bool-cases, Option-cases, is_empty, select, any, first, All, Within,
  select-All, first-some,
}
use karpenter_provider_hetzn.Base.Text.{Bytes, codes, is_digit, has_prefix}
use karpenter_provider_hetzn.Base.Text.Laws.{}
use karpenter_provider_hetzn.Hcloud.{ServerTypeLocationPricing}
use karpenter_provider_hetzn.InstanceType.{Offering, InstanceType, FloatOps}
use karpenter_provider_hetzn.InstanceType.Unavailable.{UnavailableCache, is_unavailable}
use karpenter_provider_hetzn.InstanceType.Catalogue.{
  server_family, filter_by_locations, apply_availability, to_offerings, leading, family_prefixes,
  in_locations, keep_types, with_availability,
}

-- The locations that have a price entry, in order.
pub located : List ServerTypeLocationPricing → List String
located [] = []
located (p ∷ ps) = elim p.location [ none ↦ located ps | some l ↦ l ∷ located ps ]

-- Every location with a price entry is an offering, also where the price is unusable.
pub to_offerings-located :
    (fl : FloatOps) (ps : List ServerTypeLocationPricing)
    → map (λ o. o.zone) (to_offerings fl ps) ≡ located ps
unfolding to_offerings located
to_offerings-located fl [] = refl
to_offerings-located fl (p ∷ ps) = elim (Option-cases p.location) [
  | inl nil ↦ rw (nil, to_offerings, located) (to_offerings-located fl ps)
  | inr (l, at) ↦ rw (at, to_offerings, located) (ap (◌∷◌ l) (to_offerings-located fl ps))
]

is_empty-select {ℓ} :
    {A : Type ℓ} (p : A → Bool) (xs : List A) → is_empty (select p xs) ≡ not (any p xs)
unfolding select any
is_empty-select p [] = refl
is_empty-select p (x ∷ xs) = ground (arith, is_empty-select p xs)

abbrev IsServed : List String → InstanceType → Type 0
IsServed locations it =
    (is_empty it.offerings ≡ false) × All (λ o. in_locations locations o ≡ true) it.offerings

keep_types-IsServed :
    (locations : List String) (its : List InstanceType)
    → All (IsServed locations) (keep_types locations its)
unfolding keep_types
keep_types-IsServed locations [] = tt
keep_types-IsServed locations (it ∷ its) =
    elim (Bool-cases (is_empty (select (in_locations locations) it.offerings))) [
      | inl without ↦ rw (without, keep_types) (keep_types-IsServed locations its)
      | inr offered ↦
          rw (offered, keep_types)
            (
              (offered, select-All (in_locations locations) it.offerings),
              keep_types-IsServed locations its,
            )
    ]

keep_types-Within :
    (locations : List String) (it : InstanceType) (its : List InstanceType)
    → Within it its
    → any (in_locations locations) it.offerings ≡ true
    → Within
        (record it { offerings = select (in_locations locations) it.offerings })
        (keep_types locations its)
unfolding keep_types
keep_types-Within locations it [] w h = w
keep_types-Within locations it (i ∷ its) (inl e) h =
    let offered : any (in_locations locations) i.offerings ≡ true = rw e h in
    let kept : is_empty (select (in_locations locations) i.offerings) ≡ false =
      is_empty-select (in_locations locations) i.offerings ∙ ap not offered in
    rw (kept, keep_types)
      (inl (
        ap
          (λ (x : InstanceType). record x {
            offerings = select (in_locations locations) x.offerings;
          })
          e))
keep_types-Within locations it (i ∷ its) (inr w) h =
    ground (arith, keep_types-Within locations it its w h)

-- For given locations, List keeps the types with an offering there, and of these the offerings there.
pub filter_by_locations_lem :
    (its : List InstanceType) (locations : List String)
    → is_empty locations ≡ false
    → All
        (λ it.
          (is_empty it.offerings ≡ false)
          × All (λ o. any (λ l. str_eq l o.zone) locations ≡ true) it.offerings)
        (filter_by_locations its locations)
      × ((it : InstanceType)
          → Within it its
          → any (λ o. any (λ l. str_eq l o.zone) locations) it.offerings ≡ true
          → Within
              (record it {
                offerings = select (λ o. any (λ l. str_eq l o.zone) locations) it.offerings;
              })
              (filter_by_locations its locations))
unfolding filter_by_locations
filter_by_locations_lem its locations h =
    rw (h, filter_by_locations)
      (keep_types-IsServed locations its, λ it w k. keep_types-Within locations it its w k)

module _ (now : ℕ) (c : UnavailableCache) where
  judged-All :
      (name : String) (os : List Offering)
      → All
          (λ o. o.available ≡ true → is_unavailable now name o.zone c ≡ false)
          (map (with_availability now c name) os)
  unfolding with_availability
  judged-All name [] = tt
  judged-All name (o ∷ os) = ((λ e. ground arith), judged-All name os)

  -- No offering in quarantine is reported as available.
  pub apply_availability_lem :
      (its : List InstanceType)
      → All
          (λ it.
            All
              (λ o. o.available ≡ true → is_unavailable now it.name o.zone c ≡ false)
              it.offerings)
          (apply_availability now c its)
  unfolding apply_availability
  apply_availability_lem [] = tt
  apply_availability_lem (it ∷ its) = (judged-All it.name it.offerings, apply_availability_lem its)

-- The name of a family is the beginning of the server type's name.
first_prefix :
    (prefixes : List String) (name : Bytes) (prefix : String)
    → first (λ p. has_prefix (codes p) name) prefixes ≡ some prefix
    → has_prefix (codes prefix) name ≡ true
first_prefix prefixes name prefix e = first-some (λ p. has_prefix (codes p) name) prefixes e

has_prefix_refl : (s : Bytes) → has_prefix s s ≡ true
unfolding has_prefix
has_prefix_refl [] = refl
has_prefix_refl (c ∷ s) = ground (arith, has_prefix_refl s)

has_prefix-leading : (s : String) → has_prefix (codes (leading s)) (codes s) ≡ true
unfolding has_prefix leading
has_prefix-leading String.[] = refl
has_prefix-leading (String.◌∷◌ c s) = elim (Bool-cases (is_digit (code c))) [
  | inl digit ↦ rw (digit, leading) refl
  | inr other ↦ rw (other, leading) (ground (arith, has_prefix-leading s))
]

first-All {ℓ κ} :
    {A : Type ℓ} (P : A → Type κ) (p : A → Bool) (xs : List A) (a : A)
    → first p xs ≡ some a
    → All P xs
    → P a
unfolding first
first-All P p [] a e h = absurd (cc e)
first-All P p (x ∷ xs) a e h = elim (Bool-cases (p x)) [
  | inl hit ↦
      let same : some x ≡ some a = rw hit at e in let same' : x ≡ a = cc in subst P same' h.0
  | inr miss ↦ first-All P p xs a (rw miss at e) h.1
]

prefixes-ne-empty : All (λ (p : String). p ≢ "") family_prefixes
prefixes-ne-empty = (
  ground (arith, eq_iff "cax" ""),
  (
    ground (arith, eq_iff "cpx" ""),
    (ground (arith, eq_iff "ccx" ""), (ground (arith, eq_iff "cx" ""), tt)),
  ),
)

-- The family of a server type is a beginning of its name, and it is empty only for the empty name.
pub server_family_lem :
    (name : String)
    → (has_prefix (codes (server_family name)) (codes name) ≡ true)
      × (server_family name ≡ "" → name ≡ "")
unfolding server_family
server_family_lem name =
    elim (Option-cases (first (λ prefix. has_prefix (codes prefix) (codes name)) family_prefixes)) [
      | inl other ↦ elim (Bool-cases (str_eq (leading name) "")) [
        | inl digit ↦ rw (other, digit, server_family) (has_prefix_refl (codes name), λ e. e)
        | inr alpha ↦
            rw (other, alpha, server_family)
              (has_prefix-leading name, λ e. absurd (ground (arith, eq_iff (leading name) "")))
      ]
      | inr (prefix, hit) ↦
          rw (hit, server_family)
            (
              first_prefix family_prefixes (codes name) prefix hit,
              λ e.
                  absurd (first-All (λ p. p ≢ "") _ family_prefixes prefix hit prefixes-ne-empty e),
            )
    ]
