-- ===== src/ImageFamily/Laws.antt =====
-- What a resolved image is, and which failures are permanent.
use karpenter_provider_hetzn.Base.{
  false, ◌≤◌, String, ◌≡◌, refl, sym, ap, ◌∙◌, ◌⊎◌, inl, inr, Bool, true, Option, none, some, List,
  [], ◌∷◌, arith, Bool-cases, first, All, Within,
}
use karpenter_provider_hetzn.Errors.{
  Result, Error, is_permanent, ok, err, ◌>>=◌, context, err-injective,
}
use karpenter_provider_hetzn.Api.NodeClass.{ImageSelector}
use karpenter_provider_hetzn.ImageFamily.{
  Image, ImageListOpts, ImageClient, label_selector_string, describes, family_is, resolve_ubuntu,
  resolve, no_image, found,
}

-- `img` is at least as new as every image of the list that passes the test, and as `best`.
abbrev IsNewest : String → Image → List Image → Type 0
IsNewest version img = All (λ x. describes "talos" version x ≡ true → x.created ≤ img.created)

abbrev IsCandidate : String → List Image → Image → Type 0
IsCandidate version imgs img = Within img imgs × (describes "talos" version img ≡ true)

abbrev IsPick : String → List Image → Image → Type 0
IsPick version imgs img = IsCandidate version imgs img × IsNewest version img imgs

first-Within :
    (p : Image → Bool) (imgs : List Image) (img : Image)
    → first p imgs ≡ some img
    → Within img imgs × (p img ≡ true)
unfolding first
first-Within p [] img e = cc
first-Within p (i ∷ imgs) img e = ground (arith, first-Within p imgs img)

found-ok : (e : Error) (o : Option Image) {img : Image} → found e o ≡ ok img → o ≡ some img
unfolding found
found-ok e none h = cc
found-ok e (some i) h = cc

module _ (client : ImageClient) (version arch ls : String) where
  -- An Ubuntu image is one of the listed system images, and its description names the family and the
  -- version.
  pub resolve_ubuntu_lem :
      (imgs : List Image) (img : Image)
      → client (record { type = "system"; architecture = arch; label_selector = ls }) ≡ ok imgs
      → resolve_ubuntu client version arch ls ≡ ok img
      → Within img imgs × (describes "ubuntu" version img ≡ true)
  unfolding resolve_ubuntu
  resolve_ubuntu_lem imgs img listed e =
      first-Within (describes "ubuntu" version) imgs img
        (found-ok _ _ (rw (listed, resolve_ubuntu) at e))

found-err : (d : Error) (o : Option Image) {e : Error} → found d o ≡ err e → d ≡ e
unfolding found
found-err d none h = err-injective h
found-err d (some i) h = cc

no_image-is_permanent :
    (a b version arch : String) → is_permanent (no_image a b version arch) ≡ true
unfolding no_image is_permanent
no_image-is_permanent a b version arch = ground arith

-- The query that the family asks for.
pub record Asks (selector : ImageSelector) (arch : String) (q : ImageListOpts) : Type 0 where
  pub kind :
      ((family_is selector "ubuntu" ≡ true) × (q.type ≡ "system"))
      ⊎ ((family_is selector "ubuntu" ≡ false)
          × (family_is selector "talos" ≡ true)
          × (q.type ≡ "snapshot"))
  pub architecture : q.architecture ≡ arch
  pub labels : q.label_selector ≡ label_selector_string selector.selector

-- With the answer to a query: permanent where it could be read, and as permanent as its failure where not.
abbrev IsFailure : Result (List Image) → Error → Type 0
IsFailure (ok imgs) e = is_permanent e ≡ true
IsFailure (err cause) e = is_permanent e ≡ is_permanent cause

-- Of an unknown family, or with the answer to the query of the family.
abbrev pub IsExplained : ImageClient → ImageSelector → String → Error → Type 0
IsExplained client selector arch e =
    ((family_is selector "ubuntu" ≡ false)
      × (family_is selector "talos" ≡ false)
      × (is_permanent e ≡ true))
    ⊎ ((q : ImageListOpts) × Asks selector arch q × IsFailure (client q) e)

query-IsFailure :
    (answer : Result (List Image)) (f a b version arch : String) (pick : List Image → Option Image)
    (e : Error)
    → (context f [] answer >>= λ imgs. found (no_image a b version arch) (pick imgs)) ≡ err e
    → IsFailure answer e
unfolding context found is_permanent
query-IsFailure (ok imgs) f a b version arch pick e h =
    sym (ap is_permanent (found-err _ _ h)) ∙ no_image-is_permanent a b version arch
query-IsFailure (err cause) f a b version arch pick e h = sym (ap is_permanent (err-injective h))

-- A failed lookup is permanent if the family is unknown, or if the listing for the family, the
-- architecture and the labels could be read; if the listing failed, it is permanent exactly if that
-- failure is.
pub resolve-err :
    (client : ImageClient) (selector : ImageSelector) (arch : String) {e : Error}
    → resolve client selector arch ≡ err e
    → IsExplained client selector arch e
unfolding resolve is_permanent
resolve-err client selector arch {e} h = elim (Bool-cases (family_is selector "ubuntu")) [
  | inl ubuntu ↦ inr (
    record {
      type = "system";
      architecture = arch;
      label_selector = label_selector_string selector.selector;
    },
    record { kind = inl (ubuntu, refl); architecture = refl; labels = refl },
    query-IsFailure _ _ _ _ selector.version arch _ e (rw ubuntu at h),
  )
  | inr other ↦ elim (Bool-cases (family_is selector "talos")) [
    | inl talos ↦ inr (
      record {
        type = "snapshot";
        architecture = arch;
        label_selector = label_selector_string selector.selector;
      },
      record { kind = inr (other, talos, refl); architecture = refl; labels = refl },
      query-IsFailure _ _ _ _ selector.version arch _ e (rw (other, talos) at h),
    )
    | inr neither ↦
        inl (other, neither, sym (ap is_permanent (err-injective (rw (other, neither) at h))))
  ]
]
