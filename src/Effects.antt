-- ===== src/Effects.antt =====
-- Calls of remote APIs: a computation that reads and changes the remote state `W` and fails with an
-- error. An error ends the computation and keeps the changes made so far.
use karpenter_provider_hetzn.Base.{}
use karpenter_provider_hetzn.Errors.{Error, Result, ok, err}

abbrev pub Eff {ℓ} : Type 0 → Type ℓ → Type ℓ
Eff W A = W → Result A × W

module _ {W : Type 0} where
  abbrev pub then_run {ℓ κ} :
      {A : Type ℓ} {B : Type κ} → Result A × W → (A → Eff W B) → Result B × W
  then_run (ok a, w) f = f a w
  then_run (err e, w) f = (err e, w)

  infixl 5 ◌>>=◌
  abbrev pub ◌>>=◌ {ℓ κ} : {A : Type ℓ} {B : Type κ} → Eff W A → (A → Eff W B) → Eff W B
  ◌>>=◌ m f w = then_run (m w) f

  abbrev pub return {ℓ} : {A : Type ℓ} → A → Eff W A
  return a w = (ok a, w)

  abbrev pub fail {ℓ} : {A : Type ℓ} → Error → Eff W A
  fail e w = (err e, w)

  abbrev pub rewrap {ℓ} : {A : Type ℓ} → (Error → Error) → Result A × W → Result A × W
  rewrap f (ok a, v) = (ok a, v)
  rewrap f (err e, v) = (err (f e), v)

  -- A call whose error is changed on the way out.
  abbrev pub mapping_error {ℓ} : {A : Type ℓ} → (Error → Error) → Eff W A → Eff W A
  mapping_error f m w = rewrap f (m w)

  -- What holds after the first computation carries over to the whole.
  pub >>=-post {ℓ κ ι ι'} :
      {A : Type ℓ} {B : Type κ} (P : Result A × W → Type ι) (Q : Result B × W → Type ι')
      (m : Eff W A) (f : A → Eff W B) (w : W)
      → P (m w)
      → ((a : A) (v : W) → P (ok a, v) → Q (f a v))
      → ((e : Error) (v : W) → P (err e, v) → Q (err e, v))
      → Q ((m >>= f) w)
  >>=-post {A} {B} P Q m f w h good bad = go (m w) h
    where
      go : (r : Result A × W) → P r → Q (then_run r f)
      go (ok a, v) h' = good a v h'
      go (err e, v) h' = bad e v h'

  pub mapping_error-post {ℓ ι ι'} :
      {A : Type ℓ} (P : Result A × W → Type ι) (Q : Result A × W → Type ι') (g : Error → Error)
      (m : Eff W A) (w : W)
      → P (m w)
      → ((a : A) (v : W) → P (ok a, v) → Q (ok a, v))
      → ((e : Error) (v : W) → P (err e, v) → Q (err (g e), v))
      → Q (mapping_error g m w)
  mapping_error-post {A} P Q g m w h good bad = go (m w) h
    where
      go : (r : Result A × W) → P r → Q (rewrap g r)
      go (ok a, v) h' = good a v h'
      go (err e, v) h' = bad e v h'
