-- ===== src/InstanceType/Catalogue/Prices.antt =====
-- Which offerings of the catalogue are available, and at what price.
use karpenter_provider_hetzn.Base.{ℕ, ◌≤◌, ◌<◌, ◌⊎◌, ◌≡◌, true, false}
use karpenter_provider_hetzn.InstanceType.{Offering, FloatOps}

-- A 730th of the 365 smallest float64 values above zero is rounded to zero, of the larger ones it is not.
abbrev pub smallest_kept : ℕ
smallest_kept = 366

module _ (fl : FloatOps) (keeps : (v : ℕ) → smallest_kept ≤ v → 0 < fl.div_730 v) where
  -- Above zero, or a 730th of a price above zero that is too small to be divided.
  abbrev pub IsPrice : ℕ → Type 0
  IsPrice price = (0 < price) ⊎ ((v : ℕ) × (0 < v) × (v < smallest_kept) × (price ≡ fl.div_730 v))

  abbrev pub IsPriced : Offering → Type 0
  IsPriced o = (o.available ≡ true → IsPrice o.price) × (o.available ≡ false → o.price ≡ 0)
