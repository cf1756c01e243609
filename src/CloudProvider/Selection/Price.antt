-- ===== src/CloudProvider/Selection/Price.antt =====
-- The selected offering is the cheapest that could be launched.
use karpenter_provider_hetzn.Base.{
  ℕ, ◌≤◌, ◌≡◌, ap, ◌∙◌, inl, inr, true, some, List, arith, Option-cases, select, All, Within,
  Within-select, All-of_select, All-imp,
}
use karpenter_provider_hetzn.Api.NodeClass.{HCloudNodeClass}
use karpenter_provider_hetzn.Api.NodeClaim.{NodeSelectorRequirement}
use karpenter_provider_hetzn.InstanceType.{Offering, InstanceType}
use karpenter_provider_hetzn.CloudProvider.Scheduling.{Scheduling, IsLawful}
use karpenter_provider_hetzn.CloudProvider.Image.{hcloud_arch_for, has_resolved_image}
use karpenter_provider_hetzn.CloudProvider.Selection.{
  empty_selection, cheapest_offering, select_from,
}
use karpenter_provider_hetzn.CloudProvider.Selection.Laws.{IsPreferred, candidate, IsSelected-of}

module _ (S : Scheduling) (L : IsLawful S) (nc : HCloudNodeClass)
    (reqs : List NodeSelectorRequirement) where
  -- An offering that core may launch for the claim.
  abbrev pub IsLaunchable : Offering → Type 0
  IsLaunchable o = (o.available ≡ true) × (L.fits reqs o ≡ true)

  -- A type whose offerings may be launched.
  abbrev pub IsEligible : InstanceType → Type 0
  IsEligible it =
      (S.is_compatible reqs it.requirements ≡ true)
      × (has_resolved_image nc (hcloud_arch_for it) ≡ true)

  pool : InstanceType → List Offering
  pool it = select (L.fits reqs) (select (λ o. o.available) it.offerings)

  cheapest_offering-pool :
      (it : InstanceType) → cheapest_offering S nc reqs it ≡ S.cheapest (pool it)
  unfolding cheapest_offering pool
  cheapest_offering-pool it = ap S.cheapest (
      L.compatible_lem reqs (S.available it.offerings)
      ∙ ap (select (L.fits reqs)) (L.available_lem it.offerings))

  candidate-pool :
      (it : InstanceType) → IsEligible it → candidate S nc reqs it ≡ S.cheapest (pool it)
  unfolding candidate
  candidate-pool it h = rw (h.0, h.1) (cheapest_offering-pool it)

  candidate-eligible :
      (it : InstanceType) (o : Offering)
      → candidate S nc reqs it ≡ some o
      → IsEligible it × (S.cheapest (pool it) ≡ some o)
  unfolding candidate
  candidate-eligible it o e =
      let eligible : IsEligible it = ground arith in
      (eligible, rw (candidate-pool it eligible) at e)

  -- The offering of a candidate is one of its type's, and may be launched.
  candidate-IsLaunchable :
      (it : InstanceType) (o : Offering)
      → candidate S nc reqs it ≡ some o
      → IsEligible it × Within o it.offerings × IsLaunchable o
  unfolding pool
  candidate-IsLaunchable it o e =
      let (eligible, e') = candidate-eligible it o e in
      let (w, fit) = Within-select (L.fits reqs) o _ (L.cheapest-some (pool it) o e').0 in
      let (w', available) = Within-select (λ o. o.available) o it.offerings w in
      (eligible, w', (available, fit))

  pool_bound :
      (it : InstanceType) (bound : ℕ)
      → ((o : Offering) → S.cheapest (pool it) ≡ some o → bound ≤ o.price)
      → All (λ x. bound ≤ x.price) (pool it)
  pool_bound it bound h = elim (Option-cases (S.cheapest (pool it))) [
    | inl empty ↦ rw (L.cheapest-none (pool it) empty) tt
    | inr (o, e) ↦
        All-imp (λ x. o.price ≤ x.price) (λ x. bound ≤ x.price) (pool it)
          (λ x le. let low : bound ≤ o.price = h o e in omega arith)
          (L.cheapest-some (pool it) o e).1
  ]

  eligible_bound :
      (it : InstanceType) (bound : ℕ)
      → ((o : Offering) → candidate S nc reqs it ≡ some o → bound ≤ o.price)
      → IsEligible it
      → All (λ x. IsLaunchable x → bound ≤ x.price) it.offerings
  unfolding pool
  eligible_bound it bound h eligible =
      All-imp _ _ it.offerings (λ x f l. f l.0 l.1)
        (All-of_select (λ o. o.available) _ it.offerings
          (All-of_select (L.fits reqs) (λ x. bound ≤ x.price) _
            (pool_bound it bound (λ o e. h o (candidate-pool it eligible ∙ e)))))

  All-bound :
      (its : List InstanceType) (it : InstanceType) (o : Offering)
      → All (λ i. (o' : Offering) → candidate S nc reqs i ≡ some o' → IsPreferred it o i o') its
      → All (λ i. IsEligible i → All (λ x. IsLaunchable x → o.price ≤ x.price) i.offerings) its
  All-bound its it o h =
      All-imp _ _ its
        (λ i f eligible.
          eligible_bound i o.price
            (λ o' e. let pref : IsPreferred it o i o' = f o' e in omega arith) eligible)
        h

  -- The selected type is one of the catalogue's, its offering is one of its own and may be launched, and
  -- no offering that may be launched, of any type that is compatible and has an image, costs less, for a
  -- scheduling package that filters and picks the cheapest as documented.
  pub select_from-cheapest :
      (its : List InstanceType) (it : InstanceType) (o : Offering)
      → (select_from S nc reqs empty_selection its).best ≡ some (it, o)
      → Within it its
        × IsEligible it
        × Within o it.offerings
        × IsLaunchable o
        × All (λ i. IsEligible i → All (λ x. IsLaunchable x → o.price ≤ x.price) i.offerings) its
  select_from-cheapest its it o e =
      let s = IsSelected-of S nc reqs its it o e in
      let (eligible, w, launchable) = candidate-IsLaunchable it o s.is_candidate in
      (s.listed, eligible, w, launchable, All-bound its it o s.best)
