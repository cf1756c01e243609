-- ===== src/CloudProvider/Launch/Outcomes.antt =====
-- What Create has done when it returns: the servers, the NodeClaim, and the offerings in quarantine.
use karpenter_provider_hetzn.Base.{
  ℕ, ◌+◌, ◌<◌, String, ◌≡◌, refl, ap, ◌∙◌, ◌⊎◌, inl, inr, true, false, none, some, List, [], arith,
  str_eq, if◌then◌else◌, lt→ltb, All, All-imp,
}
use karpenter_provider_hetzn.Base.Dict.{
  Dict, lookup, insert, NodupKeys, lookup-insert, lookup-merge,
}
use karpenter_provider_hetzn.Base.Text.{codes}
use karpenter_provider_hetzn.Errors.{Error, wrapf, is_insufficient_capacity, Result, ok, err}
use karpenter_provider_hetzn.Metrics.{Metrics}
use karpenter_provider_hetzn.Api.{label_topology_zone, capacity_type_label_key}
use karpenter_provider_hetzn.Api.NodeClaim.{NodeClaim}
use karpenter_provider_hetzn.ImageFamily.{ImageClient}
use karpenter_provider_hetzn.Hcloud.{Server}
use karpenter_provider_hetzn.Instance.{Provider}
use karpenter_provider_hetzn.InstanceType.{Offering, InstanceType, FloatOps}
use karpenter_provider_hetzn.CloudProvider.{KubeClient}
use karpenter_provider_hetzn.CloudProvider.Scheduling.{Scheduling}
use karpenter_provider_hetzn.InstanceType.Unavailable.{
  UnavailableCache, mark_unavailable, is_unavailable,
}
use karpenter_provider_hetzn.Instance.Lifecycle
use karpenter_provider_hetzn.Instance.Lifecycle.Creation.{
  Counts, IsWaitError, Waited, Outcome, create_server_count,
}
use karpenter_provider_hetzn.Instance.Lifecycle.Creation
use karpenter_provider_hetzn.InstanceType.Cache
use karpenter_provider_hetzn.InstanceType.Unavailable.Laws.{
  HasNoNul, is_unavailable-mark_unavailable,
}
use karpenter_provider_hetzn.InstanceType.Catalogue.{filter_by_locations, apply_availability}
use karpenter_provider_hetzn.InstanceType.Catalogue.Laws.{apply_availability_lem}
use karpenter_provider_hetzn.CloudProvider.Launch.{State, Moment, launched, create}
use karpenter_provider_hetzn.CloudProvider.Claims.{type_labels, claim_labels, create_opts}
use karpenter_provider_hetzn.CloudProvider.Launch.Laws.{Stops, create-Reaches}

-- For a claim with one label to a key, a label of the new NodeClaim is the claim's own; for a key without one it is the zone or the
-- capacity type of the offering, and else the label of the instance type.
pub lookup-claim_labels :
    (it : InstanceType) (o : Offering) (labels : Dict String) (k : String)
    → NodupKeys labels
    → lookup k (claim_labels it o labels) ≡ elim (lookup k labels) [
      | some v ↦ some v
      | none ↦
          if str_eq capacity_type_label_key k
          then some o.capacity_type
          else if str_eq label_topology_zone k
          then some o.zone
          else lookup k (type_labels it.requirements)
    ]
unfolding claim_labels
lookup-claim_labels it o labels k h = ground (
  arith,
  lookup-merge k labels
      (insert capacity_type_label_key o.capacity_type
        (insert label_topology_zone o.zone (type_labels it.requirements)))
      h,
  lookup-insert capacity_type_label_key k o.capacity_type
      (insert label_topology_zone o.zone (type_labels it.requirements)),
  lookup-insert label_topology_zone k o.zone (type_labels it.requirements),
)

module _ {W : Type 0} (kube : KubeClient) (S : Scheduling) (fl : FloatOps) (images : ImageClient)
    (p : Provider W) (moment : Moment) (claim : NodeClaim) where
  abbrev Answer : Type 0
  Answer = Result NodeClaim × State W

  abbrev creating : State W → Answer
  creating s = create kube S fl images p moment claim s

  module _ (count : W → ℕ) (c : Counts p count) where
    -- The number of servers after Create, if there were `n` before.
    abbrev pub Left : ℕ → Answer → Type 0
    Left n (ok created, v) = count v.remote ≡ n + 1
    Left n (err e, v) =
        (count v.remote ≡ n)
        ⊎ ((count v.remote ≡ n + 1)
            × (cause : Error) × IsWaitError p count c claim.name cause
            × (e ≡ wrapf "creating server: %w" [] cause))

    launched-Left :
        (n : ℕ) (it : InstanceType) (o : Offering) (r : Result Server × W) (m : Metrics)
        (before : State W)
        → Creation.Outcome p count c claim.name n r
        → Left n (launched kube S fl images p moment claim it o (r.0, r.1, m) before)
    unfolding launched
    launched-Left n it o (ok server, w) m before h = h
    launched-Left n it o (err e, w) m before (inl h) = inl h
    launched-Left n it o (err e, w) m before (inr (h, wait)) = inr (h, e, wait, refl)

    stopped-Left :
        (s : State W) (r : Answer)
        → Stops kube S fl images p moment claim s r
        → Left (count s.remote) r
    stopped-Left s (ok created, v) (e, h, same) = absurd (cc h)
    stopped-Left s (err d, v) (e, h, same) = inl (ap count same)

    -- If the API adds one server for a creation that it grants and none otherwise, a Create that returns a
    -- NodeClaim leaves exactly one server more. One that fails leaves none, but for a failed wait for the
    -- actions of the new server, which stays.
    pub create_count : (s : State W) → Left (count s.remote) (creating s)
    unfolding Lifecycle.create create_opts
    create_count s = elim (create-Reaches kube S fl images p moment claim s) [
      | inl stops ↦ stopped-Left s (creating s) stops
      | inr reaches ↦
          let opts =
            create_opts claim reaches.node_class reaches.it reaches.offering reaches.image
              reaches.user_data in
          rw (reaches.result, ← reaches.untouched)
            (launched-Left (count reaches.before.remote) reaches.it reaches.offering
              (Lifecycle.create_server p opts reaches.before.remote) _ reaches.before
              (create_server_count p count c opts reaches.before.remote))
    ]

  is_unavailable-marked :
      (c : UnavailableCache) (at now : ℕ) (t l : String)
      → HasNoNul (codes t)
      → now < at + c.ttl
      → is_unavailable now t l (mark_unavailable at t l c) ≡ true
  is_unavailable-marked c at now t l h soon =
      elim (is_unavailable-mark_unavailable c at now t l t l h h) [
        | inl (_, _, e) ↦ e ∙ lt→ltb now (at + c.ttl) soon
        | inr (differ, e) ↦ absurd (differ (refl, refl))
      ]

  -- After a creation that failed for lack of capacity, and until the TTL has passed, no listing reports
  -- the offering that failed as available, if the name of its type has no NUL byte.
  pub launched-quarantine :
      (it : InstanceType) (o : Offering) (e : Error) (w : W) (m : Metrics) (before : State W)
      (now : ℕ) (locations : List String) (types : List InstanceType)
      → is_insufficient_capacity e ≡ true
      → HasNoNul (codes it.name)
      → now < moment.failed_at + before.types.unavailable.ttl
      → All
          (λ listed.
            All
              (λ offering.
                offering.available ≡ true → ¬ ((it.name ≡ listed.name) × (o.zone ≡ offering.zone)))
              listed.offerings)
          (Cache.view now locations
            (launched kube S fl images p moment claim it o (err e, w, m) before).1.types
            types)
  unfolding launched Cache.mark Cache.view
  launched-quarantine it o e w m before now locations types capacity no_nul soon =
      let c = mark_unavailable moment.failed_at it.name o.zone before.types.unavailable in
      let gone : is_unavailable now it.name o.zone c ≡ true =
        is_unavailable-marked before.types.unavailable moment.failed_at now it.name o.zone no_nul
          soon in
      rw capacity (
        All-imp
          (λ listed.
            All (λ x. x.available ≡ true → is_unavailable now listed.name x.zone c ≡ false)
              listed.offerings)
          (λ listed.
            All (λ x. x.available ≡ true → ¬ ((it.name ≡ listed.name) × (o.zone ≡ x.zone)))
              listed.offerings)
          (apply_availability now c (filter_by_locations types locations))
          (λ listed.
            All-imp (λ x. x.available ≡ true → is_unavailable now listed.name x.zone c ≡ false)
              (λ x. x.available ≡ true → ¬ ((it.name ≡ listed.name) × (o.zone ≡ x.zone)))
              listed.offerings
              (λ x quiet on (same_name, same_zone). cc (quiet on, gone, same_name, same_zone)))
          (apply_availability_lem now c (filter_by_locations types locations)))
