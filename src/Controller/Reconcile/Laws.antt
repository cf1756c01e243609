-- ===== src/Controller/Reconcile/Laws.antt =====
-- The status that Reconcile leaves.
use karpenter_provider_hetzn.Base.{
  String, ◌≡◌, refl, sym, ap, ◌∙◌, ◌≢◌, ◌↔◌, inl, inr, true, false, some, [], str_eq, Bool-cases,
  All,
}
use karpenter_provider_hetzn.Base.Int.{eq_ℤ_iff}
use karpenter_provider_hetzn.Base.Text.{Bytes}
use karpenter_provider_hetzn.Errors.{ok}
use karpenter_provider_hetzn.Metrics.{Metrics}
use karpenter_provider_hetzn.Api.NodeClass.{
  HCloudNodeClassSpec, ConditionStatus, condition_true, HCloudNodeClass,
  condition_type_images_ready, condition_type_network_ready, condition_type_resources_ready,
  condition_type_user_data_ready, resolved_images_generation, current_resolved_images,
}
use karpenter_provider_hetzn.CloudProvider.{resolve_user_data}
use karpenter_provider_hetzn.Controller.{
  condition_ready, condition_status, IsSetCondition, Pass, Sets,
}
use karpenter_provider_hetzn.Controller.Validation.{
  validate_resources, validate_user_data, network_pass, verdict_pass,
}
use karpenter_provider_hetzn.Controller.Images.{Merged, with_images, drop_superseded, merge_pass}
use karpenter_provider_hetzn.Controller.Validation.Laws.{
  validate_resources_iff, validate_user_data_iff, verdict_status, verdict_status_iff,
  verdict_pass-Sets, network_status, network_status_iff, network_pass-Sets,
}
use karpenter_provider_hetzn.Controller.Images.Laws.{
  drop_superseded-images, drop_superseded-spec, images_status, images_pass-Sets,
}
use karpenter_provider_hetzn.Controller.Images.Entries.{entries, merge_pass-resolved}
use mathlib.Core.Path.{subst}
use karpenter_provider_hetzn.Controller.Reconcile.Kept.{
  Kept, Kept-trans, Sets-Kept, Sets-stores, Sets-keeps, dated_images, dated_images-Kept,
  drop_superseded-status, images_status_iff,
}
use karpenter_provider_hetzn.Controller.Reconcile.{Controller, checks_pass, status_pass, reconcile}

module _ {W : Type 0} (c : Controller W) (nc : HCloudNodeClass) (w : W) (m : Metrics) where
  abbrev start : Pass
  start = record { nc = nc; events = []; metrics = m }

  abbrev after_network : Pass
  after_network = network_pass c.set c.recording c.networks start

  abbrev after_resources : Pass
  after_resources =
      verdict_pass c.set c.recording condition_type_resources_ready "ValidateResources"
        (validate_resources c.firewalls c.ssh_keys after_network.nc) after_network

  abbrev checked : HCloudNodeClass
  checked = (checks_pass c start).nc

  -- The NodeClass that Reconcile leaves and writes back.
  abbrev pub final : HCloudNodeClass
  final = (reconcile c nc w m).1.nc

  reconcile-pass : (reconcile c nc w m).1 ≡ status_pass c start
  unfolding reconcile
  reconcile-pass = elim (Bool-cases (c.same nc (status_pass c start).nc)) [
    | inl same ↦ rw (same, reconcile) refl
    | inr differs ↦ rw (differs, reconcile) refl
  ]

  abbrev merged : Merged
  merged = merge_pass c.images (drop_superseded checked)

  final-Sets :
      Sets c.set condition_type_images_ready
        (images_status merged)
        (with_images merged.resolved (drop_superseded checked))
        final
  unfolding status_pass
  final-Sets =
      rw (final, reconcile-pass) (images_pass-Sets c.set c.recording c.images (checks_pass c start))

  user_data-Sets :
      Sets c.set condition_type_user_data_ready
        (verdict_status (validate_user_data c.kube after_resources.nc))
        after_resources.nc
        checked
  unfolding checks_pass
  user_data-Sets =
      verdict_pass-Sets c.set c.recording condition_type_user_data_ready "ValidateUserData"
        (validate_user_data c.kube after_resources.nc) after_resources

  resources-Sets :
      Sets c.set condition_type_resources_ready
        (verdict_status (validate_resources c.firewalls c.ssh_keys after_network.nc))
        after_network.nc
        after_resources.nc
  resources-Sets =
      verdict_pass-Sets c.set c.recording condition_type_resources_ready "ValidateResources"
        (validate_resources c.firewalls c.ssh_keys after_network.nc) after_network

  module _ (lawful : IsSetCondition c.set) where
    network-Kept : Kept nc after_network.nc
    network-Kept =
        Sets-Kept c.set lawful condition_type_network_ready _ nc after_network.nc refl
          (network_pass-Sets c.set c.recording c.networks start)

    resources-Kept : Kept nc after_resources.nc
    resources-Kept = Kept-trans nc after_network.nc after_resources.nc network-Kept (
        Sets-Kept c.set lawful condition_type_resources_ready _ after_network.nc after_resources.nc
          refl resources-Sets)

    checked-Kept : Kept nc checked
    checked-Kept = Kept-trans nc after_resources.nc checked resources-Kept (
        Sets-Kept c.set lawful condition_type_user_data_ready _ after_resources.nc checked refl
          user_data-Sets)

    merged-resolved : merged.resolved ≡ entries c.images nc.spec.image_selector (dated_images nc)
    merged-resolved =
        rw
          (
            merge_pass-resolved c.images (drop_superseded checked),
            drop_superseded-spec checked,
            drop_superseded-images checked,
            checked-Kept.spec,
            dated_images-Kept nc checked checked-Kept,
          )
          refl

    -- If setting a condition behaves as documented: Reconcile records for each architecture the image that
    -- the catalogue gives, if that image has this architecture; if the lookup fails with an error that is
    -- not permanent, the image recorded before, if it was recorded for the present spec, or if ImagesReady
    -- is missing; and otherwise none.
    pub reconcile-images :
        final.status.resolved_images ≡ entries c.images nc.spec.image_selector (dated_images nc)
    unfolding with_images
    reconcile-images =
        let (reason, message, e) = final-Sets in
        rw e (
          lawful.keeps_images condition_type_images_ready (images_status merged) reason message
            (with_images merged.resolved (drop_superseded checked))
          ∙ merged-resolved)

    pub final-spec : final.spec ≡ nc.spec
    unfolding with_images
    final-spec =
        let (reason, message, e) = final-Sets in
        rw e (
          lawful.keeps_spec condition_type_images_ready (images_status merged) reason message
            (with_images merged.resolved (drop_superseded checked))
          ∙ drop_superseded-spec checked
          ∙ checked-Kept.spec)

    -- The images that Reconcile records are current, if setting a condition stamps it with the generation:
    -- a launch may use them.
    pub reconcile-current : current_resolved_images final ≡ final.status.resolved_images
    unfolding current_resolved_images with_images
    reconcile-current =
        let (reason, message, e) = final-Sets in
        let before = with_images merged.resolved (drop_superseded checked) in
        let stamped = lawful.stamps (images_status merged) reason message before in
        let kept =
          lawful.keeps_generation condition_type_images_ready (images_status merged) reason message
            before in
        let same : resolved_images_generation final ≡ final.generation =
          rw e (stamped ∙ sym kept) in
        rw
          (
            current_resolved_images,
            (eq_ℤ_iff (resolved_images_generation final) final.generation).1 same,
          )
          refl

    -- If setting a condition stores it, then after Reconcile the condition ImagesReady
    -- is true exactly if some image is recorded.
    pub reconcile-images_ready :
        (condition_status condition_type_images_ready final.status.conditions ≡ some condition_true)
        ↔ (final.status.resolved_images ≢ [])
    reconcile-images_ready =
        let status =
          Sets-stores c.set lawful condition_type_images_ready (images_status merged) _ final refl
            final-Sets in
        let (to, from) = images_status_iff merged in
        let same : final.status.resolved_images ≡ merged.resolved =
          reconcile-images ∙ sym merged-resolved in
        rw (status, same) ((λ h. to (cc h)), (λ h. ap (λ x. some x) (from h)))

    -- The conditions but ImagesReady are those that the checks set.
    final-status :
        (t : String)
        → str_eq condition_type_images_ready t ≡ false
        → str_eq condition_ready t ≡ false
        → (s : ConditionStatus) → condition_status t checked.status.conditions ≡ some s
        → condition_status t final.status.conditions ≡ some s
    unfolding with_images
    final-status t other dependent s h =
        Sets-keeps c.set lawful condition_type_images_ready t (images_status merged) s _ final other
          dependent final-Sets (drop_superseded-status t checked ∙ h)

    -- If setting a condition stores it and keeps the others but Ready, then after Reconcile
    -- UserDataReady is true exactly if a launch with the NodeClass finds its user data.
    pub reconcile-user_data_ready :
        (condition_status condition_type_user_data_ready final.status.conditions
          ≡ some condition_true)
        ↔ ((b : Bytes) × (resolve_user_data c.kube nc ≡ ok b))
    unfolding resolve_user_data
    reconcile-user_data_ready =
        let verdict = validate_user_data c.kube after_resources.nc in
        let status =
          final-status condition_type_user_data_ready refl refl (verdict_status verdict) (
            Sets-stores c.set lawful condition_type_user_data_ready (verdict_status verdict) _
              checked refl user_data-Sets) in
        let (to, from) = verdict_status_iff verdict in
        let (to', from') = validate_user_data_iff c.kube after_resources.nc in
        let same : resolve_user_data c.kube after_resources.nc ≡ resolve_user_data c.kube nc =
          rw (resolve_user_data, resources-Kept.spec) refl in
        rw (status, ← same) ((λ h. to' (to (cc h))), (λ h. ap (λ x. some x) (from (from' h))))

    -- If setting a condition stores it and keeps the others but Ready, then after Reconcile
    -- ResourcesReady is true exactly if every firewall and every SSH key of the NodeClass is found.
    pub reconcile-resources_ready :
        (condition_status condition_type_resources_ready final.status.conditions
          ≡ some condition_true)
        ↔ (All (λ id. c.firewalls id ≡ ok true) nc.spec.firewall_ids
            × All (λ id. c.ssh_keys id ≡ ok true) nc.spec.ssh_key_ids)
    reconcile-resources_ready =
        let verdict = validate_resources c.firewalls c.ssh_keys after_network.nc in
        let status =
          final-status condition_type_resources_ready refl refl (verdict_status verdict) (
            Sets-keeps c.set lawful condition_type_user_data_ready condition_type_resources_ready _
              _ _ checked refl refl user_data-Sets
              (Sets-stores c.set lawful condition_type_resources_ready (verdict_status verdict) _
                after_resources.nc refl resources-Sets)) in
        let (to, from) = verdict_status_iff verdict in
        let (to', from') = validate_resources_iff c.firewalls c.ssh_keys after_network.nc in
        subst
          (λ (spec : HCloudNodeClassSpec).
            (condition_status condition_type_resources_ready final.status.conditions
              ≡ some condition_true)
            ↔ (All (λ id. c.firewalls id ≡ ok true) spec.firewall_ids
                × All (λ id. c.ssh_keys id ≡ ok true) spec.ssh_key_ids))
          network-Kept.spec
          (rw status ((λ h. to' (to (cc h))), (λ h. ap (λ x. some x) (from (from' h)))))

    -- If setting a condition stores it and keeps the others but Ready, then after Reconcile
    -- NetworkReady is true exactly if the network of the NodeClass is found.
    pub reconcile-network_ready :
        (condition_status condition_type_network_ready final.status.conditions
          ≡ some condition_true)
        ↔ (c.networks nc.spec.network_id ≡ ok true)
    reconcile-network_ready =
        let answer = c.networks nc.spec.network_id in
        let status = final-status condition_type_network_ready refl refl (network_status answer) (
          Sets-keeps c.set lawful condition_type_user_data_ready condition_type_network_ready _ _ _
            checked refl refl user_data-Sets
            (Sets-keeps c.set lawful condition_type_resources_ready condition_type_network_ready _ _
              _ after_resources.nc refl refl resources-Sets
              (Sets-stores c.set lawful condition_type_network_ready (network_status answer) nc
                after_network.nc refl (network_pass-Sets c.set c.recording c.networks start)))) in
        let (to, from) = network_status_iff answer in
        rw status ((λ h. to (cc h)), (λ h. ap (λ x. some x) (from h)))
