-- ===== src/Controller/Reconcile/Again.antt =====
-- Reconcile once more, with the same answers of the image catalogue.
use karpenter_provider_hetzn.Base.{◌≡◌, refl, sym, ap, ◌∙◌, inl, inr, Bool-cases}
use karpenter_provider_hetzn.Base.Int.{}
use karpenter_provider_hetzn.Errors.{}
use karpenter_provider_hetzn.Metrics.{Metrics}
use karpenter_provider_hetzn.Api.NodeClass.{
  HCloudNodeClassSpec, HCloudNodeClass, condition_type_images_ready,
}
use karpenter_provider_hetzn.ImageFamily.{}
use karpenter_provider_hetzn.Controller.{has_condition, IsSetCondition}
use karpenter_provider_hetzn.Controller.Images.{}
use karpenter_provider_hetzn.Controller.Images.Entries.{entries}
use karpenter_provider_hetzn.Controller.Images.Again.{entries-again}
use karpenter_provider_hetzn.Controller.Reconcile.Kept.{dated_images}
use karpenter_provider_hetzn.Controller.Reconcile.Laws.{
  final, reconcile-images, final-spec, reconcile-current,
}
use karpenter_provider_hetzn.Controller.Reconcile.{Controller}

module _ {W : Type 0} (c : Controller W) (nc : HCloudNodeClass) (w v : W) (m n : Metrics)
    (lawful : IsSetCondition c.set) where
  abbrev once : HCloudNodeClass
  once = final c nc w m

  once-dated : dated_images once ≡ once.status.resolved_images
  unfolding dated_images
  once-dated = elim (Bool-cases (has_condition condition_type_images_ready once)) [
    | inl there ↦ rw (there, dated_images) (reconcile-current c nc w m lawful)
    | inr missing ↦ rw (missing, dated_images) refl
  ]

  -- If setting a condition behaves as documented, and the image catalogue answers the same way: a second
  -- Reconcile records the images that the first has recorded, also where the catalogue cannot be read.
  pub reconcile-again : (final c once v n).status.resolved_images ≡ once.status.resolved_images
  reconcile-again =
      let first = reconcile-images c nc w m lawful in
      reconcile-images c once v n lawful
      ∙ ap
          (λ (spec : HCloudNodeClassSpec). entries c.images spec.image_selector (dated_images once))
          (final-spec c nc w m lawful)
      ∙ ap (entries c.images nc.spec.image_selector) (once-dated ∙ first)
      ∙ entries-again c.images nc.spec.image_selector (dated_images nc)
      ∙ sym first
