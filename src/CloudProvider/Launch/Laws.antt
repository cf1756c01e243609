-- ===== src/CloudProvider/Launch/Laws.antt =====
-- How far a call of Create gets, and what it leaves behind.
use karpenter_provider_hetzn.Effects.{}
use karpenter_provider_hetzn.Base.{◌≡◌, refl, ap, ◌∙◌, ◌⊎◌, inl, inr, some, List, Option-cases}
use karpenter_provider_hetzn.Base.Dict.{}
use karpenter_provider_hetzn.Base.Int.{}
use karpenter_provider_hetzn.Base.Text.{Bytes}
use karpenter_provider_hetzn.Base.Order.{}
use karpenter_provider_hetzn.Errors.{Error, Result, ok, err}
use karpenter_provider_hetzn.Metrics.{}
use karpenter_provider_hetzn.Api.{}
use karpenter_provider_hetzn.Api.NodeClass.{HCloudNodeClass}
use karpenter_provider_hetzn.Api.NodeClaim.{NodeClaim}
use karpenter_provider_hetzn.ImageFamily.{Image, ImageClient}
use karpenter_provider_hetzn.Hcloud.{}
use karpenter_provider_hetzn.Instance.{Provider}
use karpenter_provider_hetzn.Instance.ProviderId.{}
use karpenter_provider_hetzn.InstanceType.{Offering, InstanceType, FloatOps}
use karpenter_provider_hetzn.CloudProvider.{KubeClient, resolve_node_class, resolve_user_data}
use karpenter_provider_hetzn.CloudProvider.Scheduling.{Scheduling}
use karpenter_provider_hetzn.CloudProvider.Image.{hcloud_arch_for, resolve_image}
use karpenter_provider_hetzn.CloudProvider.Selection.{Selection, empty_selection, select_from}
use karpenter_provider_hetzn.Instance.Lifecycle
use karpenter_provider_hetzn.Instance.Lifecycle.Creation.{}
use karpenter_provider_hetzn.InstanceType.Cache
use karpenter_provider_hetzn.CloudProvider.Launch.{
  State, Moment, launched, create, launch, with_image, chosen, choose, listed, with_class,
}
use karpenter_provider_hetzn.CloudProvider.Claims.{create_opts}

module _ {W : Type 0} (kube : KubeClient) (S : Scheduling) (fl : FloatOps) (images : ImageClient)
    (p : Provider W) (moment : Moment) (claim : NodeClaim) (s : State W) where
  abbrev Answer : Type 0
  Answer = Result NodeClaim × State W

  -- An error before the server is requested.
  abbrev pub Stops : Answer → Type 0
  Stops r = (e : Error) × (r.0 ≡ err e) × (r.1.remote ≡ s.remote)

  -- The server is requested, and `r` is what becomes of it.
  pub record Reaches (r : Answer) : Type 0 where
    pub node_class : HCloudNodeClass
    pub its : List InstanceType
    pub it : InstanceType
    pub offering : Offering
    pub image : Image
    pub user_data : Bytes
    pub before : State W
    pub class_found : resolve_node_class kube claim.node_class_ref ≡ ok node_class
    pub types_listed :
        (Cache.list fl moment.now node_class.spec.locations moment.answer s.types s.metrics).0
        ≡ ok its
    pub is_best :
        (select_from S node_class claim.requirements empty_selection its).best ≡ some (it, offering)
    pub image_resolved : resolve_image images node_class (hcloud_arch_for it) ≡ ok image
    pub data_resolved : resolve_user_data kube node_class ≡ ok user_data
    pub untouched : before.remote ≡ s.remote
    pub result :
        r
        ≡ launched kube S fl images p moment claim it offering
            (Lifecycle.create p moment.elapsed
              (create_opts claim node_class it offering image user_data)
              before.remote
              before.metrics)
            before

  module _ (nc : HCloudNodeClass)
      (found : resolve_node_class kube claim.node_class_ref ≡ ok nc) where
    module _ (its : List InstanceType)
        (listing : (Cache.list fl moment.now nc.spec.locations moment.answer s.types s.metrics).0
          ≡ ok its)
        (before : State W) (same : before.remote ≡ s.remote) where
      module _ (it : InstanceType) (o : Offering)
          (best : (select_from S nc claim.requirements empty_selection its).best
            ≡ some (it, o)) where
        launch-stages :
            (image : Image) (contents : Result Bytes)
            → resolve_image images nc (hcloud_arch_for it) ≡ ok image
            → resolve_user_data kube nc ≡ contents
            → Stops (launch kube S fl images p moment claim nc it o image contents before)
              ⊎ Reaches (launch kube S fl images p moment claim nc it o image contents before)
        unfolding launch
        launch-stages image (err e) i d = inl (_, refl, same)
        launch-stages image (ok user_data) i d = inr (record {
          node_class = nc;
          its = its;
          it = it;
          offering = o;
          image = image;
          user_data = user_data;
          before = before;
          class_found = found;
          types_listed = listing;
          is_best = best;
          image_resolved = i;
          data_resolved = d;
          untouched = same;
          result = refl;
        })

        image-stages :
            (image : Result Image)
            → resolve_image images nc (hcloud_arch_for it) ≡ image
            → Stops (with_image kube S fl images p moment claim nc it o image before)
              ⊎ Reaches (with_image kube S fl images p moment claim nc it o image before)
        unfolding with_image
        image-stages (err e) i = inl (e, refl, same)
        image-stages (ok image) i = launch-stages image (resolve_user_data kube nc) i refl

      chosen-stages :
          (selection : Selection)
          → select_from S nc claim.requirements empty_selection its ≡ selection
          → Stops (chosen kube S fl images p moment claim nc selection before)
            ⊎ Reaches (chosen kube S fl images p moment claim nc selection before)
      unfolding chosen
      chosen-stages selection e = elim (Option-cases selection.best) [
        | inl nothing ↦ rw (nothing, chosen) (inl (_, refl, same))
        | inr (best, h) ↦
            rw (h, chosen)
              (image-stages best.0 best.1 (ap (λ x. x.best) e ∙ h)
                (resolve_image images nc (hcloud_arch_for best.0)) refl)
      ]

    listed-stages :
        (outcome : Cache.Outcome)
        → Cache.list fl moment.now nc.spec.locations moment.answer s.types s.metrics ≡ outcome
        → Stops (listed kube S fl images p moment claim nc s.remote outcome)
          ⊎ Reaches (listed kube S fl images p moment claim nc s.remote outcome)
    unfolding listed choose
    listed-stages (err e, types, m) h = inl (_, refl, refl)
    listed-stages (ok its, types, m) h = chosen-stages its (ap (λ x. x.0) h) _ refl _ refl

  class-stages :
      (nc : Result HCloudNodeClass)
      → resolve_node_class kube claim.node_class_ref ≡ nc
      → Stops (with_class kube S fl images p moment claim nc s)
        ⊎ Reaches (with_class kube S fl images p moment claim nc s)
  unfolding with_class
  class-stages (err e) h = inl (_, refl, refl)
  class-stages (ok nc) h = listed-stages nc h _ refl

  -- Create stops, or it requests the server that `create_opts` describes.
  pub create-Reaches :
      Stops (create kube S fl images p moment claim s)
      ⊎ Reaches (create kube S fl images p moment claim s)
  unfolding create
  create-Reaches = class-stages (resolve_node_class kube claim.node_class_ref) refl
