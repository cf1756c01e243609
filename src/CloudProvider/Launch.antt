-- ===== src/CloudProvider/Launch.antt =====
-- The CloudProvider's methods, but IsDrifted, of pkg/cloudprovider/cloudprovider.go. The clocks, the
-- hcloud API's answers and the time that a call takes are given with each call.
pub mod Laws
pub mod Outcomes
pub mod Orders
pub mod Requests
pub mod Fresh
pub mod Shown
pub mod RoundTrip
pub mod Removal
pub mod Agreement
use karpenter_provider_hetzn.CloudProvider.Claims.{create_opts, hydrate, server_to_node_claim}
use karpenter_provider_hetzn.Effects.{Eff, then_run}
use karpenter_provider_hetzn.Base.{
  ℕ, ◌*◌, String, Option, none, some, List, [], ◌∷◌, map, if◌then◌else◌,
}
use karpenter_provider_hetzn.Base.Text.{Bytes}
use karpenter_provider_hetzn.Base.Order.{sort_strings}
use karpenter_provider_hetzn.Errors.{
  text, bytes, errorf, wrapf, node_claim_not_found, is_insufficient_capacity, Result, ok, err,
}
use karpenter_provider_hetzn.Metrics.{Metrics}
use karpenter_provider_hetzn.Api.NodeClass.{
  ConditionStatus, condition_false, condition_unknown, HCloudNodeClass,
}
use karpenter_provider_hetzn.Api.NodeClaim.{NodeClaim}
use karpenter_provider_hetzn.ImageFamily.{Image, ImageClient}
use karpenter_provider_hetzn.Hcloud.{ServerType, Server}
use karpenter_provider_hetzn.Instance.{Provider}
use karpenter_provider_hetzn.InstanceType.{Offering, InstanceType, FloatOps}
use karpenter_provider_hetzn.CloudProvider.{
  provider_name, KubeClient, resolve_node_class, resolve_user_data,
}
use karpenter_provider_hetzn.CloudProvider.Scheduling.{Scheduling}
use karpenter_provider_hetzn.CloudProvider.Image.{
  hcloud_arch_for, resolve_image, mark_imageless_arches_unavailable,
}
use karpenter_provider_hetzn.CloudProvider.Selection.{
  Selection, empty_selection, select_from, record_skips, selection_error,
}
use karpenter_provider_hetzn.Instance.Lifecycle
use karpenter_provider_hetzn.InstanceType.Cache

-- The state that the methods change: the remote one, the provider of instance types, the metrics.
pub record State (W : Type 0) : Type 0 where
  pub remote : W
  pub types : Cache.Provider
  pub metrics : Metrics

-- What a call of Create meets: the hcloud API's answer to the listing of server types, the times of
-- that listing and of a failure of the creation, and how long the creation takes.
pub record Moment : Type 0 where
  pub answer : Result (List ServerType)
  pub now : ℕ
  pub failed_at : ℕ
  pub elapsed : ℕ

abbrev pub name : String
name = provider_name

-- The condition, its status and the toleration in nanoseconds.
pub record RepairPolicy : Type 0 where
  pub condition_type : String
  pub condition_status : ConditionStatus
  pub toleration_duration : ℕ

abbrev pub repair_policies : List RepairPolicy
repair_policies =
    record {
      condition_type = "Ready";
      condition_status = condition_false;
      toleration_duration = 5 * 60 * 1000000000;
    }
    ∷ record {
      condition_type = "Ready";
      condition_status = condition_unknown;
      toleration_duration = 5 * 60 * 1000000000;
    }
    ∷ []

-- A NodePool by its name and its template's reference.
pub record NodePool : Type 0 where
  pub name : String
  pub node_class_ref : Option String

module _ {W : Type 0} (kube : KubeClient) (S : Scheduling) (fl : FloatOps) (images : ImageClient)
    (p : Provider W) where
  module _ (moment : Moment) where
    -- The outcome of the instance provider's Create.
    unfoldable pub launched :
        NodeClaim
        → InstanceType
        → Offering
        → Result Server × W × Metrics
        → State W
        → Result NodeClaim × State W
    unfolding Cache.mark
    launched claim it offering (ok server, w, m) s =
        (ok (hydrate S claim it offering server), record s { remote = w; metrics = m })
    launched claim it offering (err e, w, m) s = (
      err (wrapf "creating server: %w" [] e),
      record s {
        remote = w;
        types =
            if is_insufficient_capacity e
            then Cache.mark moment.failed_at it.name offering.zone s.types
            else s.types;
        metrics = m;
      },
    )

    -- Create from the point where the user data is read.
    launch :
        NodeClaim
        → HCloudNodeClass
        → InstanceType
        → Offering
        → Image
        → Result Bytes
        → State W
        → Result NodeClaim × State W
    unfolding launched create_opts
    launch claim nc it offering image (err e) s = (err (wrapf "resolving userData: %w" [] e), s)
    launch claim nc it offering image (ok user_data) s =
        launched claim it offering
          (Lifecycle.create p moment.elapsed (create_opts claim nc it offering image user_data)
            s.remote s.metrics)
          s

    -- Create from the point where the image is resolved.
    with_image :
        NodeClaim
        → HCloudNodeClass
        → InstanceType
        → Offering
        → Result Image
        → State W
        → Result NodeClaim × State W
    unfolding launch
    with_image claim nc it offering (err e) s = (err e, s)
    with_image claim nc it offering (ok image) s =
        launch claim nc it offering image (resolve_user_data kube nc) s

    chosen : NodeClaim → HCloudNodeClass → Selection → State W → Result NodeClaim × State W
    unfolding with_image
    chosen claim nc selection s = elim selection.best [
      | none ↦ (err (selection_error claim nc selection), s)
      | some best ↦
          with_image claim nc best.0 best.1 (resolve_image images nc (hcloud_arch_for best.0)) s
    ]

    choose : NodeClaim → HCloudNodeClass → List InstanceType → State W → Result NodeClaim × State W
    unfolding chosen record_skips
    choose claim nc types s =
        let selection = select_from S nc claim.requirements empty_selection types in
        chosen claim nc selection (record s {
          metrics = record_skips (sort_strings selection.archs_missing_images) s.metrics;
        })

    listed : NodeClaim → HCloudNodeClass → W → Cache.Outcome → Result NodeClaim × State W
    unfolding choose
    listed claim nc w (err e, types, m) = (
      err (wrapf "listing instance types: %w" [] e),
      record { remote = w; types = types; metrics = m },
    )
    listed claim nc w (ok its, types, m) =
        choose claim nc its (record { remote = w; types = types; metrics = m })

    with_class : NodeClaim → Result HCloudNodeClass → State W → Result NodeClaim × State W
    unfolding listed
    with_class claim (err e) s = (err (wrapf "resolving node class: %w" [] e), s)
    with_class claim (ok nc) s =
        listed claim nc s.remote
          (Cache.list fl moment.now nc.spec.locations moment.answer s.types s.metrics)

    unfoldable pub create : NodeClaim → State W → Result NodeClaim × State W
    unfolding with_class
    create claim s = with_class claim (resolve_node_class kube claim.node_class_ref) s

    marked : HCloudNodeClass → Cache.Outcome → Cache.Outcome
    marked nc (ok its, types, m) = (ok (mark_imageless_arches_unavailable its nc), types, m)
    marked nc (err e, types, m) = (err e, types, m)

    pool_types : NodePool → Result HCloudNodeClass → Cache.Provider → Metrics → Cache.Outcome
    unfolding marked
    pool_types pool (err e) types m =
        (err (wrapf "resolving node class for node pool %s: %w" (text pool.name ∷ []) e), types, m)
    pool_types pool (ok nc) types m =
        marked nc (Cache.list fl moment.now nc.spec.locations moment.answer types m)

    unfoldable pub get_instance_types : Option NodePool → Cache.Provider → Metrics → Cache.Outcome
    unfolding pool_types
    get_instance_types none types m = Cache.list fl moment.now [] moment.answer types m
    get_instance_types (some pool) types m =
        pool_types pool (resolve_node_class kube pool.node_class_ref) types m

  unfoldable pub delete : NodeClaim → W → Metrics → Result (Unit {0}) × W × Metrics
  delete claim w m = Lifecycle.delete p claim.provider_id w m

  claim_found : Bytes → Option Server → Result NodeClaim
  unfolding server_to_node_claim
  claim_found provider_id none = err (
      node_claim_not_found (errorf "server with provider ID %q not found" (bytes provider_id ∷ [])))
  claim_found provider_id (some server) = ok (server_to_node_claim fl server)

  unfoldable pub get : Bytes → Eff W NodeClaim
  unfolding claim_found
  get provider_id w =
      then_run (Lifecycle.get p provider_id w) (λ found v. (claim_found provider_id found, v))

  unfoldable pub list : Eff W (List NodeClaim)
  unfolding server_to_node_claim
  list w =
      then_run (Lifecycle.list p w) (λ servers v. (ok (map (server_to_node_claim fl) servers), v))
