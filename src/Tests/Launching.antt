-- ===== src/Tests/Launching.antt =====
-- Create and IsDrifted at the small cloud.
use karpenter_provider_hetzn.Instance.{ActionWaiter}
use karpenter_provider_hetzn.Base.{
  ◌≡◌, refl, ◌↔◌, inr, true, Option, none, some, [], ◌∷◌, arith, select, any, first, All,
}
use karpenter_provider_hetzn.Base.Int.{pos}
use karpenter_provider_hetzn.Base.Text.{codes}
use karpenter_provider_hetzn.Errors.{
  errorf, insufficient_capacity, is_insufficient_capacity, Result, ok, err,
}
use karpenter_provider_hetzn.Metrics.{zero_metrics}
use karpenter_provider_hetzn.Api.{architecture_x86}
use karpenter_provider_hetzn.Api.NodeClass.{current_resolved_images}
use karpenter_provider_hetzn.Api.NodeClaim.{NodeClaim}
use karpenter_provider_hetzn.Hcloud.{Server}
use karpenter_provider_hetzn.CloudProvider.{resolve_node_class, resolve_user_data}
use karpenter_provider_hetzn.CloudProvider.Image.{
  hcloud_arch_for, find_image, has_resolved_image, resolve_image,
}
use karpenter_provider_hetzn.CloudProvider.Selection.{cheapest_offering, consider, select_from}
use karpenter_provider_hetzn.CloudProvider.Drift.{drift_reason}
use karpenter_provider_hetzn.Tests.Fixtures.{
  floats, offering_at, cx22, catalogue, spec, node_class, claim, catalogue_images, kube, scheduling,
}
use karpenter_provider_hetzn.Tests.Cloud.{
  Cloud, server_of, no_capacity, client, slow_waiter, provider, count, provider-Counts,
}
use karpenter_provider_hetzn.InstanceType.Cache
use karpenter_provider_hetzn.InstanceType.Catalogue.{apply_availability, filter_by_locations}
use karpenter_provider_hetzn.InstanceType.Unavailable.{is_unavailable}
use karpenter_provider_hetzn.Instance.Lifecycle
use karpenter_provider_hetzn.CloudProvider.{user_data_from}
use karpenter_provider_hetzn.CloudProvider.Launch.{State, Moment, launched, create}
use karpenter_provider_hetzn.CloudProvider.Claims.{create_opts, hydrate}
use karpenter_provider_hetzn.CloudProvider.Launch.Outcomes.{Left, create_count, launched-quarantine}
use karpenter_provider_hetzn.CloudProvider.Drift.Laws.{InSync, drift_reason_iff}
use karpenter_provider_hetzn.InstanceType.Unavailable.Laws.{HasNoNul}

-- The catalogue is cached and fresh.
abbrev pub moment : Moment
moment = record { answer = err (errorf "unavailable" []); now = 10; failed_at = 20; elapsed = 5 }

abbrev pub start : State Cloud
start = record {
  remote = [];
  types = record Cache.new_provider { cached_types = some catalogue; cache_expiry = 100 };
  metrics = zero_metrics;
}

abbrev pub creating : Option (ActionWaiter Cloud) → Result NodeClaim × State Cloud
creating w = create kube scheduling floats catalogue_images (provider w) moment claim start

-- The wait fails.
create_count_example :
    Left kube scheduling floats catalogue_images
      (provider (some slow_waiter))
      moment
      claim
      count
      (provider-Counts (some slow_waiter) (inr refl))
      0
      (creating (some slow_waiter))
create_count_example =
    create_count kube scheduling floats catalogue_images (provider (some slow_waiter)) moment claim
      count (provider-Counts (some slow_waiter) (inr refl)) start

abbrev pub launched_server : Server
launched_server = server_of (
    Lifecycle.create_request "prod"
      (create_opts claim node_class cx22 (offering_at "nbg1" 4)
        (record { id = pos 11; architecture = architecture_x86; description = ""; created = 0 })
        (codes "boot"))
      none)

abbrev pub created : NodeClaim
created = hydrate scheduling claim cx22 (offering_at "nbg1" 4) launched_server

pub creating-created : (creating none).0 ≡ ok created
unfolding create resolve_node_class Cache.list Cache.fresh_cache Cache.view apply_availability
    filter_by_locations is_unavailable select_from consider cheapest_offering scheduling
    has_resolved_image hcloud_arch_for current_resolved_images any resolve_image find_image first
    resolve_user_data user_data_from launched hydrate create_opts Lifecycle.create
    Lifecycle.create_server Lifecycle.create_request provider client select
creating-created = refl

pub creating-remote : (creating none).1.remote ≡ launched_server ∷ []
unfolding create resolve_node_class Cache.list Cache.fresh_cache Cache.view apply_availability
    filter_by_locations is_unavailable select_from consider cheapest_offering scheduling
    has_resolved_image hcloud_arch_for current_resolved_images any resolve_image find_image first
    resolve_user_data user_data_from launched hydrate create_opts Lifecycle.create
    Lifecycle.create_server Lifecycle.create_request provider client select
creating-remote = refl

no_nul : HasNoNul (codes "cx22")
no_nul = (
  (λ e. absurd (cc e)),
  ((λ e. absurd (cc e)), ((λ e. absurd (cc e)), ((λ e. absurd (cc e)), tt))),
)

launched-quarantine_example :
    All
      (λ listed.
        All
          (λ o. o.available ≡ true → ¬ (("cx22" ≡ listed.name) × ("nbg1" ≡ o.zone)))
          listed.offerings)
      (Cache.view 30 []
        (launched kube scheduling floats catalogue_images
          (provider none)
          moment
          claim
          cx22
          (offering_at "nbg1" 4)
          (err (insufficient_capacity no_capacity), [], zero_metrics)
          start).1.types
        catalogue)
unfolding is_insufficient_capacity
launched-quarantine_example =
    launched-quarantine kube scheduling floats catalogue_images (provider none) moment claim cx22
      (offering_at "nbg1" 4) (insufficient_capacity no_capacity) [] zero_metrics start 30 []
      catalogue refl no_nul (omega arith)

abbrev running : Server
running = record {
  id = pos 100;
  image = none;
  server_type = none;
  location = some "nbg1";
  labels = ("team", "a") ∷ [];
  private_net = some (pos 7) ∷ [];
  firewalls = some (pos 3) ∷ none ∷ [];
}

drift_reason_iff_example : (drift_reason claim spec running ≡ "") ↔ InSync claim spec running
drift_reason_iff_example = drift_reason_iff claim spec running
