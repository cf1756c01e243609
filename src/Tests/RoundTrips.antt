-- ===== src/Tests/RoundTrips.antt =====
-- Create, then Get and IsDrifted, at the small cloud.
use karpenter_provider_hetzn.Base.{
  String, ◌≡◌, refl, ap, ◌↔◌, inl, not, none, some, List, [], ◌∷◌, is_none, select, any, All,
  Within,
}
use karpenter_provider_hetzn.Base.Dict.{lookup, insert, merge}
use karpenter_provider_hetzn.Base.Int.{}
use karpenter_provider_hetzn.Base.Text.{}
use karpenter_provider_hetzn.Errors.{ok}
use karpenter_provider_hetzn.Metrics.{zero_metrics}
use karpenter_provider_hetzn.Api.{server_label_cluster}
use karpenter_provider_hetzn.Api.NodeClass.{}
use karpenter_provider_hetzn.Api.NodeClaim.{NodeClaim}
use karpenter_provider_hetzn.Hcloud.{Server}
use karpenter_provider_hetzn.Instance.{Provider}
use karpenter_provider_hetzn.InstanceType.{InstanceType}
use karpenter_provider_hetzn.CloudProvider.{resolve_node_class}
use karpenter_provider_hetzn.CloudProvider.Scheduling.{}
use karpenter_provider_hetzn.CloudProvider.Image.{mark_imageless_arches_unavailable}
use karpenter_provider_hetzn.CloudProvider.Selection.{empty_selection, select_from}
use karpenter_provider_hetzn.CloudProvider.Claims.{create_opts, server_to_node_claim}
use karpenter_provider_hetzn.CloudProvider.Drift.{label_of, is_drifted}
use karpenter_provider_hetzn.CloudProvider.Launch.{
  State, Moment, name, RepairPolicy, repair_policies, NodePool, launched, create,
  get_instance_types, delete, get, list,
}
use karpenter_provider_hetzn.CloudProvider.Launch.Fresh.{Stays}
use karpenter_provider_hetzn.CloudProvider.Launch.RoundTrip.{
  IsOpen, create-get, create-is_drifted, create-list,
}
use karpenter_provider_hetzn.CloudProvider.Launch.Removal.{create-delete}
use karpenter_provider_hetzn.Instance.ProviderId.{format_provider_id}
use karpenter_provider_hetzn.InstanceType.Catalogue.{filter_by_locations, apply_availability}
use karpenter_provider_hetzn.InstanceType.Unavailable.{is_unavailable}
use karpenter_provider_hetzn.Tests.Fixtures.{
  floats, catalogue, spec, node_class, claim, catalogue_images, kube, scheduling,
  scheduling-IsLawful,
}
use karpenter_provider_hetzn.Tests.Cloud.{Cloud, client, provider, provider-Stores}
use karpenter_provider_hetzn.InstanceType.Cache
use karpenter_provider_hetzn.CloudProvider.Image.Offered.{is_offered}
use karpenter_provider_hetzn.CloudProvider.Launch.Agreement.{shown-selected_iff}
use karpenter_provider_hetzn.ImageFamily.{}
use karpenter_provider_hetzn.CloudProvider.Launch
use karpenter_provider_hetzn.InstanceType.Cache.Listed.{IsNamed}
use karpenter_provider_hetzn.Instance.Lifecycle
use karpenter_provider_hetzn.Instance.Lifecycle.Labels.{management_of}
use karpenter_provider_hetzn.Tests.Launching.{
  moment, start, creating, launched_server, created, creating-created, creating-remote,
}

abbrev cloud : Provider Cloud
cloud = provider none

start-IsNamed : IsNamed start.types
start-IsNamed types h = let same : catalogue ≡ types = cc h in rw (← same) (refl, (refl, tt))

claim-IsOpen : IsOpen claim
unfolding lookup
claim-IsOpen = record { unset = refl; distinct = (refl, tt); untyped = refl }

creation : creating none ≡ (ok created, (creating none).1)
creation = ap (λ x. (x, (creating none).1)) creating-created

create-is_drifted_example :
    ((is_drifted cloud kube created (creating none).1.remote zero_metrics).0 ≡ ok "")
    ↔ All (Stays "prod" claim) spec.labels
unfolding resolve_node_class lookup
create-is_drifted_example =
    create-is_drifted kube scheduling scheduling-IsLawful floats catalogue_images cloud
      (provider-Stores none (inl refl)) moment claim start (creating none).1 created node_class
      zero_metrics claim-IsOpen start-IsNamed creation refl (refl, tt)

create-get_example :
    (shown : NodeClaim) × ((get kube scheduling floats catalogue_images cloud created.provider_id
        (creating none).1.remote).0
      ≡ ok shown)
    × (shown.provider_id ≡ created.provider_id)
    × ((k : String)
        → lookup k shown.labels ≡ elim (management_of "prod" "pool" "claim-1" k) [
          | none ↦ lookup k spec.labels
          | some u ↦ some u
        ])
unfolding lookup resolve_node_class label_of provider
create-get_example =
    create-get kube scheduling scheduling-IsLawful floats catalogue_images cloud
      (provider-Stores none (inl refl)) moment claim start (creating none).1 created node_class
      start-IsNamed creation refl (refl, tt)

listing :
    (Launch.list kube scheduling floats catalogue_images cloud (creating none).1.remote).0
    ≡ ok (server_to_node_claim floats launched_server ∷ [])
unfolding Launch.list Lifecycle.list provider client Lifecycle.create_request
    Lifecycle.set_unless_empty create_opts lookup insert merge
listing = rw creating-remote refl

create-list_example :
    (c : NodeClaim) × Within c (server_to_node_claim floats launched_server ∷ [])
    × (c.provider_id ≡ created.provider_id)
unfolding lookup resolve_node_class
create-list_example =
    create-list kube scheduling scheduling-IsLawful floats catalogue_images cloud
      (provider-Stores none (inl refl)) moment claim start (creating none).1 created node_class
      (server_to_node_claim floats launched_server ∷ []) start-IsNamed creation refl (refl, tt)
      listing

create-delete_example :
    (t : Server) × (format_provider_id t.id ≡ created.provider_id)
    × (lookup server_label_cluster t.labels ≡ some "prod")
    × (let (r, w, m') =
          delete kube scheduling floats catalogue_images cloud created
            (creating none).1.remote
            zero_metrics in
        let (answer, w') =
          client.delete_with_result t (client.get_by_id t.id (creating none).1.remote).1 in
        ((r ≡ ok tt) ↔ (answer ≡ ok tt)) × (w ≡ w'))
unfolding lookup resolve_node_class provider
create-delete_example =
    create-delete kube scheduling scheduling-IsLawful floats catalogue_images cloud
      (provider-Stores none (inl refl)) moment claim start (creating none).1 created node_class
      zero_metrics start-IsNamed creation refl (refl, tt)

abbrev pool : NodePool
pool = record { name = "pool"; node_class_ref = some "default" }

abbrev shown_types : List InstanceType
shown_types = mark_imageless_arches_unavailable catalogue node_class

shown-selected_iff_example :
    is_none (select_from scheduling node_class claim.requirements empty_selection catalogue).best
    ≡ not
        (any (is_offered scheduling scheduling-IsLawful node_class claim.requirements) shown_types)
unfolding resolve_node_class Cache.list Cache.fresh_cache Cache.view apply_availability
    filter_by_locations is_unavailable select any get_instance_types
shown-selected_iff_example =
    shown-selected_iff kube scheduling scheduling-IsLawful floats catalogue_images cloud moment pool
      node_class claim start.types zero_metrics catalogue shown_types refl refl refl
