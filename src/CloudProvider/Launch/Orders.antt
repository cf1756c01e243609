-- ===== src/CloudProvider/Launch/Orders.antt =====
-- The options that Create passes to the instance provider, and the NodeClaim that it makes of a server.
use mathlib.Core.Option.{some-injective}
use karpenter_provider_hetzn.Base.{
  String, ◌≡◌, refl, ◌∙◌, ◌↔◌, Bool, true, false, Option, none, some,
}
use karpenter_provider_hetzn.Base.Dict.{Dict, lookup, NodupKeys}
use karpenter_provider_hetzn.Base.Text.{Bytes, format_int}
use karpenter_provider_hetzn.Api.{
  label_topology_zone, label_instance_type, label_arch, capacity_type_label_key,
  node_pool_label_key,
}
use karpenter_provider_hetzn.Api.NodeClass.{
  HCloudNodeClass, unset_or, public_ipv4_enabled, public_ipv6_enabled,
}
use karpenter_provider_hetzn.Api.NodeClaim.{NodeClaim}
use karpenter_provider_hetzn.ImageFamily.{Image}
use karpenter_provider_hetzn.Hcloud.{Server}
use karpenter_provider_hetzn.Instance.{CreateOpts}
use karpenter_provider_hetzn.Instance.ProviderId.{format_provider_id}
use karpenter_provider_hetzn.InstanceType.{Offering, InstanceType}
use karpenter_provider_hetzn.CloudProvider.Scheduling.{Scheduling}
use karpenter_provider_hetzn.CloudProvider.Drift.{label_of}
use karpenter_provider_hetzn.CloudProvider.Claims.{type_labels, create_opts, image_text, hydrate}
use karpenter_provider_hetzn.CloudProvider.Launch.Outcomes.{lookup-claim_labels}

-- The options of a server for this claim and NodeClass, of this type, in the zone of this offering.
pub record IsOrder (claim : NodeClaim) (nc : HCloudNodeClass) (it : InstanceType) (o : Offering)
    (img : Image) (contents : Bytes) (opts : CreateOpts) : Type 0 where
  pub name : opts.name ≡ claim.name
  pub server_type : opts.server_type ≡ it.name
  pub location : opts.location ≡ o.zone
  pub image : opts.image ≡ some img
  pub network : opts.network_id ≡ nc.spec.network_id
  pub firewalls : opts.firewall_ids ≡ nc.spec.firewall_ids
  pub ssh_keys : opts.ssh_key_ids ≡ nc.spec.ssh_key_ids
  pub labels : opts.labels ≡ nc.spec.labels
  pub user_data : opts.user_data ≡ contents
  pub node_claim : opts.node_claim ≡ claim.name
  pub node_pool :
      (pool : String) → lookup node_pool_label_key claim.labels ≡ some pool → opts.node_pool ≡ pool
  pub strategy : opts.placement_group_strategy ≡ nc.spec.placement_group_strategy
  pub ipv4 : (opts.enable_public_ipv4 ≡ false) ↔ (nc.spec.enable_public_ipv4 ≡ some false)
  pub ipv6 : (opts.enable_public_ipv6 ≡ false) ↔ (nc.spec.enable_public_ipv6 ≡ some false)

-- The NodeClaim `created` is the claim with what is known of its server. A label that the claim has wins.
pub record IsDescribed (S : Scheduling) (claim : NodeClaim) (it : InstanceType) (o : Offering)
    (server : Server) (created : NodeClaim) : Type 0 where
  pub name : created.name ≡ claim.name
  pub class : created.node_class_ref ≡ claim.node_class_ref
  pub requirements : created.requirements ≡ claim.requirements
  pub provider_id : created.provider_id ≡ format_provider_id server.id
  pub image_id : (i : Image) → server.image ≡ some i → created.image_id ≡ format_int i.id
  pub capacity : created.capacity ≡ some it.capacity
  pub allocatable : created.allocatable ≡ some (S.allocatable it)
  pub own :
      NodupKeys claim.labels
      → (k v : String) → lookup k claim.labels ≡ some v
      → lookup k created.labels ≡ some v
  pub zone :
      NodupKeys claim.labels
      → lookup label_topology_zone claim.labels ≡ none
      → lookup label_topology_zone created.labels ≡ some o.zone
  pub capacity_type :
      NodupKeys claim.labels
      → lookup capacity_type_label_key claim.labels ≡ none
      → lookup capacity_type_label_key created.labels ≡ some o.capacity_type
  pub instance_type :
      NodupKeys claim.labels
      → lookup label_instance_type claim.labels ≡ none
      → lookup label_instance_type created.labels ≡ some it.requirements.instance_type
  pub arch :
      NodupKeys claim.labels
      → lookup label_arch claim.labels ≡ none
      → lookup label_arch created.labels ≡ some it.requirements.arch

enabled_iff : (o : Option Bool) → (unset_or o ≡ false) ↔ (o ≡ some false)
unfolding unset_or
enabled_iff none = ((λ h. absurd (cc h)), λ h. absurd (cc h))
enabled_iff (some true) = ((λ h. absurd (cc h)), λ h. absurd (cc (some-injective _ _ h)))
enabled_iff (some false) = ((λ h. refl), λ h. refl)

label_of-there :
    (labels : Dict String) (pool : String)
    → lookup node_pool_label_key labels ≡ some pool
    → label_of node_pool_label_key labels ≡ pool
unfolding label_of
label_of-there labels pool there = rw (there, label_of) refl

pub create_opts-IsOrder :
    (claim : NodeClaim) (nc : HCloudNodeClass) (it : InstanceType) (o : Offering) (image : Image)
    (user_data : Bytes)
    → IsOrder claim nc it o image user_data (create_opts claim nc it o image user_data)
unfolding create_opts label_of public_ipv4_enabled public_ipv6_enabled
create_opts-IsOrder claim nc it o image user_data = record {
  name = refl;
  server_type = refl;
  location = refl;
  image = refl;
  network = refl;
  firewalls = refl;
  ssh_keys = refl;
  labels = refl;
  user_data = refl;
  node_claim = refl;
  node_pool = λ pool there. label_of-there claim.labels pool there;
  strategy = refl;
  ipv4 = enabled_iff nc.spec.enable_public_ipv4;
  ipv6 = enabled_iff nc.spec.enable_public_ipv6;
}

pub hydrate-IsDescribed :
    (S : Scheduling) (claim : NodeClaim) (it : InstanceType) (o : Offering) (server : Server)
    → IsDescribed S claim it o server (hydrate S claim it o server)
unfolding hydrate image_text type_labels lookup
hydrate-IsDescribed S claim it o server =
    let looked =
      λ (k : String) (h : NodupKeys claim.labels). lookup-claim_labels it o claim.labels k h in
    record {
      name = refl;
      class = refl;
      requirements = refl;
      provider_id = refl;
      image_id = λ i there. rw there refl;
      capacity = refl;
      allocatable = refl;
      own = λ h k v there. looked k h ∙ (rw there refl);
      zone = λ h missing. looked label_topology_zone h ∙ (rw missing refl);
      capacity_type = λ h missing. looked capacity_type_label_key h ∙ (rw missing refl);
      instance_type = λ h missing. looked label_instance_type h ∙ (rw missing refl);
      arch = λ h missing. looked label_arch h ∙ (rw missing refl);
    }
