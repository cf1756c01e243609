-- ===== src/Tests/Fixtures.antt =====
-- A catalogue of two types, a NodeClass with an image for each architecture, and a scheduling package.
use mathlib.Core.Path.{subst}
use karpenter_provider_hetzn.Base.{
  ℕ, ◌*◌, ◌≤◌, String, ◌≡◌, refl, inl, inr, Bool, true, false, not, ◌||◌, Option, none, some, List,
  [], ◌∷◌, arith, str_eq, leb, if◌then◌else◌, Bool-cases, Option-cases, select, any, all, All,
  Within, All-imp,
}
use karpenter_provider_hetzn.Base.Int.{ℤ, pos}
use karpenter_provider_hetzn.Base.Text.{codes, bytes_eq}
use karpenter_provider_hetzn.Errors.{errorf, ok, err}
use karpenter_provider_hetzn.Api.{
  label_arch, capacity_type_on_demand, node_pool_label_key, architecture_x86,
}
use karpenter_provider_hetzn.Api.NodeClass.{
  ResolvedImage, HCloudNodeClassSpec, condition_true, Condition, HCloudNodeClass,
  condition_type_images_ready,
}
use karpenter_provider_hetzn.Api.NodeClaim.{ResourceList, NodeSelectorRequirement, NodeClaim}
use karpenter_provider_hetzn.ImageFamily.{Image, ImageClient}
use karpenter_provider_hetzn.InstanceType.{
  Offering, TypeRequirements, InstanceType, finite, FloatOps,
}
use karpenter_provider_hetzn.CloudProvider.{KubeClient}
use karpenter_provider_hetzn.CloudProvider.Scheduling.{Scheduling, IsLawful}
use karpenter_provider_hetzn.Controller.{}

abbrev pub floats : FloatOps
floats = record {
  parse_float = λ s. if bytes_eq s (codes "3.5") then some (finite false 350) else none;
  div_730 = λ v. v;
  memory_bytes = λ gb. pos (gb * 1024);
}

abbrev pub resources : ResourceList
resources = record {
  milli_cpu = pos 4000;
  memory = pos 8;
  ephemeral_storage = pos 80;
  pods = pos 110;
}

abbrev pub offering_at : String → ℕ → Offering
offering_at zone price = record {
  zone = zone;
  capacity_type = capacity_type_on_demand;
  price = price;
  available = true;
}

abbrev pub type_of : String → String → List Offering → InstanceType
type_of name arch offerings = record {
  name = name;
  offerings = offerings;
  requirements = record {
    instance_type = name;
    arch = arch;
    capacity_type = capacity_type_on_demand;
    cpu_type = "shared";
    server_family = "cx";
  };
  capacity = resources;
  overhead = record { milli_cpu = pos 100; memory = pos 100 };
}

abbrev pub cx22 : InstanceType
cx22 = type_of "cx22" "amd64" (offering_at "fsn1" 5 ∷ offering_at "nbg1" 4 ∷ [])

abbrev pub cax11 : InstanceType
cax11 = type_of "cax11" "arm64" (offering_at "fsn1" 3 ∷ [])

abbrev pub catalogue : List InstanceType
catalogue = cx22 ∷ cax11 ∷ []

abbrev pub spec : HCloudNodeClassSpec
spec = record {
  locations = "fsn1" ∷ "nbg1" ∷ [];
  image_selector = record { family = "talos"; version = ""; selector = [] };
  network_id = pos 7;
  firewall_ids = pos 3 ∷ [];
  ssh_key_ids = [];
  placement_group_strategy = "none";
  labels = ("team", "a") ∷ [];
  user_data = "boot";
  user_data_secret_ref = none;
  enable_public_ipv4 = none;
  enable_public_ipv6 = some false;
}

abbrev pub images_condition : ℤ → Condition
images_condition generation = record {
  type = condition_type_images_ready;
  status = condition_true;
  reason = "";
  message = none;
  observed_generation = generation;
}

-- At generation 2, with images that were resolved under the given generation.
abbrev pub node_class_at : ℤ → List ResolvedImage → HCloudNodeClass
node_class_at generation images = record {
  name = "default";
  generation = pos 2;
  spec = spec;
  status = record { conditions = images_condition generation ∷ []; resolved_images = images };
}

abbrev pub x86_image : ResolvedImage
x86_image = record { architecture = architecture_x86; image_id = pos 11 }

abbrev pub node_class : HCloudNodeClass
node_class = node_class_at (pos 2) (x86_image ∷ [])

abbrev pub requirement : NodeSelectorRequirement
requirement = record {
  key = label_arch;
  operator = "In";
  values = "amd64" ∷ "arm64" ∷ [];
  min_values = none;
}

abbrev pub claim : NodeClaim
claim = record {
  name = "claim-1";
  labels = (node_pool_label_key, "pool") ∷ [];
  node_class_ref = some "default";
  requirements = requirement ∷ [];
  provider_id = [];
  image_id = [];
  capacity = none;
  allocatable = none;
}

abbrev pub snapshot : String → ℤ → ℕ → Image
snapshot arch id created = record {
  id = id;
  architecture = arch;
  description = "Talos v1.9";
  created = created;
}

-- Two snapshots for each architecture.
abbrev pub catalogue_images : ImageClient
catalogue_images q =
    ok (snapshot q.architecture (pos 21) 1 ∷ snapshot q.architecture (pos 22) 2 ∷ [])

abbrev pub unreadable_images : ImageClient
unreadable_images q = err (errorf "unavailable" [])

abbrev pub kube : KubeClient
kube = record { get_node_class = λ name. ok node_class; get_secret = λ namespace name. ok [] }

cheapest_of : List Offering → Option Offering
cheapest_of [] = none
cheapest_of (o ∷ os) = elim (cheapest_of os) [
  | none ↦ some o
  | some x ↦ if leb o.price x.price then some o else some x
]

allows : TypeRequirements → NodeSelectorRequirement → Bool
allows r q = not (str_eq q.key label_arch) || any (λ v. str_eq v r.arch) q.values

unfoldable pub scheduling : Scheduling
unfolding cheapest_of allows all any select
scheduling = record {
  is_compatible = λ reqs r. all (allows r) reqs;
  available = λ os. select (λ o. o.available) os;
  compatible = λ reqs os. select (λ o. true) os;
  cheapest = cheapest_of;
  allocatable = λ it. it.capacity;
}

some-injective : {A : Type 0} {a b : A} → some a ≡ some b → a ≡ b
some-injective h = cc

cheapest_of-none : (os : List Offering) → cheapest_of os ≡ none → os ≡ []
unfolding cheapest_of
cheapest_of-none [] h = refl
cheapest_of-none (o ∷ os) h = elim (Option-cases (cheapest_of os)) [
  | inl e ↦ absurd (cc (rw (e, cheapest_of) at h))
  | inr (x, e) ↦ elim (Bool-cases (leb o.price x.price)) [
    | inl le ↦ absurd (cc (rw (e, le, cheapest_of) at h))
    | inr gt ↦ absurd (cc (rw (e, gt, cheapest_of) at h))
  ]
]

abbrev IsLeast : Offering → List Offering → Offering → Type 0
IsLeast p os o = Within o (p ∷ os) × All (λ x. o.price ≤ x.price) (p ∷ os)

cheapest_of-some :
    (os : List Offering) (o : Offering)
    → cheapest_of os ≡ some o
    → Within o os × All (λ x. o.price ≤ x.price) os
unfolding cheapest_of
cheapest_of-some [] o h = absurd (cc h)
cheapest_of-some (p ∷ os) o h = elim (Option-cases (cheapest_of os)) [
  | inl e ↦
      let same : p ≡ o = some-injective (rw (e, cheapest_of) at h) in
      subst (IsLeast p os) same (rw (cheapest_of-none os e) (inl refl, (omega arith, tt)))
  | inr (x, e) ↦
      let (there, least) = cheapest_of-some os x e in
      elim (Bool-cases (leb p.price x.price)) [
        | inl le ↦
            let same : p ≡ o = some-injective (rw (e, le, cheapest_of) at h) in
            let small : p.price ≤ x.price = ground arith in
            subst (IsLeast p os) same (
              inl refl,
              (
                omega arith,
                All-imp (λ y. x.price ≤ y.price) (λ y. p.price ≤ y.price) os (λ y l. omega arith)
                    least,
              ),
            )
        | inr gt ↦
            let same : x ≡ o = some-injective (rw (e, gt, cheapest_of) at h) in
            let small : x.price ≤ p.price = ground arith in
            subst (IsLeast p os) same (inr there, (small, least))
      ]
]

pub scheduling-IsLawful : IsLawful scheduling
unfolding scheduling
scheduling-IsLawful = record {
  fits = λ reqs o. true;
  available_lem = λ os. refl;
  compatible_lem = λ reqs os. refl;
  cheapest-some = cheapest_of-some;
  cheapest-none = cheapest_of-none;
}
