-- ===== src/Api/NodeClass.antt =====
-- pkg/apis/v1/hcloudnodeclass_types.go: the HCloudNodeClass, and which resolved images may be used.
use karpenter_provider_hetzn.Base.{
  String, List, [], ◌∷◌, Option, none, some, Bool, true, str_eq, if◌then◌else◌,
}
use karpenter_provider_hetzn.Base.Dict.{Dict}
use karpenter_provider_hetzn.Base.Int.{ℤ, pos, eq_ℤ}
use karpenter_provider_hetzn.Errors.{Error}

pub record UserDataSecretReference : Type 0 where
  pub namespace : String
  pub name : String
  pub key : String

pub record ImageSelector : Type 0 where
  pub family : String
  pub version : String
  pub selector : Dict String

pub record ResolvedImage : Type 0 where
  pub architecture : String
  pub image_id : ℤ

pub record HCloudNodeClassSpec : Type 0 where
  pub locations : List String
  pub image_selector : ImageSelector
  pub network_id : ℤ
  pub firewall_ids : List ℤ
  pub ssh_key_ids : List ℤ
  pub placement_group_strategy : String
  pub labels : Dict String
  pub user_data : String
  pub user_data_secret_ref : Option UserDataSecretReference
  pub enable_public_ipv4 : Option Bool
  pub enable_public_ipv6 : Option Bool

pub data ConditionStatus : Type 0 where
  condition_true condition_false condition_unknown : ConditionStatus

-- operatorpkg's status.Condition. The message is the error whose text it is, if there is one.
pub record Condition : Type 0 where
  pub type : String
  pub status : ConditionStatus
  pub reason : String
  pub message : Option Error
  pub observed_generation : ℤ

pub record HCloudNodeClassStatus : Type 0 where
  pub conditions : List Condition
  pub resolved_images : List ResolvedImage

pub record HCloudNodeClass : Type 0 where
  pub name : String
  pub generation : ℤ
  pub spec : HCloudNodeClassSpec
  pub status : HCloudNodeClassStatus

abbrev pub condition_type_images_ready : String
condition_type_images_ready = "ImagesReady"

abbrev pub condition_type_network_ready : String
condition_type_network_ready = "NetworkReady"

abbrev pub condition_type_resources_ready : String
condition_type_resources_ready = "ResourcesReady"

abbrev pub condition_type_user_data_ready : String
condition_type_user_data_ready = "UserDataReady"

unfoldable pub unset_or : Option Bool → Bool
unset_or none = true
unset_or (some b) = b

unfoldable pub public_ipv4_enabled : HCloudNodeClassSpec → Bool
unfolding unset_or
public_ipv4_enabled s = unset_or s.enable_public_ipv4

unfoldable pub public_ipv6_enabled : HCloudNodeClassSpec → Bool
unfolding unset_or
public_ipv6_enabled s = unset_or s.enable_public_ipv6

-- The loop over the raw conditions.
unfoldable pub images_ready_generation : List Condition → ℤ
images_ready_generation [] = pos 0
images_ready_generation (c ∷ cs) =
    if str_eq c.type condition_type_images_ready
    then c.observed_generation
    else images_ready_generation cs

unfoldable pub resolved_images_generation : HCloudNodeClass → ℤ
unfolding images_ready_generation
resolved_images_generation nc = images_ready_generation nc.status.conditions

unfoldable pub current_resolved_images : HCloudNodeClass → List ResolvedImage
unfolding resolved_images_generation eq_ℤ
current_resolved_images nc =
    if eq_ℤ (resolved_images_generation nc) nc.generation then nc.status.resolved_images else []
