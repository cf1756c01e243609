-- ===== src/CloudProvider.antt =====
-- pkg/cloudprovider/cloudprovider.go: the CloudProvider that karpenter calls. What it takes from
-- karpenter's scheduling package and from the Kubernetes API are records of functions.
pub mod Scheduling
pub mod Image
pub mod Selection
pub mod Claims
pub mod Launch
pub mod Drift
use karpenter_provider_hetzn.Base.{String, Option, none, some, [], ◌∷◌}
use karpenter_provider_hetzn.Base.Dict.{Dict, lookup}
use karpenter_provider_hetzn.Base.Text.{Bytes, codes}
use karpenter_provider_hetzn.Errors.{text, errorf, Result, ok, err, ◌>>=◌, context}
use karpenter_provider_hetzn.Api.NodeClass.{
  UserDataSecretReference, HCloudNodeClassSpec, HCloudNodeClass,
}

abbrev pub provider_name : String
provider_name = "hetzner"

-- What client.Client.Get returns for an HCloudNodeClass by name, and for a Secret by namespace and name.
pub record KubeClient : Type 0 where
  pub get_node_class : String → Result HCloudNodeClass
  pub get_secret : String → String → Result (Dict Bytes)

module _ (kube : KubeClient) where
  unfoldable pub resolve_node_class : Option String → Result HCloudNodeClass
  unfolding context
  resolve_node_class none = err (errorf "nodeClassRef is nil" [])
  resolve_node_class (some name) =
      context "getting HCloudNodeClass %q: %w" (text name ∷ []) (kube.get_node_class name)

  unfoldable pub secret_value : UserDataSecretReference → Option Bytes → Result Bytes
  secret_value ref (some (c ∷ value)) = ok (c ∷ value)
  secret_value ref _ = err (
      errorf "userData secret %s/%s has no non-empty key %q"
        (text ref.namespace ∷ text ref.name ∷ text ref.key ∷ []))

  unfoldable pub user_data_from :
      HCloudNodeClassSpec → Option UserDataSecretReference → Result Bytes
  unfolding secret_value context lookup
  user_data_from spec none = ok (codes spec.user_data)
  user_data_from spec (some ref) = do
    secret ←
        context "reading userData secret %s/%s: %w" (text ref.namespace ∷ text ref.name ∷ [])
          (kube.get_secret ref.namespace ref.name)
    secret_value ref (lookup ref.key secret)

  unfoldable pub resolve_user_data : HCloudNodeClass → Result Bytes
  unfolding user_data_from
  resolve_user_data nc = user_data_from nc.spec nc.spec.user_data_secret_ref
