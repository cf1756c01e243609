-- ===== src/Operator/Main.antt =====
-- cmd/controller/main.go: how the parts are put together. The clients that hcloud.NewClient makes of its
-- options, and what karpenter's operator brings, are parameters; so is the text that Go's bytes of a name
-- stand for.
pub mod Laws
use karpenter_provider_hetzn.Effects.{Eff}
use karpenter_provider_hetzn.Base.{String, Bool, true, false, some}
use karpenter_provider_hetzn.Base.Int.{ℤ}
use karpenter_provider_hetzn.Base.Text.{Bytes}
use karpenter_provider_hetzn.Errors.{Result, ok, ◌>>=◌}
use karpenter_provider_hetzn.Api.NodeClass.{HCloudNodeClass}
use karpenter_provider_hetzn.ImageFamily.{ImageClient}
use karpenter_provider_hetzn.Instance.{
  ServerClient, PlacementGroupClient, ActionWaiter, Provider, new_provider,
  new_provider_with_placement_groups,
}
use karpenter_provider_hetzn.CloudProvider.{KubeClient}
use karpenter_provider_hetzn.Controller.{SetCondition}
use karpenter_provider_hetzn.Controller.Validation.{Getter}
use karpenter_provider_hetzn.Controller.Reconcile.{Controller}
use karpenter_provider_hetzn.Operator.Config.{Environment, Config, load_config}
use karpenter_provider_hetzn.Operator.Client.{ClientOptions, new_hcloud_client}
use karpenter_provider_hetzn.InstanceType.Cache

-- The services of *hcloud.Client that main passes on.
pub record HcloudClients (W : Type 0) : Type 0 where
  pub server : ServerClient W
  pub placement_group : PlacementGroupClient W
  pub action : ActionWaiter W
  pub image : ImageClient
  pub network : Getter
  pub firewall : Getter
  pub ssh_key : Getter

-- What karpenter's operator and operatorpkg bring: the Kubernetes client, and how conditions are set and
-- a status is compared and written.
pub record Platform (W : Type 0) : Type 0 where
  pub client : KubeClient
  pub set : SetCondition
  pub same : HCloudNodeClass → HCloudNodeClass → Bool
  pub update : HCloudNodeClass → Eff W (Unit {0})

-- CloudProvider of pkg/cloudprovider.
pub record CloudProvider (W : Type 0) : Type 0 where
  pub kube_client : KubeClient
  pub instance_provider : Provider W
  pub type_provider : Cache.Provider
  pub image_provider : ImageClient

unfoldable pub new_cloud_provider :
    {W : Type 0} → KubeClient → Provider W → Cache.Provider → ImageClient → CloudProvider W
new_cloud_provider kube_client instance_provider type_provider image_provider = record {
  kube_client = kube_client;
  instance_provider = instance_provider;
  type_provider = type_provider;
  image_provider = image_provider;
}

-- What is started.
pub record Program (W : Type 0) : Type 0 where
  pub cloud_provider : CloudProvider W
  pub node_class_controller : Controller W

module _ {W : Type 0} (platform : Platform W) where
  -- NewController, without a recorder until it is registered.
  unfoldable pub new_controller : Getter → Getter → Getter → ImageClient → Controller W
  new_controller networks firewalls ssh_keys images = record {
    kube = platform.client;
    networks = networks;
    firewalls = firewalls;
    ssh_keys = ssh_keys;
    images = images;
    recording = false;
    set = platform.set;
    same = platform.same;
    update = platform.update;
  }

  -- Register gives it the recorder.
  unfoldable pub register : Controller W → Controller W
  register c = record c { recording = true }

  module _ (text_of : Bytes → String) (connect : ClientOptions → HcloudClients W) where
    unfoldable pub assemble : Config → ClientOptions → Program W
    unfolding new_cloud_provider new_controller register new_provider_with_placement_groups
    assemble cfg options =
        let hcloud = connect options in
        let instances =
          new_provider_with_placement_groups hcloud.server hcloud.placement_group
            (text_of cfg.cluster_name) hcloud.action in
        record {
          cloud_provider =
              new_cloud_provider platform.client instances Cache.new_provider hcloud.image;
          node_class_controller =
              register (new_controller hcloud.network hcloud.firewall hcloud.ssh_key hcloud.image);
        }

    -- main up to the Start of the controllers, or the error that it ends with.
    unfoldable pub main : (Bytes → Result ℤ) → Environment → Result (Program W)
    unfolding load_config new_hcloud_client assemble
    main parse_duration env = do
      cfg ← load_config parse_duration env
      options ← new_hcloud_client env (some cfg)
      ok (assemble cfg options)
