-- ===== src/Tests/Mains.antt =====
-- The program of a small configuration.
use karpenter_provider_hetzn.Base.{String, true, false, []}
use karpenter_provider_hetzn.Base.Int.{pos}
use karpenter_provider_hetzn.Base.Text.{Bytes}
use karpenter_provider_hetzn.Metrics.{}
use karpenter_provider_hetzn.Api.NodeClass.{}
use karpenter_provider_hetzn.ImageFamily.{}
use karpenter_provider_hetzn.Hcloud.{}
use karpenter_provider_hetzn.Instance.{}
use karpenter_provider_hetzn.CloudProvider.{}
use karpenter_provider_hetzn.Controller.{}
use karpenter_provider_hetzn.Controller.Validation.{}
use karpenter_provider_hetzn.Controller.Reconcile.{}
use karpenter_provider_hetzn.Operator.Config.{default_api_timeout, Config}
use karpenter_provider_hetzn.Operator.Client.{ClientOptions, hcloud_options}
use karpenter_provider_hetzn.Operator.Main.{HcloudClients, Platform, Program, assemble}
use karpenter_provider_hetzn.Tests.Fixtures.{catalogue_images, kube}
use karpenter_provider_hetzn.Tests.Conditions.{set_condition}
use karpenter_provider_hetzn.Tests.Cloud.{Cloud, client, slow_waiter}
use karpenter_provider_hetzn.Tests.Reconciling.{config}
use karpenter_provider_hetzn.Errors.{ok}

abbrev platform : Platform Cloud
platform = record {
  client = kube;
  set = set_condition;
  same = λ a b. false;
  update = λ nc w. (ok tt, w);
}

abbrev connect : ClientOptions → HcloudClients Cloud
connect options = record {
  server = client;
  placement_group = record {
    all_with_opts = λ name w. (ok [], w);
    create = λ name w. (ok (pos 5), w);
  };
  action = slow_waiter;
  image = catalogue_images;
  network = λ id. ok true;
  firewall = λ id. ok true;
  ssh_key = λ id. ok true;
}

abbrev text_of : Bytes → String
text_of s = "prod"

abbrev program : Program Cloud
program = assemble platform text_of connect config (hcloud_options "t" default_api_timeout)
