-- ===== src/Operator/Main/Laws.antt =====
-- What runs when main has started the controllers.
use karpenter_provider_hetzn.Base.{◌≤◌, ◌<◌, String, ◌≡◌, ◌≢◌}
use karpenter_provider_hetzn.Base.Int.{ℤ}
use karpenter_provider_hetzn.Base.Text.{Bytes}
use karpenter_provider_hetzn.Errors.{Result, ok}
use karpenter_provider_hetzn.Metrics.{}
use karpenter_provider_hetzn.Api.NodeClass.{}
use karpenter_provider_hetzn.ImageFamily.{}
use karpenter_provider_hetzn.Hcloud.{}
use karpenter_provider_hetzn.CloudProvider.{}
use karpenter_provider_hetzn.Controller.{}
use karpenter_provider_hetzn.Controller.Validation.{}
use karpenter_provider_hetzn.Controller.Reconcile.{}
use karpenter_provider_hetzn.Operator.Config.{Environment, max_api_timeout, Config, load_config}
use karpenter_provider_hetzn.Operator.Config.Laws.{IsConfig}
use karpenter_provider_hetzn.Operator.Client.{ClientOptions}
use karpenter_provider_hetzn.Operator.Main.{HcloudClients, Platform, Program, assemble}

module _ {W : Type 0} (platform : Platform W) (text_of : Bytes → String)
    (connect : ClientOptions → HcloudClients W) (parse_duration : Bytes → Result ℤ)
    (env : Environment) where
  -- The program is the one of a valid configuration and a client with a token and a bounded timeout.
  pub record IsStarted (program : Program W) : Type 0 where
    pub cfg : Config
    pub options : ClientOptions
    pub loaded : load_config parse_duration env ≡ ok cfg
    pub valid : IsConfig parse_duration env cfg
    pub token : options.token ≢ ""
    pub bounded : (0 < options.http.timeout) × (options.http.timeout ≤ max_api_timeout)
    pub built : program ≡ assemble platform text_of connect cfg options
