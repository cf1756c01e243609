-- ===== src/Operator/Client.antt =====
-- pkg/operator/operator.go: what the hcloud client is made of.
pub mod Laws
use karpenter_provider_hetzn.Base.{ℕ, ◌*◌, String, Option, none, some, [], str_eq, if◌then◌else◌}
use karpenter_provider_hetzn.Errors.{errorf, Result, ok, err}
use karpenter_provider_hetzn.Operator.Config.{Environment, Config}

-- The limits of the HTTP client and of its transport.
pub record HttpClient : Type 0 where
  pub timeout : ℕ
  pub dial_timeout : ℕ
  pub keep_alive : ℕ
  pub tls_handshake_timeout : ℕ
  pub response_header_timeout : ℕ
  pub max_idle_conns_per_host : ℕ

unfoldable pub new_http_client : ℕ → HttpClient
new_http_client timeout = record {
  timeout = timeout;
  dial_timeout = 10 * 1000000000;
  keep_alive = 30 * 1000000000;
  tls_handshake_timeout = 10 * 1000000000;
  response_header_timeout = timeout;
  max_idle_conns_per_host = 20;
}

-- The options of hcloud.NewClient; the application's version is empty.
pub record ClientOptions : Type 0 where
  pub token : String
  pub http : HttpClient
  pub application : String

unfoldable pub hcloud_options : String → ℕ → ClientOptions
unfolding new_http_client
hcloud_options token timeout = record {
  token = token;
  http = new_http_client timeout;
  application = "karpenter-provider-hetzner";
}

unfoldable pub new_hcloud_client : Environment → Option Config → Result ClientOptions
unfolding hcloud_options
new_hcloud_client env none = err (errorf "config is required" [])
new_hcloud_client env (some cfg) =
    let token = env "HCLOUD_TOKEN" in
    if str_eq token ""
    then err (errorf "HCLOUD_TOKEN environment variable is required" [])
    else ok (hcloud_options token cfg.api_timeout)
