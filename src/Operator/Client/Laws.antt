-- ===== src/Operator/Client/Laws.antt =====
-- The time limit of the client's requests.
use karpenter_provider_hetzn.Base.{
  ◌≤◌, ◌<◌, ◌≡◌, ◌≢◌, inl, inr, some, arith, str_eq, eq_iff, Bool-cases,
}
use karpenter_provider_hetzn.Base.Int.{ℤ}
use karpenter_provider_hetzn.Base.Text.{Bytes}
use karpenter_provider_hetzn.Errors.{Result, ok, ok-injective}
use karpenter_provider_hetzn.Operator.Config.{Environment, max_api_timeout, Config, load_config}
use karpenter_provider_hetzn.Operator.Config.Laws.{load_config-ok}
use karpenter_provider_hetzn.Operator.Client.{
  new_http_client, ClientOptions, hcloud_options, new_hcloud_client,
}

-- A client made for a loaded configuration bounds each request, by a time above zero and of at most five
-- minutes, and it has a token.
pub new_hcloud_client-bounded :
    (parse_duration : Bytes → Result ℤ) (env : Environment) (cfg : Config) (c : ClientOptions)
    → load_config parse_duration env ≡ ok cfg
    → new_hcloud_client env (some cfg) ≡ ok c
    → (0 < c.http.timeout) × (c.http.timeout ≤ max_api_timeout) × (c.token ≢ "")
unfolding new_hcloud_client hcloud_options new_http_client
new_hcloud_client-bounded parse_duration env cfg c loaded made =
    let valid = load_config-ok parse_duration env cfg loaded in
    elim (Bool-cases (str_eq (env "HCLOUD_TOKEN") "")) [
      | inl unset ↦ absurd (cc (rw (unset, new_hcloud_client) at made))
      | inr given ↦
          let same : hcloud_options (env "HCLOUD_TOKEN") cfg.api_timeout ≡ c =
            ok-injective (rw (given, new_hcloud_client) at made) in
          let positive = valid.positive in
          let bounded = valid.bounded in
          rw (← same) (positive, bounded, ground (arith, eq_iff (env "HCLOUD_TOKEN") ""))
    ]
