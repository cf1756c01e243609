-- ===== src/Operator.antt =====
-- pkg/operator: the configuration from the environment, and the hcloud client.
pub mod Config
pub mod Client
pub mod Main
