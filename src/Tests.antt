-- ===== src/Tests.antt =====
-- The theorems at concrete inputs: a small catalogue, a cloud that counts its servers, and a NodeClass.
mod Fixtures
mod Conditions
mod Cloud
mod Selection
mod Launching
mod Mains
mod Threads
mod RoundTrips
mod Reconciling
mod Catalogue
mod Instances
mod Groups
