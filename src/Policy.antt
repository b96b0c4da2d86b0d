-- ===== src/Policy.antt =====
-- internal/policy: what an inbound policy admits and denies.
pub mod Path
pub mod Paths
pub mod Association
pub mod Hosts
pub mod Checks
