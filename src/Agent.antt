-- ===== src/Agent.antt =====
-- internal/agent: the forwarding agent on a node.
pub mod Credits
pub mod Charge
pub mod Failover
pub mod Limits
pub mod Wal
