-- ===== src/Contract.antt =====
-- internal/contract: the types that the panel and the agents exchange.
pub mod Usage
pub mod Money
