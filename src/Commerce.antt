-- ===== src/Commerce.antt =====
-- internal/commerce: plans, entitlements, leases and the wallet.
pub mod Rate
pub mod Tables
pub mod Quota
pub mod Usage
pub mod Wallet
pub mod Duration
