-- ===== src/Tunnel.antt =====
-- The carriers between nodes of internal/tunnel.
pub mod Datagram
