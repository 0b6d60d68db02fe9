-- ===== src/Address.antt =====
-- internal/address: scripts and addresses.
pub mod Script
pub mod Base58
pub mod Encoded
