-- ===== src/Chain.antt =====
-- internal/blockchain/chain.go: the main chain, its unspent outputs, and reorganization.
pub mod Utxo
pub mod Connect
pub mod State
pub mod Reorg
