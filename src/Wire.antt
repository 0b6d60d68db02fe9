-- ===== src/Wire.antt =====
-- internal/wire: the binary format of transactions, headers and blocks.
pub mod Reader
pub mod VarInt
pub mod Tx
pub mod Header
pub mod Block
pub mod Merkle
