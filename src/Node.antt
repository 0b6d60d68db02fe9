-- ===== src/Node.antt =====
-- internal/p2p/node.go, one module for each part of the node's state.
pub mod Headers
pub mod HashMap
pub mod State
pub mod Orphans
pub mod Peers
pub mod AddrBook
pub mod Side
pub mod Branch
pub mod Connect
pub mod Accepted
