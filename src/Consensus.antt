-- ===== src/Consensus.antt =====
-- internal/consensus: subsidies, difficulty targets and timestamps.
pub mod Subsidy
pub mod Asert
pub mod Pow
pub mod Timestamp
