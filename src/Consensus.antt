-- ===== src/Consensus.antt =====
-- crates/protocol/onx-consensus: validator election, quorum accounting and the round-based
-- Catchain state machine.
pub mod Types
pub mod Engine
pub mod Stake
pub mod Election
mod Examples
