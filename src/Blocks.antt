-- ===== src/Blocks.antt =====
-- crates/protocol/onx-blocks: what makes a block a valid successor, and the index of synchronised headers.
pub mod Error
pub mod Flags
pub mod Validity
pub mod Masterchain
pub mod Sync
mod Examples
