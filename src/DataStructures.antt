-- ===== src/DataStructures.antt =====
-- crates/protocol/onx-data-structures: addresses, shard identifiers, messages and block headers,
-- with their encodings.
pub mod Error
pub mod Address
pub mod Shard
pub mod Cursor
pub mod Block
pub mod Message
mod Examples
