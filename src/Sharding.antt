-- ===== src/Sharding.antt =====
-- crates/protocol/onx-sharding: the binary tree of shards, the schedule of its transitions and the migration of their
-- states.
pub mod Tree
pub mod Schedule
pub mod Migration
mod Examples
