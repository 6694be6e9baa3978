-- ===== src/DataStructures/Error.antt =====
-- crates/protocol/onx-data-structures/src/error.rs
use the_open_network_x.Prelude.{ℕ}
use the_open_network_x.Primitives.Error.{PrimitiveError}

pub data DataStructureError : Type 0 where
  primitive : PrimitiveError → DataStructureError
  invalid_shard_marker : DataStructureError
  shard_prefix_length_exceeded : ℕ → DataStructureError
  address_shard_mismatch : DataStructureError
  invalid_message_type : ℕ → DataStructureError
  header_magic_mismatch : ℕ → DataStructureError
  merge_parent_reference_inconsistency : DataStructureError
  truncated_input : ℕ → ℕ → DataStructureError
  trailing_bytes : ℕ → DataStructureError
