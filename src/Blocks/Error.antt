-- ===== src/Blocks/Error.antt =====
-- crates/protocol/onx-blocks/src/error.rs
use the_open_network_x.Prelude.{ℕ}
use the_open_network_x.DataStructures.Error.{DataStructureError}

pub data BlocksError : Type 0 where
  data_structure : DataStructureError → BlocksError
  unresolvable_parent : BlocksError
  -- expected, actual
  sequence_discontinuity : ℕ → ℕ → BlocksError
  non_monotonic_time : BlocksError
  state_root_mismatch : BlocksError
  conflicting_split_merge_flags : ℕ → BlocksError
  reserved_flag_bit_set : ℕ → BlocksError
  invalid_successor_after_commit : BlocksError
  unsorted_shard_entries : BlocksError
  duplicate_shard_entry : BlocksError
  invalid_masterchain_reference : BlocksError
