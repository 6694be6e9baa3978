-- ===== src/Blocks/Flags.antt =====
-- crates/protocol/onx-blocks/src/flags.rs. The flags are a `u16`; a mask is read off its bits.
use the_open_network_x.Prelude.{ℕ, ◌+◌, ◌/◌, ◌%◌, Bool, not, Result, ok, ◌>>◌, require, ltb, ◌==◌}
use the_open_network_x.Blocks.Error.{
  BlocksError, conflicting_split_merge_flags, reserved_flag_bit_set,
}

-- The bits of the mask, from the lowest: SPLIT_PREPARE, SPLIT_COMMIT, MERGE_PREPARE, MERGE_COMMIT.
unfoldable pub announcement_count : ℕ → ℕ
announcement_count flags = flags % 2 + flags / 2 % 2 + flags / 4 % 2 + flags / 8 % 2

-- The reserved bits are those from the fifth on.
unfoldable pub validate_flags : ℕ → Result BlocksError (Unit {0})
unfolding announcement_count
validate_flags flags = do
  require (flags / 32 == 0) (reserved_flag_bit_set flags)
  require (not (ltb 1 (announcement_count flags))) (conflicting_split_merge_flags flags)
  ok tt

unfoldable pub is_split_commit : ℕ → Bool
is_split_commit flags = flags / 0x0002 % 2 == 1

unfoldable pub is_merge_commit : ℕ → Bool
is_merge_commit flags = flags / 0x0008 % 2 == 1
