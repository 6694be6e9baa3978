-- ===== src/Blocks/Validity.antt =====
-- crates/protocol/onx-blocks/src/validity.rs. The sequence numbers are compared as `u64`, so the sum does not
-- wrap there; the expected number of an error wraps at 32 bits.
pub mod Laws
use the_open_network_x.Prelude.{
  ℕ, suc, ◌+◌, ◌%◌, ◌^◌, max, Bool, false, not, ◌&&◌, ◌||◌, Option, none, some, Result, ok, err,
  ◌>>=◌, ◌>>◌, require, ok_or, ltb, ◌==◌, if◌then◌else◌,
}
use the_open_network_x.Prelude.Ord.{same, bytes_ord}
use the_open_network_x.Primitives.FixedBytes.{Uint256}
use the_open_network_x.Primitives.Hash.{Crypto}
use the_open_network_x.DataStructures.Block.{BlockHeader, is_merge_result, block_hash}
use the_open_network_x.Blocks.Error.{
  BlocksError, unresolvable_parent, sequence_discontinuity, non_monotonic_time, state_root_mismatch,
  invalid_successor_after_commit,
}
use the_open_network_x.Blocks.Flags.{validate_flags, is_split_commit, is_merge_commit}

pub record RecomputedRoots : Type 0 where
  pub state_root_hash : Uint256
  pub in_msg_root_hash : Uint256
  pub out_msg_root_hash : Uint256

-- No block may follow the last one of a shard that is split or merged.
unfoldable pub is_last : BlockHeader → Bool
is_last parent = is_split_commit parent.flags || is_merge_commit parent.flags

unfoldable pub same_roots : BlockHeader → RecomputedRoots → Bool
same_roots header recomputed =
    same header.state_root_hash recomputed.state_root_hash
    && same header.in_msg_root_hash recomputed.in_msg_root_hash
    && same header.out_msg_root_hash recomputed.out_msg_root_hash

-- The checks of the two arms against the parents.
unfoldable pub validate_merge :
    Crypto → BlockHeader → BlockHeader → BlockHeader → Result BlocksError (Unit {0})
validate_merge crypto header parent p2 = do
  require
      (same header.prev_ref_hash (block_hash crypto parent)
        && same header.prev_ref_hash_2 (block_hash crypto p2))
      unresolvable_parent
  require (header.seq_no == max parent.seq_no p2.seq_no + 1)
      (sequence_discontinuity ((max parent.seq_no p2.seq_no + 1) % 2 ^ 32) header.seq_no)
  require (not (ltb header.gen_utime parent.gen_utime || ltb header.gen_utime p2.gen_utime))
      non_monotonic_time
  require
      (not (
        ltb header.start_lt parent.end_lt
        || (ltb header.start_lt p2.end_lt || ltb header.end_lt header.start_lt)))
      non_monotonic_time
  ok tt

unfoldable pub validate_ordinary :
    Crypto → BlockHeader → BlockHeader → Result BlocksError (Unit {0})
validate_ordinary crypto header parent = do
  require (same header.prev_ref_hash (block_hash crypto parent)) unresolvable_parent
  require (header.seq_no == parent.seq_no + 1)
      (sequence_discontinuity ((parent.seq_no + 1) % 2 ^ 32) header.seq_no)
  require (not (ltb header.gen_utime parent.gen_utime)) non_monotonic_time
  require (not (ltb header.start_lt parent.end_lt || ltb header.end_lt header.start_lt))
      non_monotonic_time
  ok tt

-- The arm that the flags choose; a merge needs the second parent.
unfoldable pub validate_parents :
    Crypto → BlockHeader → BlockHeader → Option BlockHeader → Result BlocksError (Unit {0})
validate_parents crypto header parent parent_2 =
    if is_merge_result header.flags
    then elim parent_2 [
      | none ↦ err unresolvable_parent
      | some p2 ↦ validate_merge crypto header parent p2
    ]
    else validate_ordinary crypto header parent

abbrev pub second_is_last : Option BlockHeader → Bool
second_is_last none = false
second_is_last (some p2) = is_last p2

unfoldable pub validate_block_successor :
    Crypto
    → BlockHeader
    → BlockHeader
    → Option BlockHeader
    → RecomputedRoots
    → Result BlocksError (Unit {0})
validate_block_successor crypto header parent parent_2 recomputed = do
  validate_flags header.flags
  validate_parents crypto header parent parent_2
  require (same_roots header recomputed) state_root_mismatch
  require (not (is_last parent)) invalid_successor_after_commit
  require (not (second_is_last parent_2)) invalid_successor_after_commit
  ok tt

unfoldable pub validate_ordinary_successor :
    Crypto → BlockHeader → BlockHeader → RecomputedRoots → Result BlocksError (Unit {0})
validate_ordinary_successor crypto header parent recomputed =
    validate_block_successor crypto header parent none recomputed
