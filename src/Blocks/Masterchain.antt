-- ===== src/Blocks/Masterchain.antt =====
-- crates/protocol/onx-blocks/src/masterchain.rs: the shard configuration that a masterchain block commits to,
-- and the reference of a block to the masterchain.
pub mod Codec
use Prim.Native.Nat.Ordering.{lt, eq, gt}
use the_open_network_x.Prelude.{
  ℕ, Bool, false, ◌&&◌, ◌||◌, Option, none, some, List, [], ◌∷◌, Result, ok, err, ◌==◌,
  if◌then◌else◌,
}
use the_open_network_x.Prelude.Ord.{same, cmp_bytes, bytes_ord}
use the_open_network_x.Prelude.Int.{int_ord}
use the_open_network_x.Primitives.FixedBytes.{Uint256}
use the_open_network_x.Primitives.Hash.{Crypto}
use the_open_network_x.DataStructures.Address.{is_masterchain}
use the_open_network_x.DataStructures.Shard.{ShardIdent}
use the_open_network_x.DataStructures.Shard
use the_open_network_x.DataStructures.Block.{BlockHeader, is_zero_hash, block_hash}
use the_open_network_x.Blocks.Error.{
  BlocksError, duplicate_shard_entry, unsorted_shard_entries, invalid_masterchain_reference,
}

pub record ShardEntry : Type 0 where
  pub shard : ShardIdent
  pub block_hash : Uint256
  pub seq_no : ℕ

pub record MasterchainBlockExtra : Type 0 where
  pub shard_entries : List ShardEntry

-- `windows(2)`: each entry with the next.
unfoldable pub validate_entries : List ShardEntry → Result BlocksError (Unit {0})
validate_entries [] = ok tt
validate_entries (a ∷ []) = ok tt
validate_entries (a ∷ b ∷ entries) =
    let later = validate_entries (b ∷ entries) in
    elim (cmp_bytes (Shard.to_bytes a.shard) (Shard.to_bytes b.shard)) [
      | eq ↦ err duplicate_shard_entry
      | gt ↦ err unsorted_shard_entries
      | lt ↦ later
    ]

unfoldable pub validate_extra : MasterchainBlockExtra → Result BlocksError (Unit {0})
validate_extra self = validate_entries self.shard_entries

-- The derived equality of shard identifiers.
abbrev pub same_shard : ShardIdent → ShardIdent → Bool
same_shard a b = same a.workchain_id b.workchain_id && a.shard_prefix_ident == b.shard_prefix_ident

unfoldable pub commits : List ShardEntry → ShardIdent → Uint256 → ℕ → Bool
commits [] shard hash seq_no = false
commits (entry ∷ entries) shard hash seq_no =
    (same_shard entry.shard shard && same entry.block_hash hash && entry.seq_no == seq_no)
    || commits entries shard hash seq_no

unfoldable pub is_canonical : MasterchainBlockExtra → ShardIdent → Uint256 → ℕ → Bool
is_canonical self shard hash seq_no = commits self.shard_entries shard hash seq_no

unfoldable pub validate_master_ref :
    Crypto → BlockHeader → Option BlockHeader → Result BlocksError (Unit {0})
validate_master_ref crypto header resolved_masterchain_block =
    if is_masterchain header.shard.workchain_id
    then if is_zero_hash header.master_ref_hash then ok tt else err invalid_masterchain_reference
    else elim resolved_masterchain_block [
      | none ↦ err invalid_masterchain_reference
      | some masterchain_block ↦
          if is_masterchain masterchain_block.shard.workchain_id
            && same header.master_ref_hash (block_hash crypto masterchain_block)
          then ok tt
          else err invalid_masterchain_reference
    ]
