-- ===== src/DataStructures/Block.antt =====
-- crates/protocol/onx-data-structures/src/block.rs
pub mod Laws
use the_open_network_x.Prelude.{
  ℕ, ◌+◌, ◌-◌, ◌/◌, ◌%◌, ◌++◌, Bool, true, false, not, ◌&&◌, ◌||◌, [], length, Result, ok, err,
  ◌>>=◌, ◌>>◌, require, ltb, ◌==◌, if◌then◌else◌,
}
use the_open_network_x.Prelude.Ord.{same, bytes_ord}
use the_open_network_x.Primitives.Error.{Bytes}
use the_open_network_x.Primitives.FixedBytes.{Uint256}
use the_open_network_x.Primitives.Hash.{Crypto, zeros, block_header_v1, domain_hash}
use the_open_network_x.Primitives.Uint
use the_open_network_x.DataStructures.Error.{
  DataStructureError, header_magic_mismatch, merge_parent_reference_inconsistency, truncated_input,
  trailing_bytes,
}
use the_open_network_x.DataStructures.Shard.{ShardIdent}
use the_open_network_x.DataStructures.Shard
use the_open_network_x.DataStructures.Cursor.{field, uint, uint256}

abbrev pub block_header_magic : ℕ
block_header_magic = 0x1f2e_3d4c

abbrev pub header_length : ℕ
header_length = 4 + 12 + 4 + 2 + 4 + 8 + 8 + 4 + 32 + 32 + 32 + 32 + 32 + 32

pub record BlockHeader : Type 0 where
  pub magic_constructor : ℕ
  pub shard : ShardIdent
  pub seq_no : ℕ
  pub flags : ℕ
  pub gen_utime : ℕ
  pub start_lt : ℕ
  pub end_lt : ℕ
  pub prev_key_block : ℕ
  pub prev_ref_hash : Uint256
  pub prev_ref_hash_2 : Uint256
  pub master_ref_hash : Uint256
  pub state_root_hash : Uint256
  pub in_msg_root_hash : Uint256
  pub out_msg_root_hash : Uint256

-- Bit 4 of the flags, `MERGE_RESULT_FLAG`.
unfoldable pub is_merge_result : ℕ → Bool
is_merge_result flags = flags / 0x0010 % 2 == 1

unfoldable pub is_zero_hash : Uint256 → Bool
is_zero_hash hash = same hash (zeros 32)

-- The encoding, from a field on.
unfoldable pub hashes_to_bytes : BlockHeader → Bytes
hashes_to_bytes self =
    self.prev_ref_hash
    ++ (self.prev_ref_hash_2
        ++ (self.master_ref_hash
            ++ (self.state_root_hash ++ (self.in_msg_root_hash ++ self.out_msg_root_hash))))

unfoldable pub header_to_bytes : BlockHeader → Bytes
header_to_bytes self =
    Uint.encode 4 self.magic_constructor
    ++ (Shard.to_bytes self.shard
        ++ (Uint.encode 4 self.seq_no
            ++ (Uint.encode 2 self.flags
                ++ (Uint.encode 4 self.gen_utime
                    ++ (Uint.encode 8 self.start_lt
                        ++ (Uint.encode 8 self.end_lt
                            ++ (Uint.encode 4 self.prev_key_block ++ hashes_to_bytes self)))))))

-- The fields behind the magic number, with the two parents checked as soon as they are read.
unfoldable pub fields_from_bytes : ℕ → Bytes → Result DataStructureError BlockHeader
fields_from_bytes magic bytes = do
  shard ← field 12 Shard.from_bytes bytes
  seq_no ← field 4 (uint 4) shard.1
  flags ← field 2 (uint 2) seq_no.1
  gen_utime ← field 4 (uint 4) flags.1
  start_lt ← field 8 (uint 8) gen_utime.1
  end_lt ← field 8 (uint 8) start_lt.1
  prev_key_block ← field 4 (uint 4) end_lt.1
  prev_ref_hash ← field 32 uint256 prev_key_block.1
  prev_ref_hash_2 ← field 32 uint256 prev_ref_hash.1
  let merged = is_merge_result flags.0
  let zero_2 = is_zero_hash prev_ref_hash_2.0
  require (not (not merged && not zero_2)) merge_parent_reference_inconsistency
  require (not (merged && zero_2)) merge_parent_reference_inconsistency
  master_ref_hash ← field 32 uint256 prev_ref_hash_2.1
  state_root_hash ← field 32 uint256 master_ref_hash.1
  in_msg_root_hash ← field 32 uint256 state_root_hash.1
  out_msg_root_hash ← field 32 uint256 in_msg_root_hash.1
  ok (record {
    magic_constructor = magic;
    shard = shard.0;
    seq_no = seq_no.0;
    flags = flags.0;
    gen_utime = gen_utime.0;
    start_lt = start_lt.0;
    end_lt = end_lt.0;
    prev_key_block = prev_key_block.0;
    prev_ref_hash = prev_ref_hash.0;
    prev_ref_hash_2 = prev_ref_hash_2.0;
    master_ref_hash = master_ref_hash.0;
    state_root_hash = state_root_hash.0;
    in_msg_root_hash = in_msg_root_hash.0;
    out_msg_root_hash = out_msg_root_hash.0;
  })

unfoldable pub header_from_bytes : Bytes → Result DataStructureError BlockHeader
header_from_bytes bytes =
    if ltb (length bytes) header_length
    then err (truncated_input header_length (length bytes))
    else if ltb header_length (length bytes)
    then err (trailing_bytes (length bytes - header_length))
    else do
      magic ← field 4 (uint 4) bytes
      require (magic.0 == block_header_magic) (header_magic_mismatch magic.0)
      fields_from_bytes magic.0 magic.1

unfoldable pub block_hash : Crypto → BlockHeader → Uint256
block_hash crypto self = domain_hash crypto block_header_v1 (header_to_bytes self)
