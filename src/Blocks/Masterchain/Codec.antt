-- ===== src/Blocks/Masterchain/Codec.antt =====
-- crates/protocol/onx-blocks/src/masterchain.rs: the codec of the shard configuration. The offset of the loop over
-- the entries is the list of the bytes from it on; a usize has 64 bits.
pub mod Laws
use the_open_network_x.Prelude.{
  ℕ, zero, suc, ◌+◌, ◌-◌, ◌%◌, ◌^◌, ◌++◌, List, [], ◌∷◌, length, take, drop, Result, ok, err, ◌>>=◌,
  ◌>>◌, ok_or, map_err, ltb, if◌then◌else◌,
}
use the_open_network_x.Prelude.Words.{u64_max, checked_add, checked_mul}
use the_open_network_x.Primitives.Error.{Bytes}
use the_open_network_x.Primitives.Uint
use the_open_network_x.DataStructures.Error.{DataStructureError, truncated_input, trailing_bytes}
use the_open_network_x.DataStructures.Shard
use the_open_network_x.DataStructures.Cursor.{field, uint, uint256}
use the_open_network_x.Blocks.Error.{BlocksError, data_structure}
use the_open_network_x.Blocks.Masterchain.{ShardEntry, MasterchainBlockExtra, validate_extra}

abbrev pub entry_length : ℕ
entry_length = 12 + 32 + 4

unfoldable pub entry_to_bytes : ShardEntry → Bytes
entry_to_bytes self = Shard.to_bytes self.shard ++ (self.block_hash ++ Uint.encode 4 self.seq_no)

-- The test that a string has exactly the bytes that are expected.
unfoldable pub check_size : ℕ → Bytes → Result BlocksError (Unit {0})
check_size expected bytes =
    if ltb (length bytes) expected
    then err (data_structure (truncated_input expected (length bytes)))
    else if ltb expected (length bytes)
    then err (data_structure (trailing_bytes (length bytes - expected)))
    else ok tt

unfoldable pub entry_fields : Bytes → Result DataStructureError ShardEntry
entry_fields bytes = do
  shard ← field 12 Shard.from_bytes bytes
  block_hash ← field 32 uint256 shard.1
  seq_no ← field 4 (uint 4) block_hash.1
  ok (record { shard = shard.0; block_hash = block_hash.0; seq_no = seq_no.0 })

unfoldable pub entry_from_bytes : Bytes → Result BlocksError ShardEntry
entry_from_bytes bytes = do
  check_size entry_length bytes
  map_err data_structure (entry_fields bytes)

unfoldable pub entries_to_bytes : List ShardEntry → Bytes
entries_to_bytes [] = []
entries_to_bytes (entry ∷ entries) = entry_to_bytes entry ++ entries_to_bytes entries

-- The cast `len() as u32` keeps the low 32 bits.
unfoldable pub extra_to_bytes : MasterchainBlockExtra → Bytes
extra_to_bytes self =
    Uint.encode 4 (length self.shard_entries % 2 ^ 32) ++ entries_to_bytes self.shard_entries

-- The loop over the entries that are left.
unfoldable pub entries_from_bytes : ℕ → Bytes → Result BlocksError (List ShardEntry)
entries_from_bytes zero bytes = ok []
entries_from_bytes (suc count) bytes = do
  entry ← entry_from_bytes (take entry_length bytes)
  entries ← entries_from_bytes count (drop entry_length bytes)
  ok (entry ∷ entries)

abbrev pub too_long : Bytes → BlocksError
too_long bytes = data_structure (truncated_input u64_max (length bytes))

-- The count has been read; the bytes are checked against it before an entry is.
unfoldable pub counted_from_bytes : ℕ → Bytes → Bytes → Result BlocksError MasterchainBlockExtra
counted_from_bytes count bytes behind = do
  entries_len ← ok_or (checked_mul u64_max count entry_length) (too_long bytes)
  expected ← ok_or (checked_add u64_max 4 entries_len) (too_long bytes)
  check_size expected bytes
  shard_entries ← entries_from_bytes count behind
  let extra : MasterchainBlockExtra = record { shard_entries = shard_entries }
  validate_extra extra
  ok extra

unfoldable pub extra_from_bytes : Bytes → Result BlocksError MasterchainBlockExtra
extra_from_bytes bytes =
    if ltb (length bytes) 4 then err (data_structure (truncated_input 4 (length bytes))) else do
      count ← map_err data_structure (field 4 (uint 4) bytes)
      counted_from_bytes count.0 bytes count.1
