-- ===== src/Blocks/Masterchain/Codec/Laws.antt =====
-- Round trip of the shard configuration.
use the_open_network_x.Prelude.{
  ℕ, ◌+◌, ◌*◌, ◌%◌, ◌^◌, ◌<◌, ◌≡◌, refl, ◌++◌, List, [], ◌∷◌, length, length-append, append-nil,
  some, take-append_at, drop-append_at, All, ok, arith, ltb, false,
}
use the_open_network_x.Prelude.Words.{u64_max, checked_add, checked_mul}
use the_open_network_x.Primitives.Error.{Bytes}
use the_open_network_x.Primitives.Uint
use the_open_network_x.Primitives.Uint.Laws.{length-encode}
use the_open_network_x.DataStructures.Shard
use the_open_network_x.DataStructures.Shard.Laws.{
  IsShard, length-to_bytes, shard_from_bytes-to_bytes,
}
use the_open_network_x.DataStructures.Cursor.{field, uint, field-append, field-uint, field-uint256}
use the_open_network_x.Blocks.Masterchain.{ShardEntry, MasterchainBlockExtra, validate_extra}
use the_open_network_x.Blocks.Masterchain.Codec.{
  entry_length, entry_to_bytes, check_size, entry_fields, entry_from_bytes, entries_to_bytes,
  extra_to_bytes, entries_from_bytes, counted_from_bytes, extra_from_bytes,
}

-- The fields fit their types.
pub record IsEntry (e : ShardEntry) : Type 0 where
  pub shard_is : IsShard e.shard
  pub hash_fits : length e.block_hash ≡ 32
  pub seq_no_fits : e.seq_no < 256 ^ 4

check_size_ok : (n : ℕ) (bytes : Bytes) → length bytes ≡ n → check_size n bytes ≡ ok tt
unfolding check_size
check_size_ok n bytes h = ground arith

length-entry : (e : ShardEntry) → IsEntry e → length (entry_to_bytes e) ≡ entry_length
unfolding entry_to_bytes
length-entry e h = omega (
  arith,
  length-append (Shard.to_bytes e.shard) (e.block_hash ++ Uint.encode 4 e.seq_no),
  length-append e.block_hash (Uint.encode 4 e.seq_no),
  length-to_bytes e.shard,
  length-encode 4 e.seq_no,
  h.hash_fits,
)

field-uint_last : (n v : ℕ) → v < 256 ^ n → field n (uint n) (Uint.encode n v) ≡ ok (v, [])
field-uint_last n v h = rw append-nil at (field-uint n v [] h)

entry_fields_lem : (e : ShardEntry) → IsEntry e → entry_fields (entry_to_bytes e) ≡ ok e
unfolding entry_fields entry_to_bytes
entry_fields_lem e h =
    rw
      (
        field-append 12 Shard.from_bytes (Shard.to_bytes e.shard) _ (length-to_bytes e.shard)
            (shard_from_bytes-to_bytes e.shard h.shard_is),
        field-uint256 e.block_hash _ h.hash_fits,
        field-uint_last 4 e.seq_no h.seq_no_fits,
      )
      refl

entry_from_bytes-to_bytes :
    (e : ShardEntry) → IsEntry e → entry_from_bytes (entry_to_bytes e) ≡ ok e
unfolding entry_from_bytes
entry_from_bytes-to_bytes e h =
    rw (check_size_ok entry_length (entry_to_bytes e) (length-entry e h), entry_fields_lem e h) refl

length-entries :
    (es : List ShardEntry)
    → All IsEntry es
    → length (entries_to_bytes es) ≡ length es * entry_length
unfolding entries_to_bytes
length-entries [] h = refl
length-entries (e ∷ es) h = omega (
  arith,
  length-append (entry_to_bytes e) (entries_to_bytes es),
  length-entry e h.0,
  length-entries es h.1,
)

entries_from_bytes-to_bytes :
    (es : List ShardEntry)
    → All IsEntry es
    → entries_from_bytes (length es) (entries_to_bytes es) ≡ ok es
unfolding entries_from_bytes entries_to_bytes
entries_from_bytes-to_bytes [] h = refl
entries_from_bytes-to_bytes (e ∷ es) h =
    let size = length-entry e h.0 in
    rw
      (
        take-append_at entry_length (entry_to_bytes e) (entries_to_bytes es) size,
        drop-append_at entry_length (entry_to_bytes e) (entries_to_bytes es) size,
        entry_from_bytes-to_bytes e h.0,
        entries_from_bytes-to_bytes es h.1,
      )
      refl

-- A u64 holds the length of the bytes of that many entries.
no_overflow :
    (n : ℕ)
    → n < 2 ^ 32
    → (checked_mul u64_max n entry_length ≡ some (n * entry_length))
      × (checked_add u64_max 4 (n * entry_length) ≡ some (4 + n * entry_length))
no_overflow n few = ground arith

counted_from_bytes_lem :
    (extra : MasterchainBlockExtra) (bytes : Bytes)
    → All IsEntry extra.shard_entries
    → length extra.shard_entries < 2 ^ 32
    → validate_extra extra ≡ ok tt
    → length bytes ≡ 4 + length extra.shard_entries * entry_length
    → counted_from_bytes (length extra.shard_entries) bytes (entries_to_bytes extra.shard_entries)
      ≡ ok extra
unfolding counted_from_bytes
counted_from_bytes_lem extra bytes entries few valid size =
    let n = length extra.shard_entries in
    rw
      (
        (no_overflow n few).0,
        (no_overflow n few).1,
        check_size_ok (4 + n * entry_length) bytes size,
        entries_from_bytes-to_bytes extra.shard_entries entries,
        valid,
      )
      refl

-- Decoding the encoding of a shard configuration gives it back, if its entries fit their types, are in order and
-- without duplicates and number below 2 ^ 32.
pub extra_from_bytes-to_bytes :
    (extra : MasterchainBlockExtra)
    → All IsEntry extra.shard_entries
    → length extra.shard_entries < 2 ^ 32
    → validate_extra extra ≡ ok tt
    → extra_from_bytes (extra_to_bytes extra) ≡ ok extra
unfolding extra_from_bytes extra_to_bytes
extra_from_bytes-to_bytes extra entries few valid =
    let n = length extra.shard_entries in
    let behind = entries_to_bytes extra.shard_entries in
    let size : length (Uint.encode 4 n ++ behind) ≡ 4 + n * entry_length = omega (
      arith,
      length-append (Uint.encode 4 n) behind,
      length-encode 4 n,
      length-entries extra.shard_entries entries,
    ) in
    let kept : n % 2 ^ 32 ≡ n = omega (arith, few) in
    let enough : ltb (4 + n * entry_length) 4 ≡ false = ground arith in
    rw (kept, size, enough, field-uint 4 n behind few)
      (counted_from_bytes_lem extra (Uint.encode 4 n ++ behind) entries few valid size)
