-- ===== src/DataStructures/Block/Laws.antt =====
-- Round trip of block headers, and the rule for the second parent.
use the_open_network_x.Prelude.{
  ℕ, ◌+◌, ◌^◌, ◌<◌, ◌≡◌, refl, ◌++◌, Bool, true, false, not, ◌&&◌, length, length-append, ok, arith,
  ◌==◌,
}
use the_open_network_x.Primitives.Error.{Bytes}
use the_open_network_x.Primitives.Uint
use the_open_network_x.Primitives.Uint.Laws.{length-encode}
use the_open_network_x.DataStructures.Shard
use the_open_network_x.DataStructures.Shard.Laws.{
  IsShard, length-to_bytes, shard_from_bytes-to_bytes,
}
use the_open_network_x.DataStructures.Cursor.{
  field-append, field-uint, field-uint256, field-uint256_last,
}
use the_open_network_x.DataStructures.Block.{
  BlockHeader, block_header_magic, is_merge_result, is_zero_hash, hashes_to_bytes, header_to_bytes,
  fields_from_bytes, header_from_bytes,
}

-- The fields fit their types, the magic number is the expected one, and the second parent is there
-- exactly in the result of a merge.
pub record IsHeader (h : BlockHeader) : Type 0 where
  pub magic_is : h.magic_constructor ≡ block_header_magic
  pub shard_is : IsShard h.shard
  pub seq_no_fits : h.seq_no < 256 ^ 4
  pub flags_fits : h.flags < 256 ^ 2
  pub gen_utime_fits : h.gen_utime < 256 ^ 4
  pub start_lt_fits : h.start_lt < 256 ^ 8
  pub end_lt_fits : h.end_lt < 256 ^ 8
  pub prev_key_block_fits : h.prev_key_block < 256 ^ 4
  pub prev_fits : length h.prev_ref_hash ≡ 32
  pub prev_2_fits : length h.prev_ref_hash_2 ≡ 32
  pub master_fits : length h.master_ref_hash ≡ 32
  pub state_fits : length h.state_root_hash ≡ 32
  pub in_fits : length h.in_msg_root_hash ≡ 32
  pub out_fits : length h.out_msg_root_hash ≡ 32
  pub parents : is_zero_hash h.prev_ref_hash_2 ≡ not (is_merge_result h.flags)

-- One part in front of a string of known length.
length_on : (m n : ℕ) (xs ys : Bytes) → length xs ≡ m → length ys ≡ n → length (xs ++ ys) ≡ m + n
length_on m n xs ys h k = omega (arith, length-append xs ys, h, k)

length-header : (h : BlockHeader) → IsHeader h → length (header_to_bytes h) ≡ 238
unfolding header_to_bytes hashes_to_bytes
length-header h v = length_on 4 234 _ _ (length-encode 4 h.magic_constructor) (
    length_on 12 222 _ _ (length-to_bytes h.shard) (
      length_on 4 218 _ _ (length-encode 4 h.seq_no) (
        length_on 2 216 _ _ (length-encode 2 h.flags) (
          length_on 4 212 _ _ (length-encode 4 h.gen_utime) (
            length_on 8 204 _ _ (length-encode 8 h.start_lt) (
              length_on 8 196 _ _ (length-encode 8 h.end_lt) (
                length_on 4 192 _ _ (length-encode 4 h.prev_key_block) (
                  length_on 32 160 _ _ v.prev_fits (
                    length_on 32 128 _ _ v.prev_2_fits (
                      length_on 32 96 _ _ v.master_fits (
                        length_on 32 64 _ _ v.state_fits
                          (length_on 32 32 _ _ v.in_fits v.out_fits))))))))))))

parents_agree : (b : Bool) → (not (not b && not (not b)) ≡ true) × (not (b && not b) ≡ true)
parents_agree true = (refl, refl)
parents_agree false = (refl, refl)

magic_matches : (m : ℕ) → m ≡ block_header_magic → (m == block_header_magic) ≡ true
magic_matches m h = ground arith

fields_from_bytes_lem :
    (h : BlockHeader)
    → IsHeader h
    → fields_from_bytes h.magic_constructor (
        Shard.to_bytes h.shard
        ++ (Uint.encode 4 h.seq_no
            ++ (Uint.encode 2 h.flags
                ++ (Uint.encode 4 h.gen_utime
                    ++ (Uint.encode 8 h.start_lt
                        ++ (Uint.encode 8 h.end_lt
                            ++ (Uint.encode 4 h.prev_key_block ++ hashes_to_bytes h)))))))
      ≡ ok h
unfolding fields_from_bytes hashes_to_bytes
fields_from_bytes_lem h v =
    rw
      (
        field-append 12 Shard.from_bytes (Shard.to_bytes h.shard) _ (length-to_bytes h.shard)
            (shard_from_bytes-to_bytes h.shard v.shard_is),
        field-uint 4 h.seq_no _ v.seq_no_fits,
        field-uint 2 h.flags _ v.flags_fits,
        field-uint 4 h.gen_utime _ v.gen_utime_fits,
        field-uint 8 h.start_lt _ v.start_lt_fits,
        field-uint 8 h.end_lt _ v.end_lt_fits,
        field-uint 4 h.prev_key_block _ v.prev_key_block_fits,
        field-uint256 h.prev_ref_hash _ v.prev_fits,
        field-uint256 h.prev_ref_hash_2 _ v.prev_2_fits,
        v.parents,
        (parents_agree (is_merge_result h.flags)).0,
        (parents_agree (is_merge_result h.flags)).1,
        field-uint256 h.master_ref_hash _ v.master_fits,
        field-uint256 h.state_root_hash _ v.state_fits,
        field-uint256 h.in_msg_root_hash _ v.in_fits,
        field-uint256_last h.out_msg_root_hash v.out_fits,
      )
      refl

-- Decoding the encoding of a well-formed header gives it back.
pub header_from_bytes-to_bytes :
    (h : BlockHeader) → IsHeader h → header_from_bytes (header_to_bytes h) ≡ ok h
unfolding header_from_bytes header_to_bytes
header_from_bytes-to_bytes h v =
    let magic_fits : h.magic_constructor < 256 ^ 4 = omega (arith, v.magic_is) in
    rw
      (
        length-header h v,
        field-uint 4 h.magic_constructor _ magic_fits,
        magic_matches h.magic_constructor v.magic_is,
        fields_from_bytes_lem h v,
      )
      refl
