-- ===== src/Networking/Rldp/Frame/Laws.antt =====
-- Decoding the encoding of a frame.
use the_open_network_x.Prelude.{
  ℕ, ◌+◌, ◌%◌, ◌^◌, ◌<◌, ◌≡◌, refl, sym, ap, ◌∙◌, ◌++◌, true, false, not, ◌||◌, take, drop, length,
  length-append, take-append_at, drop-append_at, drop-drop, ok, ltb, leb, ◌==◌, ==_refl, le→ltb,
  arith,
}
use the_open_network_x.Prelude.Words.{to_be, from_be, length-to_be, from_be-to_be}
use the_open_network_x.Primitives.Error.{Bytes}
use the_open_network_x.Networking.Rldp.Frame.{
  data_tag, validate_dimensions, RldpDataFrame, frame_encode, part, frame_decode,
}

-- The fields fit their types, and the frame is one of a transfer.
pub record IsFrame (f : RldpDataFrame) : Type 0 where
  pub id_length : length f.transfer_id ≡ 32
  pub digest_length : length f.payload_digest ≡ 32
  pub total_fits : f.total_size < 2 ^ 32
  pub size_fits : f.chunk_size < 2 ^ 16
  pub count_fits : f.chunk_count < 2 ^ 16
  pub dimensions : validate_dimensions f.total_size f.chunk_size f.chunk_count ≡ ok tt
  pub seq_below : f.seq_no < f.chunk_count
  pub data_length : length f.chunk_data ≡ f.chunk_size

drop_next :
    (a n b : ℕ) (wire x y : Bytes)
    → a + n ≡ b
    → drop a wire ≡ x ++ y
    → length x ≡ n
    → (part a n wire ≡ x) × (drop b wire ≡ y)
drop_next a n b wire x y at here long =
    let behind : drop b wire ≡ drop n (drop a wire) =
      ap (λ i. drop i wire) (sym at) ∙ sym (drop-drop n a wire) in
    (
      ap (take n) here ∙ take-append_at n x y long,
      behind ∙ ap (drop n) here ∙ drop-append_at n x y long,
    )

not_reached : (seq count : ℕ) → seq < count → leb count seq ≡ false
not_reached seq count h = ground (arith, h)

-- A byte string with the parts of a frame.
record HasParts (wire : Bytes) (f : RldpDataFrame) : Type 0 where
  tag_is : from_be (part 0 4 wire) ≡ data_tag
  id_is : part 4 32 wire ≡ f.transfer_id
  digest_is : part 36 32 wire ≡ f.payload_digest
  total_is : from_be (part 68 4 wire) ≡ f.total_size
  size_is : from_be (part 72 2 wire) ≡ f.chunk_size
  count_is : from_be (part 74 2 wire) ≡ f.chunk_count
  seq_is : from_be (part 76 2 wire) ≡ f.seq_no
  len_is : from_be (part 78 2 wire) ≡ f.chunk_size
  data_is : drop 80 wire ≡ f.chunk_data
  length_is : length wire ≡ 80 + f.chunk_size

frame_decode-parts :
    (wire : Bytes) (f : RldpDataFrame) → IsFrame f → HasParts wire f → frame_decode wire ≡ ok f
unfolding frame_decode
frame_decode-parts wire f h p =
    let long : ltb (length wire) 80 ≡ false =
      let l = p.length_is in le→ltb (length wire) 80 (omega (arith, l)) in
    let seq_below : leb f.chunk_count f.seq_no ≡ false =
      not_reached f.seq_no f.chunk_count h.seq_below in
    rw
      (
        frame_decode,
        long,
        p.tag_is,
        p.total_is,
        p.size_is,
        p.count_is,
        p.seq_is,
        p.len_is,
        h.dimensions,
        seq_below,
        ==_refl f.chunk_size,
        p.length_is,
        ==_refl (80 + f.chunk_size),
        p.id_is,
        p.digest_is,
        p.data_is,
      )
      refl

-- The frame that is encoded comes back, and its encoding is as long as its header and its chunk.
pub frame_decode-encode :
    (f : RldpDataFrame)
    → IsFrame f
    → (wire : Bytes) × (frame_encode f ≡ ok wire)
      × (length wire ≡ 80 + f.chunk_size)
      × (frame_decode wire ≡ ok f)
unfolding frame_encode frame_decode
frame_decode-encode f h =
    let r78 = f.chunk_data in
    let d78 = to_be 2 (length f.chunk_data % 2 ^ 16) in
    let r76 = d78 ++ r78 in
    let d76 = to_be 2 f.seq_no in
    let r74 = d76 ++ r76 in
    let d74 = to_be 2 f.chunk_count in
    let r72 = d74 ++ r74 in
    let d72 = to_be 2 f.chunk_size in
    let r68 = d72 ++ r72 in
    let d68 = to_be 4 f.total_size in
    let r36 = d68 ++ r68 in
    let r4 = f.payload_digest ++ r36 in
    let r0 = f.transfer_id ++ r4 in
    let wire = to_be 4 data_tag ++ r0 in
    let tag = drop_next 0 4 4 wire (to_be 4 data_tag) r0 refl refl (length-to_be 4 data_tag) in
    let id = drop_next 4 32 36 wire f.transfer_id r4 refl tag.1 h.id_length in
    let digest = drop_next 36 32 68 wire f.payload_digest r36 refl id.1 h.digest_length in
    let total = drop_next 68 4 72 wire d68 r68 refl digest.1 (length-to_be 4 f.total_size) in
    let size = drop_next 72 2 74 wire d72 r72 refl total.1 (length-to_be 2 f.chunk_size) in
    let chunks = drop_next 74 2 76 wire d74 r74 refl size.1 (length-to_be 2 f.chunk_count) in
    let seq = drop_next 76 2 78 wire d76 r76 refl chunks.1 (length-to_be 2 f.seq_no) in
    let len =
      drop_next 78 2 80 wire d78 r78 refl seq.1 (length-to_be 2 (length f.chunk_data % 2 ^ 16)) in
    let seq_fits : f.seq_no < 2 ^ 16 =
      let s = h.seq_below in let c = h.count_fits in omega (arith, s, c) in
    let same_len : length f.chunk_data % 2 ^ 16 ≡ f.chunk_size =
      let l = h.data_length in let s = h.size_fits in omega (arith, l, s) in
    let total_length : length wire ≡ 80 + f.chunk_size = omega (
      arith,
      length-append (to_be 4 data_tag) r0,
      length-append f.transfer_id r4,
      length-append f.payload_digest r36,
      length-append d68 r68,
      length-append d72 r72,
      length-append d74 r74,
      length-append d76 r76,
      length-append d78 r78,
      length-to_be 4 data_tag,
      length-to_be 4 f.total_size,
      length-to_be 2 f.chunk_size,
      length-to_be 2 f.chunk_count,
      length-to_be 2 f.seq_no,
      length-to_be 2 (length f.chunk_data % 2 ^ 16),
      h.id_length,
      h.digest_length,
      h.data_length,
    ) in
    let accepted : not (leb f.chunk_count f.seq_no || not (length f.chunk_data == f.chunk_size))
        ≡ true =
      rw (not_reached f.seq_no f.chunk_count h.seq_below, h.data_length, ==_refl f.chunk_size)
        refl in
    (
      wire,
      rw (frame_encode, h.dimensions, accepted) refl,
      total_length,
      frame_decode-parts wire f h (record {
        tag_is = ap from_be tag.0 ∙ from_be-to_be 4 data_tag (omega arith);
        id_is = id.0;
        digest_is = digest.0;
        total_is = ap from_be total.0 ∙ from_be-to_be 4 f.total_size h.total_fits;
        size_is = ap from_be size.0 ∙ from_be-to_be 2 f.chunk_size h.size_fits;
        count_is = ap from_be chunks.0 ∙ from_be-to_be 2 f.chunk_count h.count_fits;
        seq_is = ap from_be seq.0 ∙ from_be-to_be 2 f.seq_no seq_fits;
        len_is =
            ap from_be len.0
            ∙ ap (λ n. from_be (to_be 2 n)) same_len
            ∙ from_be-to_be 2 f.chunk_size h.size_fits;
        data_is = len.1;
        length_is = total_length;
      }),
    )
