-- ===== src/Networking/Rldp/Loop.antt =====
-- The receiving loop on packets of one transfer.
use native.Mathlib.Nat.{zero-add}
use the_open_network_x.Prelude.{
  ℕ, ◌*◌, ◌≤◌, ◌<◌, ◌≡◌, ◌≢◌, refl, sym, ap, subst, ◌∙◌, ◌⊎◌, inl, inr, true, false, Option, none,
  some, List, [], ◌∷◌, All, All-imp, length, take, drop, Result, ok, err, ◌==◌, ==→eq, ==→ne,
  ==_refl, arith, Bool-cases,
}
use the_open_network_x.Prelude.Ord.{same_refl, cmp_bytes_self, nat_ord, bytes_ord}
use the_open_network_x.Prelude.BTreeMap.{lookup}
use the_open_network_x.Prelude.BTreeMap.Sorted.{IsSorted}
use the_open_network_x.Primitives.Error.{Bytes}
use the_open_network_x.Primitives.Hash.{Crypto}
use the_open_network_x.Primitives.FixedBytes.{Uint256}
use the_open_network_x.Networking.Error.{NetworkError}
use the_open_network_x.Networking.Rldp.Frame.{
  max_transfer_size, ceil_div, RldpDataFrame, RldpAckFrame, frame_decode,
}
use the_open_network_x.Networking.Rldp.Sender.{chunk_at, frame_at}
use the_open_network_x.Networking.Rldp.Receiver.{
  RldpReceiver, or_insert, matches, ack, assemble, ingest, recv_loop,
}
use the_open_network_x.Networking.Rldp.Chunks.{
  IsChunk, AtLeast, length_bound, pieces, take-pieces, ceil_div-covers, lookup-full, join-full,
  full-length,
}
use the_open_network_x.Networking.Rldp.Store.{
  or_insert-IsSorted, All-or_insert, lookup-or_insert_self, lookup-or_insert,
}
use the_open_network_x.Networking.Rldp.Rounds.{recv_loop_junk, recv_loop_done, recv_loop_waits}

-- Some of the packets is the frame.
abbrev pub Brings : RldpDataFrame → List Bytes → Type 0
Brings frame [] = ⊥
Brings frame (packet ∷ packets) = (frame_decode packet ≡ ok frame) ⊎ Brings frame packets

-- A transfer that a sender can start.
module _ (crypto : Crypto) (id : Uint256) (payload : Bytes) (size : ℕ) where
  abbrev pub count : ℕ
  count = ceil_div (length payload) size

  abbrev pub frame_of : ℕ → RldpDataFrame
  frame_of index = frame_at id (crypto.sha256 payload) payload size count index

  pub record IsTransfer : Type 0 where
    pub some_size : 1 ≤ size
    pub some_payload : 1 ≤ length payload
    pub payload_fits : length payload ≤ max_transfer_size

  -- A receiver of the transfer that still waits for chunks.
  pub record IsPartial (r : RldpReceiver) : Type 0 where
    pub id_is : r.transfer_id ≡ id
    pub digest_is : r.digest ≡ crypto.sha256 payload
    pub total_is : r.total_size ≡ length payload
    pub size_is : r.chunk_size ≡ size
    pub count_is : r.chunk_count ≡ count
    pub sorted : IsSorted r.chunks
    pub held : All (IsChunk payload size count) r.chunks
    pub waiting : length r.chunks < count

  -- A packet that is not a frame, or the frame of a chunk.
  abbrev pub IsSent : Bytes → Type 0
  IsSent packet =
      ((e : NetworkError) × (frame_decode packet ≡ err e))
      ⊎ ((seq : ℕ) × (seq < count) × (frame_decode packet ≡ ok (frame_of seq)))

  abbrev pub Comes : ℕ → List Bytes → Type 0
  Comes seq packets = Brings (frame_of seq) packets

  module _ (transfer : IsTransfer) where
    with_chunk : RldpReceiver → ℕ → RldpReceiver
    with_chunk r seq = record r { chunks = or_insert seq (chunk_at payload size seq) r.chunks }

    matches-frame_of : (r : RldpReceiver) (seq : ℕ) → IsPartial r → matches r (frame_of seq) ≡ true
    unfolding matches frame_at
    matches-frame_of r seq h =
        rw (h.id_is, h.digest_is, h.total_is, h.size_is, h.count_is)
          (ground (arith, cmp_bytes_self id, cmp_bytes_self (crypto.sha256 payload)))

    -- With all chunks there, the payload.
    assemble-full :
        (r : RldpReceiver)
        → r.digest ≡ crypto.sha256 payload
        → r.total_size ≡ length payload
        → r.chunk_count ≡ count
        → IsSorted r.chunks
        → All (IsChunk payload size count) r.chunks
        → length r.chunks ≡ count
        → assemble crypto r ≡ ok (some payload)
    unfolding assemble
    assemble-full r digest_is total_is count_is sorted held full =
        let at_least : All (AtLeast payload size 0) r.chunks =
          All-imp (λ e h. omega arith) r.chunks held in
        let joined = join-full payload size count 0 r.chunks (λ seq above below.
          lookup-full payload size count 0 r.chunks sorted at_least
            (subst (λ n. All (IsChunk payload size n) r.chunks) (sym (zero-add count)) held) full
            seq above below) in
        let start : 0 * size ≡ 0 = omega arith in
        let covered = ceil_div-covers (length payload) size transfer.some_size in
        let whole : take (length payload) (pieces size count (drop (0 * size) payload)) ≡ payload =
          rw start (take-pieces size count payload covered) in
        rw
          (
            assemble,
            full,
            count_is,
            ==_refl count,
            joined,
            total_is,
            whole,
            digest_is,
            same_refl (crypto.sha256 payload),
          )
          refl

    assemble-partial :
        (r : RldpReceiver)
        → r.chunk_count ≡ count
        → (length r.chunks == count) ≡ false
        → assemble crypto r ≡ ok none
    unfolding assemble
    assemble-partial r count_is partial = rw (assemble, count_is, partial) refl

    -- What a frame of the transfer leads to.
    abbrev Ingested : RldpReceiver → ℕ → Type 0
    Ingested r seq =
        (ingest crypto r (frame_of seq) ≡ (ok (some payload), with_chunk r seq))
        ⊎ (ingest crypto r (frame_of seq) ≡ (ok none, with_chunk r seq))
          × IsPartial (with_chunk r seq)

    ingest-frame_of : (r : RldpReceiver) (seq : ℕ) → IsPartial r → seq < count → Ingested r seq
    unfolding ingest with_chunk frame_at
    ingest-frame_of r seq h below =
        let chunk = chunk_at payload size seq in
        let sorted = or_insert-IsSorted seq chunk r.chunks h.sorted in
        let held =
          All-or_insert (IsChunk payload size count) seq chunk r.chunks (below, refl) h.held in
        let matched = matches-frame_of r seq h in
        elim (Bool-cases (length (or_insert seq chunk r.chunks) == count)) [
          | inl full ↦
              let assembled =
                assemble-full (with_chunk r seq) h.digest_is h.total_is h.count_is sorted held
                  (==→eq (length (or_insert seq chunk r.chunks)) count full) in
              inl (rw (ingest, matched, assembled) refl)
          | inr partial ↦
              let waits = assemble-partial (with_chunk r seq) h.count_is partial in
              let least : All (AtLeast payload size 0) (or_insert seq chunk r.chunks) =
                All-imp (λ e p. omega arith) (or_insert seq chunk r.chunks) held in
              let bound =
                length_bound payload size 0 count (or_insert seq chunk r.chunks) sorted least
                  held in
              let apart = ==→ne (length (or_insert seq chunk r.chunks)) count partial in
              inr (
                rw (ingest, matched, waits) refl,
                record {
                  id_is = h.id_is;
                  digest_is = h.digest_is;
                  total_is = h.total_is;
                  size_is = h.size_is;
                  count_is = h.count_is;
                  sorted = sorted;
                  held = held;
                  waiting = omega (arith, bound, apart);
                },
              )
        ]

    -- The state of a loop that has the payload, and of one that waits for a chunk.
    abbrev pub Received : Result NetworkError (Option Bytes × List RldpAckFrame) → Type 0
    Received r = (acks : List RldpAckFrame) × (r ≡ ok (some payload, acks))

    abbrev pub Waits : Result NetworkError (Option Bytes × List RldpAckFrame) → Type 0
    Waits r = (acks : List RldpAckFrame) × (r ≡ ok (none, acks))

    held_or_none : {chunk : Option Bytes} → (chunk ≢ none) ⊎ ⊥ → chunk ≢ none
    held_or_none (inl held) = held
    held_or_none (inr never) = absurd never

    not_in_junk :
        {chunk : Option Bytes} (j : ℕ) (packet : Bytes) (packets : List Bytes) (e : NetworkError)
        → frame_decode packet ≡ err e
        → (chunk ≢ none) ⊎ (frame_decode packet ≡ ok (frame_of j)) ⊎ Comes j packets
        → (chunk ≢ none) ⊎ Comes j packets
    not_in_junk j packet packets e junk (inl held) = inl held
    not_in_junk j packet packets e junk (inr (inl here)) =
        absurd (let both = sym junk ∙ here in ground (arith, both))
    not_in_junk j packet packets e junk (inr (inr later)) = inr later

    same_seq :
        (packet : Bytes) (i j : ℕ)
        → frame_decode packet ≡ ok (frame_of i)
        → frame_decode packet ≡ ok (frame_of j)
        → j ≡ i
    unfolding frame_at
    same_seq packet i j h k = ap (λ r. elim r [ ok frame ↦ frame.seq_no | err e ↦ 0 ]) (sym k ∙ h)

    ack-IsPartial : (r : RldpReceiver) → IsPartial r → IsPartial (ack r).1
    unfolding ack
    ack-IsPartial r h = record {
      id_is = h.id_is;
      digest_is = h.digest_is;
      total_is = h.total_is;
      size_is = h.size_is;
      count_is = h.count_is;
      sorted = h.sorted;
      held = h.held;
      waiting = h.waiting;
    }

    -- A chunk that was held or was to come, after a frame has come.
    then_held :
        (r : RldpReceiver) (seq j : ℕ) (packet : Bytes) (packets : List Bytes)
        → frame_decode packet ≡ ok (frame_of seq)
        → (lookup j r.chunks ≢ none) ⊎ (frame_decode packet ≡ ok (frame_of j)) ⊎ Comes j packets
        → (lookup j (ack (with_chunk r seq)).1.chunks ≢ none) ⊎ Comes j packets
    unfolding ack with_chunk
    then_held r seq j packet packets decoded (inl held) =
        inl (lookup-or_insert j seq (chunk_at payload size seq) r.chunks held)
    then_held r seq j packet packets decoded (inr (inl here)) = inl (
        subst (λ i. lookup i (or_insert seq (chunk_at payload size seq) r.chunks) ≢ none)
          (sym (same_seq packet seq j decoded here))
          (lookup-or_insert_self seq (chunk_at payload size seq) r.chunks))
    then_held r seq j packet packets decoded (inr (inr later)) = inr later

    pub recv_loop-IsSent :
        (packets : List Bytes) (r : RldpReceiver)
        → IsPartial r
        → All IsSent packets
        → Received (recv_loop crypto r packets)
          ⊎ Waits (recv_loop crypto r packets)
            × ¬ ((seq : ℕ) → seq < count → (lookup seq r.chunks ≢ none) ⊎ Comes seq packets)
    unfolding recv_loop
    recv_loop-IsSent [] r h sent =
        let least : All (AtLeast payload size 0) r.chunks =
          All-imp (λ e p. omega arith) r.chunks h.held in
        inr (
          ([], refl),
          λ arrived.
              let full =
                full-length payload size count 0 r.chunks h.sorted least (λ seq above below.
                  held_or_none (arrived seq (subst (λ n. seq < n) (zero-add count) below))) in
              let waiting = h.waiting in omega (arith, full, waiting),
        )
    recv_loop-IsSent (packet ∷ packets) r h (inl (e, junk), sent) =
        elim (recv_loop-IsSent packets r h sent) [
          | inl (acks, got) ↦ inl (acks, recv_loop_junk crypto r packet packets e junk ∙ got)
          | inr ((acks, empty), lacking) ↦ inr (
            (acks, recv_loop_junk crypto r packet packets e junk ∙ empty),
            λ arrived. lacking (λ j below. not_in_junk j packet packets e junk (arrived j below)),
          )
        ]
    recv_loop-IsSent (packet ∷ packets) r h (inr (seq, below, decoded), sent) =
        elim (ingest-frame_of r seq h below) [
          | inl done ↦ inl (
            (ack (with_chunk r seq)).0 ∷ [],
            recv_loop_done crypto r packet packets (frame_of seq) payload (with_chunk r seq) decoded
                done,
          )
          | inr (waits, partial) ↦
              elim (recv_loop-IsSent packets (ack (with_chunk r seq)).1
                (ack-IsPartial (with_chunk r seq) partial) sent) [
                  | inl (acks, got) ↦ inl (
                    (ack (with_chunk r seq)).0 ∷ acks,
                    recv_loop_waits crypto r packet packets (frame_of seq) (with_chunk r seq)
                        (some payload) acks decoded waits got,
                  )
                  | inr ((acks, empty), lacking) ↦ inr (
                    (
                      (ack (with_chunk r seq)).0 ∷ acks,
                      recv_loop_waits crypto r packet packets (frame_of seq) (with_chunk r seq) none
                          acks decoded waits empty,
                    ),
                    λ arrived.
                        lacking
                          (λ j fits. then_held r seq j packet packets decoded (arrived j fits)),
                  )
                ]
        ]
