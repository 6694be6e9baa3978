-- ===== src/Networking/Rldp/Receiver.antt =====
-- crates/node/onx-networking/src/rldp.rs: RldpReceiver and the loop of `recv_rldp`.
use the_open_network_x.Prelude.{
  ℕ, zero, suc, ◌+◌, ◌/◌, ◌%◌, ◌^◌, ◌++◌, Bool, ◌&&◌, Option, none, some, List, [], ◌∷◌, take,
  length, Result, ok, err, ◌>>=◌, ◌>>◌, require, ok_or, ◌==◌, if◌then◌else◌,
}
use the_open_network_x.Prelude.Ord.{same, nat_ord, bytes_ord}
use the_open_network_x.Prelude.Bits.{set_byte_bit}
use the_open_network_x.Prelude.BTreeMap.{BTreeMap, lookup, insert}
use the_open_network_x.Primitives.Error.{Bytes}
use the_open_network_x.Primitives.Hash.{Crypto, zeros}
use the_open_network_x.Primitives.FixedBytes.{Uint256}
use the_open_network_x.Networking.Error.{
  NetworkError, malformed_rldp_frame, payload_digest_mismatch,
}
use the_open_network_x.Networking.Rldp.Frame.{
  ceil_div, validate_dimensions, RldpDataFrame, RldpAckFrame, frame_decode,
}

abbrev pub Chunks : Type 0
Chunks = BTreeMap ℕ Bytes

pub record RldpReceiver : Type 0 where
  pub transfer_id : Uint256
  pub digest : Bytes
  pub total_size : ℕ
  pub chunk_size : ℕ
  pub chunk_count : ℕ
  pub chunks : Chunks
  pub ack_seq : ℕ

unfoldable pub from_frame : RldpDataFrame → Result NetworkError RldpReceiver
from_frame frame = do
  validate_dimensions frame.total_size frame.chunk_size frame.chunk_count
  ok (record {
    transfer_id = frame.transfer_id;
    digest = frame.payload_digest;
    total_size = frame.total_size;
    chunk_size = frame.chunk_size;
    chunk_count = frame.chunk_count;
    chunks = [];
    ack_seq = 0;
  })

-- The chunks of a number of sequence numbers from one on, one after the other.
unfoldable pub join : ℕ → ℕ → Chunks → Result NetworkError Bytes
join zero seq chunks = ok []
join (suc n) seq chunks = do
  chunk ← ok_or (lookup seq chunks) malformed_rldp_frame
  rest ← join n (seq + 1) chunks
  ok (chunk ++ rest)

-- `entry(seq).or_insert(data)`
unfoldable pub or_insert : ℕ → Bytes → Chunks → Chunks
or_insert seq chunk chunks = elim (lookup seq chunks) [
  | some old ↦ chunks
  | none ↦ insert seq chunk chunks
]

unfoldable pub matches : RldpReceiver → RldpDataFrame → Bool
matches self frame =
    same frame.transfer_id self.transfer_id
    && (same frame.payload_digest self.digest
        && ((frame.total_size == self.total_size)
            && ((frame.chunk_size == self.chunk_size) && (frame.chunk_count == self.chunk_count))))

-- The offset of the acknowledged bits: `mask[seq / 8] |= 1 << (seq % 8)` for each chunk. The index is in range for
-- the sequence numbers of frames that decode.
unfoldable pub mask_of : Chunks → Bytes → Bytes
mask_of [] mask = mask
mask_of ((seq, chunk) ∷ chunks) mask = mask_of chunks (set_byte_bit mask (seq / 8) (seq % 8))

unfoldable pub ack : RldpReceiver → RldpAckFrame × RldpReceiver
ack self =
    let ack_seq = (self.ack_seq + 1) % 2 ^ 32 in
    (
      record {
        transfer_id = self.transfer_id;
        ack_seq = ack_seq;
        received_mask = mask_of self.chunks (zeros (ceil_div self.chunk_count 8));
      },
      record self { ack_seq = ack_seq },
    )

module _ (crypto : Crypto) where
  -- The payload, once all chunks are there.
  unfoldable pub assemble : RldpReceiver → Result NetworkError (Option Bytes)
  assemble self =
      if length self.chunks == self.chunk_count
      then (do
        joined ← join self.chunk_count 0 self.chunks
        let payload = take self.total_size joined
        require (same (crypto.sha256 payload) self.digest) payload_digest_mismatch
        ok (some payload))
      else ok none

  -- The chunk stays also where the digest differs.
  unfoldable pub ingest :
      RldpReceiver → RldpDataFrame → Result NetworkError (Option Bytes) × RldpReceiver
  ingest self frame =
      let stored = record self { chunks = or_insert frame.seq_no frame.chunk_data self.chunks } in
      if matches self frame then (assemble stored, stored) else (err malformed_rldp_frame, self)

  -- The loop over the packets that come in; the payload once it is complete, and the acknowledgements sent.
  unfoldable pub recv_loop :
      RldpReceiver → List Bytes → Result NetworkError (Option Bytes × List RldpAckFrame)
  recv_loop self [] = ok (none, [])
  recv_loop self (packet ∷ packets) = elim (frame_decode packet) [
    | err e ↦ recv_loop self packets
    | ok frame ↦ elim (ingest self frame).0 [
      | err e ↦ err e
      | ok (some payload) ↦ ok (some payload, (ack (ingest self frame).1).0 ∷ [])
      | ok none ↦ recv_loop (ack (ingest self frame).1).1 packets >>= λ later.
          ok (later.0, (ack (ingest self frame).1).0 ∷ later.1)
    ]
  ]

  -- None while the payload is not complete.
  unfoldable pub recv_rldp : List Bytes → Result NetworkError (Option Bytes × List RldpAckFrame)
  recv_rldp [] = ok (none, [])
  recv_rldp (first ∷ packets) = do
    frame ← frame_decode first
    receiver ← from_frame frame
    let (result, stored) = ingest receiver frame
    found ← result
    let (sent, acked) = ack stored
    elim found [
      | some payload ↦ ok (some payload, sent ∷ [])
      | none ↦ recv_loop acked packets >>= λ later. ok (later.0, sent ∷ later.1)
    ]
