-- ===== src/Networking/Rldp/Sender.antt =====
-- crates/node/onx-networking/src/rldp.rs: RldpSender and the loop of `send_rldp`.
use the_open_network_x.Prelude.{
  ℕ, zero, suc, ◌+◌, ◌-◌, ◌*◌, ◌%◌, ◌++◌, Bool, true, false, not, ◌&&◌, ◌||◌, Option, none, some,
  List, [], ◌∷◌, get_elem?, null, take, drop, length, Result, ok, err, ◌>>◌, require, ltb, leb,
  ◌==◌, if◌then◌else◌,
}
use the_open_network_x.Prelude.Ord.{same, nat_ord, bytes_ord}
use the_open_network_x.Prelude.Bits.{nth_bit}
use the_open_network_x.Prelude.Words.{u16_max}
use the_open_network_x.Prelude.BTreeMap.{BTreeMap, insert, contains_key}
use the_open_network_x.Primitives.Error.{Bytes}
use the_open_network_x.Primitives.Hash.{Crypto, zeros}
use the_open_network_x.Primitives.FixedBytes.{Uint256}
use the_open_network_x.Networking.Error.{NetworkError, malformed_rldp_frame, rldp_timeout}
use the_open_network_x.Networking.Rldp.Frame.{
  max_transfer_size, ceil_div, RldpDataFrame, RldpAckFrame, frame_encode, ack_decode,
}

pub record RldpConfig : Type 0 where
  pub chunk_size : ℕ
  pub redundancy : ℕ
  pub packets_per_round : ℕ
  pub max_rounds : ℕ

abbrev pub default_config : RldpConfig
default_config = record {
  chunk_size = 1024;
  redundancy = 3;
  packets_per_round = 128;
  max_rounds = 20;
}

pub record RldpSender : Type 0 where
  pub frames : List RldpDataFrame
  pub transfer_id : Uint256
  pub acknowledged : BTreeMap ℕ (Unit {0})
  pub last_ack_seq : ℕ
  pub config : RldpConfig
  pub cursor : ℕ

-- The symbol of an index: its part of the payload, with zeros to the size of a chunk.
unfoldable pub chunk_at : Bytes → ℕ → ℕ → Bytes
chunk_at payload chunk_size index =
    let piece = take chunk_size (drop (index * chunk_size) payload) in
    piece ++ zeros (chunk_size - length piece)

unfoldable pub frame_at : Uint256 → Bytes → Bytes → ℕ → ℕ → ℕ → RldpDataFrame
frame_at transfer_id digest payload chunk_size count index = record {
  transfer_id = transfer_id;
  payload_digest = digest;
  total_size = length payload;
  chunk_size = chunk_size;
  chunk_count = count;
  seq_no = index;
  chunk_data = chunk_at payload chunk_size index;
}

-- The frames of a number of indices from one on.
unfoldable pub frames_from : (ℕ → RldpDataFrame) → ℕ → ℕ → List RldpDataFrame
frames_from frame zero index = []
frames_from frame (suc n) index = frame index ∷ frames_from frame n (index + 1)

unfoldable pub sender_new : Crypto → Uint256 → Bytes → RldpConfig → Result NetworkError RldpSender
sender_new crypto transfer_id payload config = do
  require
      (not (
        null payload
        || (ltb max_transfer_size (length payload)
            || (config.chunk_size == 0
                || (ltb u16_max config.chunk_size
                    || (config.redundancy == 0 || config.packets_per_round == 0))))))
      malformed_rldp_frame
  let count = ceil_div (length payload) config.chunk_size
  require (not (ltb u16_max count)) malformed_rldp_frame
  let digest = crypto.sha256 payload
  ok (record {
    frames = frames_from (frame_at transfer_id digest payload config.chunk_size count) count 0;
    transfer_id = transfer_id;
    acknowledged = [];
    last_ack_seq = 0;
    config = config;
    cursor = 0;
  })

unfoldable pub is_complete : RldpSender → Bool
is_complete self = length self.acknowledged == length self.frames

-- Copies of a packet, until the round is full.
unfoldable pub repeat_packet : ℕ → ℕ → Bytes → List Bytes → List Bytes
repeat_packet limit zero packet packets = packets
repeat_packet limit (suc n) packet packets =
    let more = repeat_packet limit n packet (packets ++ packet ∷ []) in
    if length packets == limit then packets else more

-- The loop over the frames that are left to inspect. None where a frame does not encode, which panics.
unfoldable pub fill_round : RldpSender → ℕ → ℕ → List Bytes → Option (List Bytes × ℕ)
fill_round self zero cursor packets = some (packets, cursor)
fill_round self (suc left) cursor packets =
    let next = (cursor + 1) % length self.frames in
    let skip = fill_round self left next packets in
    let emit : Result NetworkError Bytes → Option (List Bytes × ℕ) = λ packet. elim packet [
      | err e ↦ none
      | ok wire ↦
          fill_round self left next
            (repeat_packet self.config.packets_per_round self.config.redundancy wire packets)
    ] in
    if ltb (length packets) self.config.packets_per_round
    then (elim (get_elem? self.frames cursor) [
      | none ↦ none
      | some frame ↦
          if contains_key frame.seq_no self.acknowledged then skip else emit (frame_encode frame)
    ])
    else some (packets, cursor)

unfoldable pub next_round : RldpSender → Option (List Bytes × RldpSender)
next_round self = elim (fill_round self (length self.frames) self.cursor []) [
  | none ↦ none
  | some filled ↦ some (filled.0, record self { cursor = filled.1 })
]

-- The bits of a byte of the mask that are left, from one on.
unfoldable pub mark_bits : ℕ → ℕ → ℕ → ℕ → ℕ → BTreeMap ℕ (Unit {0}) → BTreeMap ℕ (Unit {0})
mark_bits frames i byte zero bit acknowledged = acknowledged
mark_bits frames i byte (suc left) bit acknowledged =
    let seq = i * 8 + bit in
    mark_bits frames i byte left (bit + 1) (
      if ltb seq frames && (nth_bit bit byte == 1)
      then insert seq tt acknowledged
      else acknowledged)

unfoldable pub mark_mask : ℕ → ℕ → Bytes → BTreeMap ℕ (Unit {0}) → BTreeMap ℕ (Unit {0})
mark_mask frames i [] acknowledged = acknowledged
mark_mask frames i (byte ∷ mask) acknowledged =
    mark_mask frames (i + 1) mask (mark_bits frames i byte 8 0 acknowledged)

unfoldable pub apply_ack : RldpSender → RldpAckFrame → Result NetworkError RldpSender
apply_ack self ack =
    if not (same ack.transfer_id self.transfer_id) || leb ack.ack_seq self.last_ack_seq
    then ok self
    else if not (length ack.received_mask == ceil_div (length self.frames) 8)
    then err malformed_rldp_frame
    else ok (record self {
      last_ack_seq = ack.ack_seq;
      acknowledged = mark_mask (length self.frames) 0 ack.received_mask self.acknowledged;
    })

-- The packets that come in before a timeout: the sender after them, and whether the transfer is complete.
unfoldable pub take_acks : RldpSender → List Bytes → Result NetworkError (Bool × RldpSender)
take_acks self [] = ok (false, self)
take_acks self (packet ∷ packets) = elim (ack_decode packet) [
  | err e ↦ take_acks self packets
  | ok ack ↦ elim (apply_ack self ack) [
    | err e ↦ err e
    | ok next ↦ if is_complete next then ok (true, next) else take_acks next packets
  ]
]

-- The loop over the rounds, with the packets that come in during each; what is sent, and the result.
unfoldable pub send_rounds :
    ℕ → RldpSender → List (List Bytes) → Option (List Bytes × Result NetworkError (Unit {0}))
send_rounds zero self inbox = some ([], err rldp_timeout)
send_rounds (suc rounds) self inbox = elim (next_round self) [
  | none ↦ none
  | some (packets, sent) ↦
      if is_complete sent
      then some (packets, ok tt)
      else (elim (take_acks sent (elim inbox [ [] ↦ [] | incoming ∷ later ↦ incoming ])) [
        | err e ↦ some (packets, err e)
        | ok (complete, next) ↦
            if complete
            then some (packets, ok tt)
            else (elim (send_rounds rounds next
                (elim inbox [ [] ↦ [] | incoming ∷ later ↦ later ])) [
                  | none ↦ none
                  | some (more, result) ↦ some (packets ++ more, result)
                ])
      ])
]
