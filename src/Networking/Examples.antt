-- ===== src/Networking/Examples.antt =====
-- The laws of the transfer at a payload of three bytes in two frames.
use the_open_network_x.Prelude.{ℕ, refl, ◌++◌, true, [], ◌∷◌, arith}
use the_open_network_x.Primitives.Error.{Bytes}
use the_open_network_x.Primitives.Hash.{Crypto, zeros}
use the_open_network_x.Networking.Rldp.Frame.{RldpDataFrame, ceil_div, validate_dimensions}
use the_open_network_x.Networking.Rldp.Frame.Laws.{IsFrame}
use the_open_network_x.Networking.Rldp.Sender.{RldpConfig, RldpSender}

abbrev constant_hash : Crypto
constant_hash = record {
  sha256 = λ bs. zeros 32;
  is_canonical_key = λ k. true;
  verify_strict = λ k m s. true;
}

abbrev three_bytes : Bytes
three_bytes = 7 ∷ 8 ∷ 9 ∷ []

abbrev pairs : RldpConfig
pairs = record { chunk_size = 2; redundancy = 1; packets_per_round = 8; max_rounds = 3 }

abbrev frame_with : ℕ → Bytes → RldpDataFrame
frame_with seq chunk = record {
  transfer_id = zeros 32;
  payload_digest = zeros 32;
  total_size = 3;
  chunk_size = 2;
  chunk_count = 2;
  seq_no = seq;
  chunk_data = chunk;
}

abbrev frame_0 : RldpDataFrame
frame_0 = frame_with 0 (7 ∷ 8 ∷ [])

abbrev frame_1 : RldpDataFrame
frame_1 = frame_with 1 (9 ∷ 0 ∷ [])

abbrev pair_sender : RldpSender
pair_sender = record {
  frames = frame_0 ∷ frame_1 ∷ [];
  transfer_id = zeros 32;
  acknowledged = [];
  last_ack_seq = 0;
  config = pairs;
  cursor = 0;
}

abbrev packet_with : ℕ → Bytes → Bytes
packet_with seq chunk =
    (0x71 ∷ 0xd2 ∷ 0xb8 ∷ 0x41 ∷ [])
    ++ (zeros 32 ++ (zeros 32 ++ (0 ∷ 0 ∷ 0 ∷ 3 ∷ 0 ∷ 2 ∷ 0 ∷ 2 ∷ 0 ∷ seq ∷ 0 ∷ 2 ∷ chunk)))

abbrev packet_0 : Bytes
packet_0 = packet_with 0 (7 ∷ 8 ∷ [])

abbrev packet_1 : Bytes
packet_1 = packet_with 1 (9 ∷ 0 ∷ [])

frame_0-IsFrame : IsFrame frame_0
unfolding validate_dimensions ceil_div
frame_0-IsFrame = record {
  id_length = refl;
  digest_length = refl;
  total_fits = omega arith;
  size_fits = omega arith;
  count_fits = omega arith;
  dimensions = refl;
  seq_below = omega arith;
  data_length = refl;
}
