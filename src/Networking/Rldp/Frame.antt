-- ===== src/Networking/Rldp/Frame.antt =====
-- crates/node/onx-networking/src/rldp.rs: the two frames and their codec.
pub mod Laws
use the_open_network_x.Prelude.{
  ℕ, ◌+◌, ◌-◌, ◌*◌, ◌/◌, ◌%◌, ◌^◌, ◌++◌, Bool, true, false, not, ◌&&◌, ◌||◌, take, drop, length,
  Result, ok, err, ◌>>=◌, ◌>>◌, require, ltb, leb, ◌==◌, if◌then◌else◌,
}
use the_open_network_x.Prelude.Words.{to_be, from_be}
use the_open_network_x.Primitives.Error.{Bytes}
use the_open_network_x.Primitives.FixedBytes.{Uint256}
use the_open_network_x.Networking.Error.{NetworkError, malformed_rldp_frame}

abbrev pub data_tag : ℕ
data_tag = 0x71d2_b841

abbrev pub ack_tag : ℕ
ack_tag = 0x3a4f_1092

abbrev pub max_transfer_size : ℕ
max_transfer_size = 16 * 1024 * 1024

abbrev pub data_header_len : ℕ
data_header_len = 4 + 32 + 32 + 4 + 2 + 2 + 2 + 2

abbrev pub ack_header_len : ℕ
ack_header_len = 4 + 32 + 4 + 2 + 2

-- `div_ceil` of a divisor that is not zero.
unfoldable pub ceil_div : ℕ → ℕ → ℕ
ceil_div n d = (n + (d - 1)) / d

unfoldable pub validate_dimensions : ℕ → ℕ → ℕ → Result NetworkError (Unit {0})
validate_dimensions total_size chunk_size chunk_count =
    require
      (not (
        total_size == 0
        || (ltb max_transfer_size total_size
            || (chunk_size == 0
                || (chunk_count == 0 || not (ceil_div total_size chunk_size == chunk_count))))))
      malformed_rldp_frame

pub record RldpDataFrame : Type 0 where
  pub transfer_id : Uint256
  pub payload_digest : Bytes
  pub total_size : ℕ
  pub chunk_size : ℕ
  pub chunk_count : ℕ
  pub seq_no : ℕ
  pub chunk_data : Bytes

unfoldable pub frame_encode : RldpDataFrame → Result NetworkError Bytes
frame_encode self = do
  validate_dimensions self.total_size self.chunk_size self.chunk_count
  require
      (not (leb self.chunk_count self.seq_no || not (length self.chunk_data == self.chunk_size)))
      malformed_rldp_frame
  ok (
      to_be 4 data_tag
      ++ (self.transfer_id
          ++ (self.payload_digest
              ++ (to_be 4 self.total_size
                  ++ (to_be 2 self.chunk_size
                      ++ (to_be 2 self.chunk_count
                          ++ (to_be 2 self.seq_no
                              ++ (to_be 2 (length self.chunk_data % 2 ^ 16)
                                  ++ self.chunk_data))))))))

-- `wire[from..from + len]`
abbrev pub part : ℕ → ℕ → Bytes → Bytes
part start len wire = take len (drop start wire)

unfoldable pub frame_decode : Bytes → Result NetworkError RldpDataFrame
frame_decode wire = do
  require (not (ltb (length wire) data_header_len) && (from_be (part 0 4 wire) == data_tag))
      malformed_rldp_frame
  let total_size = from_be (part 68 4 wire)
  let chunk_size = from_be (part 72 2 wire)
  let chunk_count = from_be (part 74 2 wire)
  let seq_no = from_be (part 76 2 wire)
  let data_len = from_be (part 78 2 wire)
  validate_dimensions total_size chunk_size chunk_count
  require
      (not (
        leb chunk_count seq_no
        || (not (data_len == chunk_size) || not (length wire == data_header_len + data_len))))
      malformed_rldp_frame
  ok (record {
    transfer_id = part 4 32 wire;
    payload_digest = part 36 32 wire;
    total_size = total_size;
    chunk_size = chunk_size;
    chunk_count = chunk_count;
    seq_no = seq_no;
    chunk_data = drop 80 wire;
  })

pub record RldpAckFrame : Type 0 where
  pub transfer_id : Uint256
  pub ack_seq : ℕ
  pub received_mask : Bytes

unfoldable pub ack_encode : RldpAckFrame → Bytes
ack_encode self =
    to_be 4 ack_tag
    ++ (self.transfer_id
        ++ (to_be 4 self.ack_seq
            ++ (to_be 2 (length self.received_mask % 2 ^ 16) ++ self.received_mask)))

unfoldable pub ack_decode : Bytes → Result NetworkError RldpAckFrame
ack_decode wire = do
  require (not (ltb (length wire) ack_header_len) && (from_be (part 0 4 wire) == ack_tag))
      malformed_rldp_frame
  let len = from_be (part 40 2 wire)
  require (length wire == ack_header_len + len) malformed_rldp_frame
  ok (record {
    transfer_id = part 4 32 wire;
    ack_seq = from_be (part 36 4 wire);
    received_mask = drop 42 wire;
  })
