-- ===== src/Primitives/BoundedBytes.antt =====
-- crates/protocol/onx-primitives/src/bytes.rs: `BoundedBytesU16` and `BoundedBytesU32` of the macro
-- `define_bounded_bytes`, with a length prefix of p bytes.
pub mod Laws
use the_open_network_x.Prelude.{
  ℕ, ◌-◌, ◌++◌, length, take, drop, null, not, Result, ok, err, ◌>>=◌, ltb, if◌then◌else◌,
}
use the_open_network_x.Prelude.Words.{to_be, from_be}
use the_open_network_x.Primitives.Error.{
  PrimitiveError, truncated, trailing_bytes, length_out_of_range, Bytes, split_front,
}

pub record BoundedBytes : Type 0 where
  pub payload : Bytes
  pub max_len : ℕ

unfoldable pub new : Bytes → ℕ → Result PrimitiveError BoundedBytes
new payload max_len =
    if ltb max_len (length payload)
    then err (length_out_of_range (length payload) max_len)
    else ok (record { payload = payload; max_len = max_len })

-- The cast of the length to the prefix type keeps its low p bytes, as `to_be` does.
unfoldable pub encode : ℕ → BoundedBytes → Bytes
encode p self = to_be p (length self.payload) ++ self.payload

-- What `read` does behind the prefix.
unfoldable pub read_payload : ℕ → ℕ → Bytes → Result PrimitiveError (BoundedBytes × Bytes)
read_payload max_len declared rest =
    if ltb max_len declared
    then err (length_out_of_range declared max_len)
    else if ltb (length rest) declared
    then err (truncated declared (length rest))
    else ok (record { payload = take declared rest; max_len = max_len }, drop declared rest)

unfoldable pub read : ℕ → Bytes → ℕ → Result PrimitiveError (BoundedBytes × Bytes)
unfolding split_front read_payload
read p cursor max_len = do
  split ← split_front p cursor
  read_payload max_len (from_be split.0) split.1

unfoldable pub decode_exact : ℕ → Bytes → ℕ → Result PrimitiveError BoundedBytes
unfolding read
decode_exact p bytes max_len = do
  value ← read p bytes max_len
  if null value.1
      then ok value.0
      else err (trailing_bytes (length bytes - length value.1) (length bytes))
