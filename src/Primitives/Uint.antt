-- ===== src/Primitives/Uint.antt =====
-- crates/protocol/onx-primitives/src/integers.rs: the unsigned types Uint8 to Uint128 of the macro
-- `define_fixed_integer`, of n bytes each. A value is the number.
pub mod Laws
use the_open_network_x.Prelude.{ℕ, Result, ok, ◌>>=◌}
use the_open_network_x.Prelude.Words.{to_be, from_be}
use the_open_network_x.Primitives.Error.{PrimitiveError, Bytes, check_length, split_front}

unfoldable pub encode : ℕ → ℕ → Bytes
encode n value = to_be n value

unfoldable pub decode_exact : ℕ → Bytes → Result PrimitiveError ℕ
unfolding check_length
decode_exact n bytes = do buf ← check_length n bytes; ok (from_be buf)

-- The result carries the advanced cursor; on an error the cursor is left alone.
unfoldable pub read : ℕ → Bytes → Result PrimitiveError (ℕ × Bytes)
unfolding split_front
read n cursor = do split ← split_front n cursor; ok (from_be split.0, split.1)
