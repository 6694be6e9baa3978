-- ===== src/Primitives/Sint.antt =====
-- crates/protocol/onx-primitives/src/integers.rs: the signed types Int8 to Int128 of the macro
-- `define_fixed_integer`, of n bytes each, in two's complement.
pub mod Laws
use the_open_network_x.Prelude.{ℕ, ◌^◌, ◌/◌, Result, ok, ◌>>=◌}
use the_open_network_x.Prelude.Words.{to_be, from_be}
use the_open_network_x.Prelude.Int.{ℤ, pattern_of, of_pattern}
use the_open_network_x.Primitives.Error.{PrimitiveError, Bytes, check_length, split_front}

-- Half the number of patterns of n bytes.
abbrev pub half : ℕ → ℕ
half n = 256 ^ n / 2

unfoldable pub encode : ℕ → ℤ → Bytes
encode n value = to_be n (pattern_of (half n) value)

unfoldable pub decode_exact : ℕ → Bytes → Result PrimitiveError ℤ
unfolding check_length
decode_exact n bytes = do buf ← check_length n bytes; ok (of_pattern (half n) (from_be buf))

unfoldable pub read : ℕ → Bytes → Result PrimitiveError (ℤ × Bytes)
unfolding split_front
read n cursor = do split ← split_front n cursor; ok (of_pattern (half n) (from_be split.0), split.1)
