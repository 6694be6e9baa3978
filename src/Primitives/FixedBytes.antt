-- ===== src/Primitives/FixedBytes.antt =====
-- crates/protocol/onx-primitives/src/bytes.rs: `FixedBytes<N>`; and integers.rs: the 256-bit
-- integers, which are 32 canonical bytes.
use the_open_network_x.Prelude.{ℕ, Result, ok, ◌>>=◌}
use the_open_network_x.Primitives.Error.{PrimitiveError, Bytes, check_length, split_front}

unfoldable pub decode_exact : ℕ → Bytes → Result PrimitiveError Bytes
unfolding check_length
decode_exact n bytes = do buf ← check_length n bytes; ok buf

unfoldable pub read : ℕ → Bytes → Result PrimitiveError (Bytes × Bytes)
unfolding split_front
read n cursor = do split ← split_front n cursor; ok (split.0, split.1)

-- `Uint256` and `Int256`.
abbrev pub Uint256 : Type 0
Uint256 = Bytes
