-- ===== src/Primitives/Error.antt =====
-- crates/protocol/onx-primitives/src/error.rs, and the two length checks that every decoder of the
-- crate writes out.
use the_open_network_x.Prelude.{ℕ, List, length, take, drop, Result, ok, err, ltb, if◌then◌else◌}

pub data PrimitiveError : Type 0 where
  truncated : ℕ → ℕ → PrimitiveError
  trailing_bytes : ℕ → ℕ → PrimitiveError
  length_out_of_range : ℕ → ℕ → PrimitiveError
  non_canonical_encoding : PrimitiveError
  invalid_domain_tag : PrimitiveError
  signature_verification_failed : PrimitiveError

-- A byte string; each entry is below 256.
abbrev pub Bytes : Type 0
Bytes = List ℕ

-- The checks at the head of each `decode_exact`: neither too short nor too long.
unfoldable pub check_length : ℕ → Bytes → Result PrimitiveError Bytes
check_length n bytes =
    if ltb (length bytes) n
    then err (truncated n (length bytes))
    else if ltb n (length bytes)
    then err (trailing_bytes n (length bytes))
    else ok bytes

-- The check at the head of each `read`, with `split_at`: the front and the advanced cursor.
unfoldable pub split_front : ℕ → Bytes → Result PrimitiveError (Bytes × Bytes)
split_front n cursor =
    if ltb (length cursor) n
    then err (truncated n (length cursor))
    else ok (take n cursor, drop n cursor)
