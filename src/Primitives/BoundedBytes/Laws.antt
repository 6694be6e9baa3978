-- ===== src/Primitives/BoundedBytes/Laws.antt =====
-- Round trip of the length-prefixed byte strings, and the bound that `read` enforces.
use the_open_network_x.Prelude.{
  ℕ, ◌^◌, ◌<◌, ◌≤◌, ◌+◌, ◌≡◌, [], ◌∷◌, ◌++◌, append_assoc, append-nil, length, length-append,
  take-append, drop-append, ok, err, arith,
}
use the_open_network_x.Prelude.Words.{to_be, length-to_be, from_be-to_be}
use the_open_network_x.Primitives.Error.{trailing_bytes, Bytes}
use the_open_network_x.Primitives.Uint.Laws.{split_front-append}
use the_open_network_x.Primitives.BoundedBytes.{
  BoundedBytes, new, encode, read, read_payload, decode_exact,
}

read_payload-append :
    (max_len : ℕ) (payload rest : Bytes)
    → length payload ≤ max_len
    → read_payload max_len (length payload) (payload ++ rest)
      ≡ ok (record { payload = payload; max_len = max_len }, rest)
unfolding read_payload
read_payload-append max_len payload rest h =
    let fits : length payload ≤ length (payload ++ rest) =
      omega (arith, length-append payload rest) in
    ground (arith, take-append payload rest, drop-append payload rest)

new_inv :
    (payload : Bytes) (max_len : ℕ) {b : BoundedBytes}
    → new payload max_len ≡ ok b
    → (length payload ≤ max_len) × (b ≡ record { payload = payload; max_len = max_len })
unfolding new
new_inv payload max_len h = ground arith

read_own :
    (p max_len : ℕ) (payload rest : Bytes)
    → max_len < 256 ^ p
    → length payload ≤ max_len
    → read p ((to_be p (length payload) ++ payload) ++ rest) max_len
      ≡ ok (record { payload = payload; max_len = max_len }, rest)
unfolding read
read_own p max_len payload rest lim h = rw (append_assoc (to_be p (length payload)) payload rest) (
    ground (
      arith,
      split_front-append p (to_be p (length payload)) (payload ++ rest),
      length-to_be p (length payload),
      from_be-to_be p (length payload),
      read_payload-append max_len payload rest,
    ))

-- Whatever `new` accepts under a bound that fits the prefix is read back from the front of a
-- cursor, with the rest of the cursor left.
pub read-encode :
    (p max_len : ℕ) (payload rest : Bytes) {b : BoundedBytes}
    → max_len < 256 ^ p
    → new payload max_len ≡ ok b
    → read p (encode p b ++ rest) max_len ≡ ok (b, rest)
unfolding encode
read-encode p max_len payload rest lim h =
    let inv = new_inv payload max_len h in rw inv.1 (read_own p max_len payload rest lim inv.0)

-- An exact decode of the encoding gives the value back, and one more byte behind it is refused
-- with the two lengths.
pub decode_exact-encode_bounded :
    (p max_len : ℕ) (payload : Bytes) (extra : ℕ) {b : BoundedBytes}
    → max_len < 256 ^ p
    → new payload max_len ≡ ok b
    → (decode_exact p (encode p b) max_len ≡ ok b)
      × (decode_exact p (encode p b ++ extra ∷ []) max_len
          ≡ err (trailing_bytes (length (encode p b)) (length (encode p b) + 1)))
unfolding decode_exact
decode_exact-encode_bounded p max_len payload extra {b} lim h = (
  exact_of_read (rw append-nil at (read-encode p max_len payload [] lim h)),
  ground (
    arith,
    read-encode p max_len payload (extra ∷ []) lim h,
    length-append (encode p b) (extra ∷ []),
  ),
)
  where
    exact_of_read :
        read p (encode p b) max_len ≡ ok (b, []) → decode_exact p (encode p b) max_len ≡ ok b
    exact_of_read e = ground arith
