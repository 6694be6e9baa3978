-- ===== src/Primitives/Uint/Laws.antt =====
-- Round trips of the unsigned integers, and the lengths that their decoders accept.
use the_open_network_x.Prelude.{
  ℕ, ◌^◌, ◌<◌, ◌≤◌, ◌≡◌, subst, ◌++◌, length, length-append, take-append, drop-append, All, ok,
  arith,
}
use the_open_network_x.Prelude.Words.{to_be, IsByte, length-to_be, from_be-to_be, to_be-from_be}
use the_open_network_x.Primitives.Error.{Bytes, check_length, split_front}
use the_open_network_x.Primitives.Uint.{encode, decode_exact, read}

pub length-encode : (n v : ℕ) → length (encode n v) ≡ n
unfolding encode
length-encode n v = length-to_be n v

-- `check_length` lets a byte string through exactly as it is, and only at the stated length.
pub check_length_ok : (n : ℕ) (bs : Bytes) → length bs ≡ n → check_length n bs ≡ ok bs
unfolding check_length
check_length_ok n bs h = ground arith

pub check_length_inv :
    (n : ℕ) (bs : Bytes) {cs : Bytes} → check_length n bs ≡ ok cs → (length bs ≡ n) × (cs ≡ bs)
unfolding check_length
check_length_inv n bs h = ground arith

-- Taking the front off a byte string that begins with n bytes.
pub split_front-append :
    (n : ℕ) (xs rest : Bytes) → length xs ≡ n → split_front n (xs ++ rest) ≡ ok (xs, rest)
unfolding split_front
split_front-append n xs rest h =
    subst (λ k. split_front k (xs ++ rest) ≡ ok (xs, rest)) h
      (let fits : length xs ≤ length (xs ++ rest) = omega (arith, length-append xs rest) in
        ground (arith, take-append xs rest, drop-append xs rest))

-- Decoding the encoding of a value that fits n bytes gives the value back, and reading it from
-- the front of a cursor also leaves the rest of the cursor.
pub decode_exact-encode :
    (n v : ℕ) (rest : Bytes)
    → v < 256 ^ n
    → (decode_exact n (encode n v) ≡ ok v) × (read n (encode n v ++ rest) ≡ ok (v, rest))
unfolding decode_exact read encode
decode_exact-encode n v rest h = ground (
  arith,
  check_length_ok n (to_be n v),
  split_front-append n (to_be n v) rest,
  length-to_be n v,
  from_be-to_be n v,
)

-- A byte string that decodes has exactly n bytes and is the encoding of the value, so no two byte
-- strings decode to the same value.
pub encode-decode_exact :
    (n : ℕ) (bs : Bytes) {v : ℕ}
    → All IsByte bs
    → decode_exact n bs ≡ ok v
    → (length bs ≡ n) × (encode n v ≡ bs)
unfolding decode_exact encode check_length
encode-decode_exact n bs b h = ground (arith, to_be-from_be bs b)
