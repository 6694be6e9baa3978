-- ===== src/Primitives/Sint/Laws.antt =====
-- Round trips of the signed integers.
use native.Mathlib.Nat.{pow-suc}
use the_open_network_x.Prelude.{ℕ, suc, ◌^◌, ◌+◌, ◌<◌, ◌≡◌, ◌++◌, ok, arith}
use the_open_network_x.Prelude.Words.{to_be, length-to_be, from_be-to_be}
use the_open_network_x.Prelude.Int.{ℤ, Fits, pattern_of, of_pattern-pattern_of, pattern_of-lt}
use the_open_network_x.Primitives.Error.{Bytes}
use the_open_network_x.Primitives.Uint.Laws.{check_length_ok, split_front-append}
use the_open_network_x.Primitives.Sint.{half, encode, decode_exact, read}

half_twice : (n : ℕ) → half (suc n) + half (suc n) ≡ 256 ^ suc n
half_twice n = omega (arith, pow-suc 256 n)

pub pattern_of-lt_pow :
    (n : ℕ) (z : ℤ) → Fits (half (suc n)) z → pattern_of (half (suc n)) z < 256 ^ suc n
pattern_of-lt_pow n z h = omega (arith, pattern_of-lt (half (suc n)) z h, half_twice n)

-- Decoding the encoding of a value of the signed type of n + 1 bytes gives the value back, and
-- reading it from the front of a cursor also leaves the rest of the cursor.
pub decode_exact-encode_signed :
    (n : ℕ) (z : ℤ) (rest : Bytes)
    → Fits (half (suc n)) z
    → (decode_exact (suc n) (encode (suc n) z) ≡ ok z)
      × (read (suc n) (encode (suc n) z ++ rest) ≡ ok (z, rest))
unfolding decode_exact read encode
decode_exact-encode_signed n z rest h =
    let p = pattern_of (half (suc n)) z in
    ground (
      arith,
      check_length_ok (suc n) (to_be (suc n) p),
      split_front-append (suc n) (to_be (suc n) p) rest,
      length-to_be (suc n) p,
      from_be-to_be (suc n) p (pattern_of-lt_pow n z h),
      of_pattern-pattern_of (half (suc n)) z h,
    )
