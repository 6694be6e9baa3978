-- ===== src/DataStructures/Shard/Laws.antt =====
-- The marker bit, and round trips of addresses and shard identifiers.
use native.Mathlib.Nat.{pow-suc, one-le-pow}
use the_open_network_x.Prelude.{
  ℕ, zero, suc, ◌+◌, ◌-◌, ◌*◌, ◌/◌, ◌%◌, ◌^◌, ◌≤◌, ◌<◌, ◌≡◌, ◌≢◌, refl, ap, ◌∙◌, ◌++◌, [], false,
  length, length-append, take-append_at, drop-append_at, ok, err, arith, ltb, ◌==◌, if◌then◌else◌,
  ◌⊎◌, Bool-cases, inl, inr,
}
use the_open_network_x.Prelude.Int.{Fits, pattern_of, of_pattern, of_pattern-pattern_of}
use the_open_network_x.Prelude.Words.{length-to_be, from_be-to_be}
use the_open_network_x.Primitives.Uint
use the_open_network_x.Primitives.Uint.Laws.{length-encode, decode_exact-encode}
use the_open_network_x.Primitives.Sint
use the_open_network_x.Primitives.Sint.Laws.{pattern_of-lt_pow}
use the_open_network_x.DataStructures.Error.{invalid_shard_marker, shard_prefix_length_exceeded}
use the_open_network_x.DataStructures.Address.{
  WorkchainIdent, FullAddress, workchain_to_bytes, workchain_from_bytes, address_to_bytes,
  address_from_bytes,
}
use the_open_network_x.DataStructures.Shard.{
  ShardIdent, root, root_prefix, high_bits, trailing_zeros, prefix_len, validate, from_prefix_bits,
  to_bytes, from_bytes,
}

-- An odd number shifted up by k has k trailing zeros.
pub trailing_zeros-shift : (n k q : ℕ) → k < n → trailing_zeros n ((2 * q + 1) * 2 ^ k) ≡ k
unfolding trailing_zeros
trailing_zeros-shift zero k q h = absurd (omega (arith, h))
trailing_zeros-shift (suc n) zero q h = ground arith
trailing_zeros-shift (suc n) (suc k) q h =
    let w = (2 * q + 1) * 2 ^ k in
    let doubled : (2 * q + 1) * 2 ^ suc k ≡ 2 * w = grind (arith, pow-suc 2 k) in
    let halved : (2 * w) / 2 ≡ w = omega arith in
    let is_even : (2 * w) % 2 ≡ 0 = omega arith in
    rw (doubled, is_even, halved, trailing_zeros-shift n k q (omega (arith, h)))

length_of :
    (tz v len : ℕ)
    → v ≢ 0
    → tz ≡ 63 - len
    → len ≤ 60
    → (if v == 0
        then err invalid_shard_marker
        else if ltb 60 (63 - tz)
        then err (shard_prefix_length_exceeded (63 - tz))
        else ok (63 - tz))
      ≡ ok len
length_of tz v len marked zeros h = ground arith

pub prefix_len_of :
    (w : WorkchainIdent) (v q len : ℕ)
    → len ≤ 60
    → v ≡ (2 * q + 1) * 2 ^ (63 - len)
    → prefix_len (record { workchain_id = w; shard_prefix_ident = v }) ≡ ok len
unfolding prefix_len
prefix_len_of w v q len h v_is =
    let zeros : trailing_zeros 64 v ≡ 63 - len =
      ap (trailing_zeros 64) v_is ∙ trailing_zeros-shift 64 (63 - len) q (omega arith) in
    let power : 1 ≤ 2 ^ (63 - len) = one-le-pow (63 - len) 2 (omega arith) in
    let marked : v ≢ 0 = λ none_left. absurd (grind (arith, power, v_is, none_left)) in
    length_of (trailing_zeros 64 v) v len marked zeros h

double_odd : (d p : ℕ) → d * (p * 2) + p ≡ (2 * d + 1) * p
double_odd d p = grind arith

pub marked_prefix :
    (bits k : ℕ) → high_bits (suc k) bits + 2 ^ k ≡ (2 * (bits / 2 ^ suc k) + 1) * 2 ^ k
unfolding high_bits
marked_prefix bits k = rw (pow-suc 2 k) (double_odd (bits / (2 ^ k * 2)) (2 ^ k))

-- A shard built from the bits of a prefix has that prefix length, and a longer prefix than sixty
-- bits is refused.
pub prefix_len-from_prefix_bits :
    (w : WorkchainIdent) (bits len : ℕ)
    → (len ≤ 60)
        × ((s : ShardIdent) × (from_prefix_bits w bits len ≡ ok s) × (prefix_len s ≡ ok len))
      ⊎ (60 < len) × (from_prefix_bits w bits len ≡ err (shard_prefix_length_exceeded len))
unfolding from_prefix_bits root
prefix_len-from_prefix_bits w bits zero =
    inl (omega arith, (root w, refl, prefix_len_of w root_prefix 0 0 (omega arith) refl))
prefix_len-from_prefix_bits w bits (suc n) = elim (Bool-cases (ltb 60 (suc n))) [
  | inl long ↦ inr (ground arith, ground arith)
  | inr short ↦
      let fits : suc n ≤ 60 = ground arith in
      let v = high_bits (64 - suc n) bits + 2 ^ (63 - suc n) in
      let nonempty : (suc n == 0) ≡ false = ground arith in
      let at : 64 - suc n ≡ suc (63 - suc n) = omega (arith, fits) in
      inl (
        fits,
        (
          record { workchain_id = w; shard_prefix_ident = v },
          rw (short, nonempty) refl,
          prefix_len_of w v (bits / 2 ^ suc (63 - suc n)) (suc n) fits
              (rw at (marked_prefix bits (63 - suc n))),
        ),
      )
]

pub length-workchain : (w : WorkchainIdent) → length (workchain_to_bytes w) ≡ 4
unfolding workchain_to_bytes Sint.encode
length-workchain w = length-to_be 4 (pattern_of (Sint.half 4) w)

pub workchain_from_bytes-to_bytes :
    (w : WorkchainIdent) → Fits (Sint.half 4) w → workchain_from_bytes (workchain_to_bytes w) ≡ w
unfolding workchain_from_bytes workchain_to_bytes Sint.encode
workchain_from_bytes-to_bytes w h =
    ap (of_pattern (Sint.half 4))
      (from_be-to_be 4 (pattern_of (Sint.half 4) w) (pattern_of-lt_pow 3 w h))
    ∙ of_pattern-pattern_of (Sint.half 4) w h

pub length-to_bytes : (s : ShardIdent) → length (to_bytes s) ≡ 12
unfolding to_bytes
length-to_bytes s = omega (
  arith,
  length-append (workchain_to_bytes s.workchain_id) (Uint.encode 8 s.shard_prefix_ident),
  length-workchain s.workchain_id,
  length-encode 8 s.shard_prefix_ident,
)

-- The shard's two fields fit their types and its marker bit is valid.
abbrev pub IsShard : ShardIdent → Type 0
IsShard s =
    Fits (Sint.half 4) s.workchain_id × (s.shard_prefix_ident < 256 ^ 8) × (validate s ≡ ok tt)

-- Decoding the encoding of a valid shard identifier gives it back.
pub shard_from_bytes-to_bytes : (s : ShardIdent) → IsShard s → from_bytes (to_bytes s) ≡ ok s
unfolding from_bytes to_bytes
shard_from_bytes-to_bytes s (fw, fp, valid) =
    let w = workchain_to_bytes s.workchain_id in
    let p = Uint.encode 8 s.shard_prefix_ident in
    let total : length (w ++ p) ≡ 12 = length-to_bytes s in
    let prefix_back = (decode_exact-encode 8 s.shard_prefix_ident [] fp).0 in
    rw
      (
        total,
        take-append_at 4 w p (length-workchain s.workchain_id),
        drop-append_at 4 w p (length-workchain s.workchain_id),
        workchain_from_bytes-to_bytes s.workchain_id fw,
        prefix_back,
        valid,
      )
      refl

abbrev pub IsAddress : FullAddress → Type 0
IsAddress a = Fits (Sint.half 4) a.workchain_id × (length a.account_id ≡ 32)

pub length-address : (a : FullAddress) → IsAddress a → length (address_to_bytes a) ≡ 36
unfolding address_to_bytes
length-address a h = omega (
  arith,
  length-append (workchain_to_bytes a.workchain_id) a.account_id,
  length-workchain a.workchain_id,
  h.1,
)

-- Decoding the encoding of an address gives it back.
pub address_from_bytes-to_bytes :
    (a : FullAddress) → IsAddress a → address_from_bytes (address_to_bytes a) ≡ ok a
unfolding address_from_bytes address_to_bytes
address_from_bytes-to_bytes a h =
    let w = workchain_to_bytes a.workchain_id in
    rw
      (
        length-address a h,
        take-append_at 4 w a.account_id (length-workchain a.workchain_id),
        drop-append_at 4 w a.account_id (length-workchain a.workchain_id),
        workchain_from_bytes-to_bytes a.workchain_id h.0,
      )
      refl
