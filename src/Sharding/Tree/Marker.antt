-- ===== src/Sharding/Tree/Marker.antt =====
-- The marker bit of a shard's identifier, and of those of its children.
use native.Mathlib.Nat.{pow-suc, one-le-pow, mul-div_cancel, div-div-eq-div-mul}
use the_open_network_x.Prelude.{
  ℕ, zero, suc, ◌+◌, ◌-◌, ◌*◌, ◌/◌, ◌%◌, ◌^◌, ◌≤◌, ◌<◌, ◌≡◌, ◌≢◌, refl, sym, ap, ◌∙◌, true, false,
  ◌&&◌, ◌||◌, take, ok, arith, ◌==◌, ==→eq, ==→ne, ==_refl, Bool-cases, inl, inr,
}
use the_open_network_x.Prelude.Int.{ℤ}
use the_open_network_x.Prelude.Words.{from_be}
use the_open_network_x.DataStructures.Address.{AccountId}
use the_open_network_x.DataStructures.Shard.{
  ShardIdent, high_bits, trailing_zeros, prefix_len, contains_account,
}
use the_open_network_x.DataStructures.Shard.Laws.{prefix_len_of}
use the_open_network_x.Sharding.Tree.{test_bit, clear_bit, set_bit}

odd_shifted : (q t : ℕ) → (2 * q + 1) * 2 ^ suc t ≡ 2 * ((2 * q + 1) * 2 ^ t)
odd_shifted q t = grind (arith, pow-suc 2 t)

-- A number of n bits that is not zero is an odd number shifted up by its trailing zeros.
trailing_zeros_odd :
    (n v : ℕ)
    → v ≢ 0
    → v < 2 ^ n
    → (q : ℕ) × (v ≡ (2 * q + 1) * 2 ^ trailing_zeros n v) × (trailing_zeros n v < n)
unfolding trailing_zeros
trailing_zeros_odd zero v ne lt = absurd (omega (arith, ne, lt))
trailing_zeros_odd (suc n) v ne lt = elim (Bool-cases (v % 2 == 1)) [
  | inl odd ↦
      let v_is : v ≡ (2 * (v / 2) + 1) * 1 = ground arith in
      (v / 2, rw odd v_is, rw odd (omega arith))
  | inr even ↦
      let half_lt : v / 2 < 2 ^ n = omega (arith, lt, pow-suc 2 n) in
      let twice : v ≡ 2 * (v / 2) = ground arith in
      let half_ne : v / 2 ≢ 0 = λ e. absurd (omega (arith, e, twice, ne)) in
      let (q, half_is, below) = trailing_zeros_odd n (v / 2) half_ne half_lt in
      let t = trailing_zeros n (v / 2) in
      (
        q,
        rw even (twice ∙ ap (λ w. 2 * w) half_is ∙ sym (odd_shifted q t)),
        rw even (omega (arith, below)),
      )
]

-- A shard's identifier is an odd number shifted up to the bit behind its prefix.
pub marked_ident :
    (s : ShardIdent) (len : ℕ)
    → s.shard_prefix_ident < 2 ^ 64
    → prefix_len s ≡ ok len
    → (q : ℕ) × (s.shard_prefix_ident ≡ (2 * q + 1) * 2 ^ (63 - len)) × (len ≤ 60)
unfolding prefix_len
marked_ident s len fits h =
    let v = s.shard_prefix_ident in
    let tz = trailing_zeros 64 v in
    let marked : v ≢ 0 = ground arith in
    let (q, v_is, below) = trailing_zeros_odd 64 v marked fits in
    let short : (63 - tz ≡ len) × (len ≤ 60) = (ground arith, ground arith) in
    let at : tz ≡ 63 - len = omega (arith, below, short) in
    (q, v_is ∙ ap (λ t. (2 * q + 1) * 2 ^ t) at, short.1)

pub halves : (d j : ℕ) → (2 * d + 1) * 2 ^ j / 2 ^ suc j ≡ d
halves d j =
    let quotient : (2 * d + 1) * 2 ^ j / 2 ^ j / 2 ≡ d =
      rw (mul-div_cancel (2 * d + 1) (one-le-pow j 2 (omega arith))) (omega arith) in
    rw (pow-suc 2 j) (sym (div-div-eq-div-mul ((2 * d + 1) * 2 ^ j) (2 ^ j) 2) ∙ quotient)

differs : (a b : ℕ) → a ≢ b → (a == b) ≡ false
differs a b ne = ground (arith, ne)

scaled : (a b p : ℕ) → 1 ≤ p → (a * p == b * p) ≡ (a == b)
scaled a b p pos = elim (Bool-cases (a == b)) [
  | inl same ↦ rw (same, ==→eq a b same) (==_refl (b * p))
  | inr other ↦
      let apart : a * p ≢ b * p = λ e.
        ==→ne a b other (sym (mul-div_cancel a pos) ∙ ap (λ m. m / p) e ∙ mul-div_cancel b pos) in
      rw other (differs (a * p) (b * p) apart)
]

-- The shard of a marked identifier owns the accounts whose first bits are the number before the marker.
pub contains_marked :
    (w : ℤ) (v d len : ℕ) (account : AccountId)
    → 1 ≤ len
    → len ≤ 60
    → v ≡ (2 * d + 1) * 2 ^ (63 - len)
    → contains_account (record { workchain_id = w; shard_prefix_ident = v }) account
      ≡ ok (d == from_be (take 8 account) / 2 ^ (64 - len))
unfolding contains_account high_bits
contains_marked w v d len account pos short v_is =
    let nonempty : (len == 0) ≡ false = ground arith in
    let at : 64 - len ≡ suc (63 - len) = omega (arith, short) in
    let high : v / 2 ^ suc (63 - len) ≡ d = rw v_is (halves d (63 - len)) in
    rw (prefix_len_of w v d len short v_is, nonempty, at, high)
      (ap ok (
        scaled d (from_be (take 8 account) / 2 ^ suc (63 - len)) (2 ^ suc (63 - len))
          (one-le-pow (suc (63 - len)) 2 (omega arith))))

test_bit-shift : (k m : ℕ) → test_bit k (m * 2 ^ k) ≡ (m % 2 == 1)
unfolding test_bit
test_bit-shift k m = rw (mul-div_cancel m (one-le-pow k 2 (omega arith))) refl

clear_odd : (k m : ℕ) → clear_bit k ((2 * m + 1) * 2 ^ k) ≡ 2 * m * 2 ^ k
unfolding clear_bit
clear_odd k m =
    let is_odd : ((2 * m + 1) % 2 == 1) ≡ true = ground arith in
    rw (test_bit-shift k (2 * m + 1), is_odd) (grind arith)

set_odd : (k m : ℕ) → set_bit k ((2 * m + 1) * 2 ^ k) ≡ (2 * m + 1) * 2 ^ k
unfolding set_bit
set_odd k m =
    let is_odd : ((2 * m + 1) % 2 == 1) ≡ true = ground arith in
    rw (test_bit-shift k (2 * m + 1), is_odd) refl

set_even : (k m : ℕ) → set_bit k (2 * m * 2 ^ k) ≡ (2 * m + 1) * 2 ^ k
unfolding set_bit
set_even k m =
    let is_even : ((2 * m) % 2 == 1) ≡ false = ground arith in
    rw (test_bit-shift k (2 * m), is_even) (grind arith)

shifted_twice : (k m : ℕ) → m * 2 ^ suc k ≡ 2 * m * 2 ^ k
shifted_twice k m = grind (arith, pow-suc 2 k)

-- The identifiers of the children.
pub child_0_ident :
    (q k : ℕ) → set_bit k (clear_bit (suc k) ((2 * q + 1) * 2 ^ suc k)) ≡ (2 * (2 * q) + 1) * 2 ^ k
child_0_ident q k = rw (clear_odd (suc k) q, shifted_twice k (2 * q)) (set_even k (2 * q))

pub child_1_ident :
    (q k : ℕ)
    → set_bit k (set_bit (suc k) ((2 * q + 1) * 2 ^ suc k)) ≡ (2 * (2 * q + 1) + 1) * 2 ^ k
child_1_ident q k = rw (set_odd (suc k) q, shifted_twice k (2 * q + 1)) (set_even k (2 * q + 1))

-- The parent owns the accounts whose first bits are its own; every account, where it has no bits.
pub contains_parent :
    (s : ShardIdent) (q len : ℕ) (account : AccountId)
    → len ≤ 60
    → s.shard_prefix_ident < 2 ^ 64
    → from_be (take 8 account) < 2 ^ 64
    → s.shard_prefix_ident ≡ (2 * q + 1) * 2 ^ (63 - len)
    → contains_account s account ≡ ok (q == from_be (take 8 account) / 2 ^ (64 - len))
unfolding contains_account
contains_parent s q zero account short fits bits_fit v_is =
    let none_left : q ≡ 0 = omega (arith, fits, v_is) in
    let none_set : from_be (take 8 account) / 2 ^ 64 ≡ 0 = omega (arith, bits_fit) in
    rw (prefix_len_of s.workchain_id s.shard_prefix_ident q 0 short v_is, none_left, none_set) refl
contains_parent s q (suc n) account short fits bits_fit v_is =
    contains_marked s.workchain_id s.shard_prefix_ident q (suc n) account (omega arith) short v_is

-- One of two neighbours has the half of x for its half exactly when x is one of them.
pub neighbours :
    (q x : ℕ)
    → ((q == x / 2) ≡ ((2 * q == x) || (2 * q + 1 == x)))
      × (((2 * q == x) && (2 * q + 1 == x)) ≡ false)
neighbours q x = (ground arith, ground arith)

pub halved_again : (a k : ℕ) → a / 2 ^ suc k ≡ a / 2 ^ k / 2
halved_again a k = rw (pow-suc 2 k) (sym (div-div-eq-div-mul a (2 ^ k) 2))
