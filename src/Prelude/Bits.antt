-- ===== src/Prelude/Bits.antt =====
-- Bit operations of unsigned integers of a number of bits.
pub mod Toggle
use Prim.Native.Nat.{ℕ, zero, suc, ◌+◌, ◌-◌, ◌*◌, ◌/◌, ◌%◌, ◌^◌}
use mathlib.Core.Path.{◌≡◌, refl, sym, ◌∙◌, ap}
use mathlib.Core.List.{List, [], ◌∷◌}
use native.Mathlib.Nat.{pow-suc, zero-add, div-div-eq-div-mul}
use native.Mathlib.Omega.{arith}
use the_open_network_x.Prelude.Tests.{◌==◌, if◌then◌else◌}

-- `a ^ b`
unfoldable pub xor : ℕ → ℕ → ℕ → ℕ
xor zero a b = 0
xor (suc n) a b = 2 * xor n (a / 2) (b / 2) + (a + b) % 2

-- `count_ones`
unfoldable pub count_ones : ℕ → ℕ → ℕ
count_ones zero v = 0
count_ones (suc n) v = v % 2 + count_ones n (v / 2)

pub halved_first : (a k : ℕ) → a / 2 ^ suc k ≡ a / 2 / 2 ^ k
halved_first a k = rw (pow-suc 2 k) (grind (arith, div-div-eq-div-mul a 2 (2 ^ k)))

pub xor_self : (n a : ℕ) → xor n a a ≡ 0
unfolding xor
xor_self zero a = refl
xor_self (suc n) a = let rest = xor_self n (a / 2) in omega (arith, rest)

-- The bits from k up.
pub xor-shift : (k n a b : ℕ) → xor (k + n) a b / 2 ^ k ≡ xor n (a / 2 ^ k) (b / 2 ^ k)
unfolding xor
xor-shift zero n a b =
    let whole : (v : ℕ) → v / 2 ^ 0 ≡ v = λ v. omega arith in
    ap (λ m. xor m a b / 2 ^ 0) (zero-add n)
    ∙ whole (xor n a b)
    ∙ sym (ap (λ c. xor n c (b / 2 ^ 0)) (whole a) ∙ ap (xor n a) (whole b))
xor-shift (suc k) n a b =
    let rest = xor-shift k n (a / 2) (b / 2) in
    let whole : suc k + n ≡ suc (k + n) = omega arith in
    let low : (2 * xor (k + n) (a / 2) (b / 2) + (a + b) % 2) / 2 ≡ xor (k + n) (a / 2) (b / 2) =
      omega arith in
    ap (λ m. xor m a b / 2 ^ suc k) whole
    ∙ rw (halved_first (xor (suc (k + n)) a b) k, halved_first a k, halved_first b k, low) rest

-- Two neighbours differ in the lowest bit only.
pub xor_neighbours : (n q : ℕ) → xor (suc n) (2 * q) (2 * q + 1) ≡ 1
unfolding xor
xor_neighbours n q =
    let left : 2 * q / 2 ≡ q = omega arith in
    let right : (2 * q + 1) / 2 ≡ q = omega arith in rw (left, right, xor_self n q) (omega arith)

-- `(v >> k) & 1`
abbrev pub nth_bit : ℕ → ℕ → ℕ
nth_bit k v = v / 2 ^ k % 2

-- `v ^ (1 << k)`
unfoldable pub toggle_bit : ℕ → ℕ → ℕ
toggle_bit k v = if nth_bit k v == 1 then v - 2 ^ k else v + 2 ^ k

-- `bytes[i] |= 1 << k`
unfoldable pub set_byte_bit : List ℕ → ℕ → ℕ → List ℕ
set_byte_bit [] i k = []
set_byte_bit (b ∷ bytes) zero k = (if nth_bit k b == 1 then b else b + 2 ^ k) ∷ bytes
set_byte_bit (b ∷ bytes) (suc i) k = b ∷ set_byte_bit bytes i k
