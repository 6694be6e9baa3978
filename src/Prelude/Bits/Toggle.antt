-- ===== src/Prelude/Bits/Toggle.antt =====
-- A bit that is toggled, and the bits above and below it.
use Prim.Native.Nat.{ℕ, zero, suc, ◌+◌, ◌*◌, ◌/◌, ◌%◌, ◌^◌, ◌<◌, ◌≤◌}
use mathlib.Core.Path.{◌≡◌, refl, sym, ◌∙◌, ap}
use mathlib.Core.Logic.{◌≢◌, inl, inr}
use native.Mathlib.Nat.{pow-suc, zero-add, div-div-eq-div-mul}
use native.Mathlib.Omega.{arith}
use the_open_network_x.Prelude.Tests.{◌==◌, Bool-cases, ==→eq}
use the_open_network_x.Prelude.Bits.{xor, xor_self, count_ones, nth_bit, toggle_bit, halved_first}

nth_bit-suc : (k v : ℕ) → nth_bit (suc k) v ≡ nth_bit k (v / 2)
nth_bit-suc k v = ap (λ w. w % 2) (halved_first v k)

power_fits : (k v : ℕ) → nth_bit k v ≡ 1 → 2 ^ k ≤ v
power_fits zero v h = omega (arith, h)
power_fits (suc k) v h =
    let half = power_fits k (v / 2) (sym (nth_bit-suc k v) ∙ h) in omega (arith, half, pow-suc 2 k)

-- What a toggle of a bit that is not the lowest leaves and changes.
pub toggle_bit-suc :
    (k v : ℕ)
    → (toggle_bit (suc k) v / 2 ≡ toggle_bit k (v / 2)) × (toggle_bit (suc k) v % 2 ≡ v % 2)
unfolding toggle_bit
toggle_bit-suc k v = elim (Bool-cases (nth_bit k (v / 2) == 1)) [
  | inl set ↦
      let fits = power_fits k (v / 2) (==→eq (nth_bit k (v / 2)) 1 set) in
      rw (nth_bit-suc k v, set) (omega (arith, fits, pow-suc 2 k), omega (arith, fits, pow-suc 2 k))
  | inr clear ↦ rw (nth_bit-suc k v, clear) (omega (arith, pow-suc 2 k), omega (arith, pow-suc 2 k))
]

pub toggle_bit-zero : (v : ℕ) → (toggle_bit 0 v / 2 ≡ v / 2) × ((v + toggle_bit 0 v) % 2 ≡ 1)
unfolding toggle_bit
toggle_bit-zero v = (ground arith, ground arith)

-- A number and itself with a bit toggled differ in that bit.
pub xor-toggle_bit : (n m c : ℕ) → m < n → xor n c (toggle_bit m c) ≡ 2 ^ m
unfolding xor
xor-toggle_bit zero m c h = absurd (omega (arith, h))
xor-toggle_bit (suc n) zero c h =
    let (half, low) = toggle_bit-zero c in rw (half, xor_self n (c / 2), low) refl
xor-toggle_bit (suc n) (suc m) c h =
    let (half, low) = toggle_bit-suc m c in
    let rest = xor-toggle_bit n m (c / 2) (omega (arith, h)) in
    let even : (c + toggle_bit (suc m) c) % 2 ≡ 0 = omega (arith, low) in
    rw (half, even, rest) (omega (arith, pow-suc 2 m))

-- The bits from a toggled one up.
pub toggle_bit-shift : (m c : ℕ) → toggle_bit m c / 2 ^ m ≡ toggle_bit 0 (c / 2 ^ m)
toggle_bit-shift zero c =
    let whole : (v : ℕ) → v / 2 ^ 0 ≡ v = λ v. omega arith in
    whole (toggle_bit 0 c) ∙ ap (toggle_bit 0) (sym (whole c))
toggle_bit-shift (suc m) c =
    let (half, low) = toggle_bit-suc m c in
    halved_first (toggle_bit (suc m) c) m
    ∙ ap (λ v. v / 2 ^ m) half
    ∙ toggle_bit-shift m (c / 2)
    ∙ ap (toggle_bit 0) (sym (halved_first c m))

pub halved_last : (a k : ℕ) → a / 2 ^ suc k ≡ a / 2 ^ k / 2
halved_last a k = rw (pow-suc 2 k) (sym (div-div-eq-div-mul a (2 ^ k) 2))

other_bit : (x y : ℕ) → x / 2 ≡ y / 2 → x % 2 ≢ y % 2 → toggle_bit 0 x ≡ y
unfolding toggle_bit
other_bit x y h ne = ground (arith, h, ne)

-- Two numbers with the same bits above one that differs agree also there after it is toggled.
pub toggle_bit-agree :
    (m c t : ℕ)
    → c / 2 ^ suc m ≡ t / 2 ^ suc m
    → nth_bit m c ≢ nth_bit m t
    → toggle_bit m c / 2 ^ m ≡ t / 2 ^ m
toggle_bit-agree m c t above differ =
    let halves : c / 2 ^ m / 2 ≡ t / 2 ^ m / 2 = sym (halved_last c m) ∙ above ∙ halved_last t m in
    toggle_bit-shift m c ∙ other_bit (c / 2 ^ m) (t / 2 ^ m) halves differ

-- The number of the low bits in which two numbers differ.
abbrev pub differing : ℕ → ℕ → ℕ → ℕ
differing n c t = count_ones n (xor n c t)

differing-suc : (n c t : ℕ) → differing (suc n) c t ≡ (c + t) % 2 + differing n (c / 2) (t / 2)
unfolding xor count_ones
differing-suc n c t =
    let x = xor n (c / 2) (t / 2) in
    let high : (2 * x + (c + t) % 2) / 2 ≡ x = omega arith in
    let low : (2 * x + (c + t) % 2) % 2 ≡ (c + t) % 2 = omega arith in rw (high, low) refl

pub differing_top :
    (m c t : ℕ) → differing (suc m) c t ≡ differing m c t + (nth_bit m c + nth_bit m t) % 2
unfolding count_ones
differing_top zero c t = let one = differing-suc 0 c t in one ∙ omega arith
differing_top (suc m) c t =
    let rest = differing_top m (c / 2) (t / 2) in
    rw (differing-suc (suc m) c t, differing-suc m c t, nth_bit-suc m c, nth_bit-suc m t, rest)
      (omega arith)

pub differing-toggle_bit : (m c t : ℕ) → differing m (toggle_bit m c) t ≡ differing m c t
unfolding count_ones
differing-toggle_bit zero c t = refl
differing-toggle_bit (suc m) c t =
    let (half, low) = toggle_bit-suc m c in
    rw
      (
        differing-suc m (toggle_bit (suc m) c) t,
        differing-suc m c t,
        half,
        differing-toggle_bit m (c / 2) (t / 2),
      )
      (omega (arith, low))

half_double : (k x : ℕ) → x * 2 ^ suc k ≡ x * 2 ^ k * 2
half_double k x = grind (arith, pow-suc 2 k)

-- A bit of a number that is shifted up.
pub nth_bit-shift : (k m c : ℕ) → nth_bit (k + m) (c * 2 ^ k) ≡ nth_bit m c
nth_bit-shift zero m c =
    let whole : c * 2 ^ 0 ≡ c = omega arith in
    ap (λ n. nth_bit n (c * 2 ^ 0)) (zero-add m) ∙ ap (nth_bit m) whole
nth_bit-shift (suc k) m c =
    let longer : suc k + m ≡ suc (k + m) = omega arith in
    let half : c * 2 ^ k * 2 / 2 ≡ c * 2 ^ k = omega arith in
    ap (λ n. nth_bit n (c * 2 ^ suc k)) longer
    ∙ ap (nth_bit (suc (k + m))) (half_double k c)
    ∙ nth_bit-suc (k + m) (c * 2 ^ k * 2)
    ∙ ap (nth_bit (k + m)) half
    ∙ nth_bit-shift k m c

toggle_bit-double : (k x : ℕ) → toggle_bit (suc k) (x * 2) ≡ toggle_bit k x * 2
toggle_bit-double k x =
    let half : x * 2 / 2 ≡ x = omega arith in
    let (high, low) = toggle_bit-suc k (x * 2) in
    let high' : toggle_bit (suc k) (x * 2) / 2 ≡ toggle_bit k x = high ∙ ap (toggle_bit k) half in
    omega (arith, high', low)

pub toggle_bit-shifted : (k m c : ℕ) → toggle_bit (k + m) (c * 2 ^ k) ≡ toggle_bit m c * 2 ^ k
toggle_bit-shifted zero m c =
    let whole : c * 2 ^ 0 ≡ c = omega arith in
    ap (λ n. toggle_bit n (c * 2 ^ 0)) (zero-add m) ∙ ap (toggle_bit m) whole ∙ omega arith
toggle_bit-shifted (suc k) m c =
    let longer : suc k + m ≡ suc (k + m) = omega arith in
    ap (λ n. toggle_bit n (c * 2 ^ suc k)) longer
    ∙ ap (toggle_bit (suc (k + m))) (half_double k c)
    ∙ toggle_bit-double (k + m) (c * 2 ^ k)
    ∙ ap (λ v. v * 2) (toggle_bit-shifted k m c)
    ∙ sym (half_double k (toggle_bit m c))

pub shift-shift : (k n x : ℕ) → x / 2 ^ k / 2 ^ n ≡ x / 2 ^ (k + n)
shift-shift zero n x =
    let whole : x / 2 ^ 0 ≡ x = omega arith in
    ap (λ v. v / 2 ^ n) whole ∙ ap (λ m. x / 2 ^ m) (sym (zero-add n))
shift-shift (suc k) n x =
    let longer : suc (k + n) ≡ suc k + n = omega arith in
    ap (λ v. v / 2 ^ n) (halved_first x k)
    ∙ shift-shift k n (x / 2)
    ∙ sym (halved_first x (k + n))
    ∙ ap (λ m. x / 2 ^ m) longer
