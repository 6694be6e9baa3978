-- ===== src/Prelude/Words.antt =====
-- Machine integers: bounds, saturating and checked operations, and big-endian bytes.
use Prim.Native.Nat.{ℕ, zero, suc, ◌+◌, ◌-◌, ◌*◌, ◌/◌, ◌%◌, ◌^◌, ◌<◌, min}
use mathlib.Core.Path.{◌≡◌, refl, sym, ◌∙◌}
use mathlib.Core.Option.{Option, none, some}
use mathlib.Core.List.{List, [], ◌∷◌, ◌++◌, append_assoc, append-nil}
use native.Mathlib.Omega.{arith}
use native.Mathlib.Nat.{pow-suc, add-zero, zero-add}
use the_open_network_x.Prelude.Tests.{ltb, leb, if◌then◌else◌}
use the_open_network_x.Prelude.Lists.{length, length-append, All, All-append}

abbrev pub u16_max : ℕ
u16_max = 0xffff

abbrev pub u32_max : ℕ
u32_max = 0xffffffff

abbrev pub u64_max : ℕ
u64_max = 0xffffffffffffffff

abbrev pub u128_max : ℕ
u128_max = 0xffffffffffffffffffffffffffffffff

-- `saturating_add` and `saturating_mul` at a type with the given maximum.
abbrev pub saturating_add : ℕ → ℕ → ℕ → ℕ
saturating_add top a b = min (a + b) top

abbrev pub saturating_mul : ℕ → ℕ → ℕ → ℕ
saturating_mul top a b = min (a * b) top

-- `checked_add`, `checked_mul` and `checked_sub`.
abbrev pub checked_add : ℕ → ℕ → ℕ → Option ℕ
checked_add top a b = if leb (a + b) top then some (a + b) else none

abbrev pub checked_mul : ℕ → ℕ → ℕ → Option ℕ
checked_mul top a b = if leb (a * b) top then some (a * b) else none

abbrev pub checked_sub : ℕ → ℕ → Option ℕ
checked_sub a b = if ltb a b then none else some (a - b)

-- `to_be_bytes` of an unsigned integer of n bytes: the most significant byte first.
unfoldable pub to_be : ℕ → ℕ → List ℕ
to_be zero v = []
to_be (suc n) v = to_be n (v / 256) ++ v % 256 ∷ []

from_be_acc : ℕ → List ℕ → ℕ
from_be_acc acc [] = acc
from_be_acc acc (b ∷ bs) = from_be_acc (acc * 256 + b) bs

-- `from_be_bytes`
unfoldable pub from_be : List ℕ → ℕ
unfolding from_be_acc
from_be bs = from_be_acc 0 bs

abbrev pub IsByte : ℕ → Type 0
IsByte b = b < 256

pub length-to_be : (n v : ℕ) → length (to_be n v) ≡ n
unfolding to_be
length-to_be zero v = refl
length-to_be (suc n) v =
    omega (arith, length-append (to_be n (v / 256)) (v % 256 ∷ []), length-to_be n (v / 256))

pub to_be-IsByte : (n v : ℕ) → All IsByte (to_be n v)
unfolding to_be
to_be-IsByte zero v = tt
to_be-IsByte (suc n) v =
    All-append IsByte (to_be n (v / 256)) (v % 256 ∷ []) (to_be-IsByte n (v / 256)) (omega arith)

from_be_acc-snoc :
    (acc : ℕ) (bs : List ℕ) (b : ℕ) → from_be_acc acc (bs ++ b ∷ []) ≡ from_be_acc acc bs * 256 + b
unfolding from_be_acc
from_be_acc-snoc acc [] b = refl
from_be_acc-snoc acc (x ∷ bs) b = from_be_acc-snoc (acc * 256 + x) bs b

-- Reading back the bytes of a value that fits.
pub from_be-to_be : (n v : ℕ) → v < 256 ^ n → from_be (to_be n v) ≡ v
unfolding to_be from_be
from_be-to_be zero v h = omega arith
from_be-to_be (suc n) v h = omega (
  arith,
  from_be_acc-snoc 0 (to_be n (v / 256)) (v % 256),
  from_be-to_be n (v / 256) (omega (arith, pow-suc 256 n)),
)

add_suc_left : (m k : ℕ) → suc m + k ≡ m + suc k
add_suc_left m k = omega arith

to_be_last : (k acc b : ℕ) → b < 256 → to_be (suc k) (acc * 256 + b) ≡ to_be k acc ++ b ∷ []
unfolding to_be
to_be_last k acc b h =
    let quotient : (acc * 256 + b) / 256 ≡ acc = omega arith in
    let rest : (acc * 256 + b) % 256 ≡ b = omega arith in rw (quotient, rest)

to_be-from_be_acc :
    (k acc : ℕ) (bs : List ℕ)
    → All IsByte bs
    → to_be (length bs + k) (from_be_acc acc bs) ≡ to_be k acc ++ bs
unfolding to_be from_be_acc
to_be-from_be_acc k acc [] h = rw zero-add (sym (append-nil (to_be k acc)))
to_be-from_be_acc k acc (b ∷ bs) h = rw (add_suc_left (length bs) k) (
    to_be-from_be_acc (suc k) (acc * 256 + b) bs h.1
    ∙ rw (to_be_last k acc b h.0) (append_assoc (to_be k acc) (b ∷ []) bs))

-- Every byte string is the encoding of the value that it reads as.
pub to_be-from_be : (bs : List ℕ) → All IsByte bs → to_be (length bs) (from_be bs) ≡ bs
unfolding to_be from_be
to_be-from_be bs h = rw add-zero at (to_be-from_be_acc 0 0 bs h)
