-- ===== src/Execution/Dictionary/Bits.antt =====
-- Keys cut at the first place where they differ.
use the_open_network_x.Prelude.{
  suc, ◌<◌, ◌≡◌, refl, ap, ◌∙◌, ◌++◌, Bool, true, false, not, [], ◌∷◌, drop, length, arith, ◌⊎◌,
  inl, inr,
}
use the_open_network_x.Execution.Dictionary.{Key, same_bit, common, same_key, starts_with, bit_at}

pub same_bit_self : (x : Bool) → same_bit x x ≡ true
same_bit_self true = refl
same_bit_self false = refl

same_bit-not : (x : Bool) → (same_bit x (not x) ≡ false) × (same_bit (not x) x ≡ false)
same_bit-not true = (refl, refl)
same_bit-not false = (refl, refl)

-- The first key goes on with a bit where the second has the other.
abbrev pub Differs : Key → Key → Type 0
Differs s bits =
    (c : Key) × (a : Bool) × (s' : Key) × (r : Key) × (s ≡ c ++ a ∷ s') × (bits ≡ c ++ not a ∷ r)

Differs-cons : (x : Bool) (s bits : Key) → Differs s bits → Differs (x ∷ s) (x ∷ bits)
Differs-cons x s bits (c, a, s', r, s_is, bits_is) =
    (x ∷ c, a, s', r, ap (◌∷◌ x) s_is, ap (◌∷◌ x) bits_is)

-- Two keys of one length are equal or differ at some place.
pub key_compare : (s bits : Key) → length s ≡ length bits → (s ≡ bits) ⊎ Differs s bits
key_compare [] [] h = inl refl
key_compare [] (y ∷ bits) h = absurd (omega (arith, h))
key_compare (x ∷ s) [] h = absurd (omega (arith, h))
key_compare (true ∷ s) (true ∷ bits) h = elim (key_compare s bits (omega (arith, h))) [
  | inl e ↦ inl (ap (◌∷◌ true) e)
  | inr d ↦ inr (Differs-cons true s bits d)
]
key_compare (false ∷ s) (false ∷ bits) h = elim (key_compare s bits (omega (arith, h))) [
  | inl e ↦ inl (ap (◌∷◌ false) e)
  | inr d ↦ inr (Differs-cons false s bits d)
]
key_compare (true ∷ s) (false ∷ bits) h = inr ([], true, s, bits, refl, refl)
key_compare (false ∷ s) (true ∷ bits) h = inr ([], false, s, bits, refl, refl)

abbrev pub Extends : Key → Key → Type 0
Extends p bits = (b : Bool) × (r : Key) × (bits ≡ p ++ b ∷ r)

-- A longer key goes on behind the prefix or differs from it.
pub key_split : (p bits : Key) → length p < length bits → Extends p bits ⊎ Differs p bits
key_split [] [] h = absurd (omega (arith, h))
key_split [] (b ∷ bits) h = inl (b, bits, refl)
key_split (x ∷ p) [] h = absurd (omega (arith, h))
key_split (true ∷ p) (true ∷ bits) h = elim (key_split p bits (omega (arith, h))) [
  | inl (b, r, e) ↦ inl (b, r, ap (◌∷◌ true) e)
  | inr d ↦ inr (Differs-cons true p bits d)
]
key_split (false ∷ p) (false ∷ bits) h = elim (key_split p bits (omega (arith, h))) [
  | inl (b, r, e) ↦ inl (b, r, ap (◌∷◌ false) e)
  | inr d ↦ inr (Differs-cons false p bits d)
]
key_split (true ∷ p) (false ∷ bits) h = inr ([], true, p, bits, refl, refl)
key_split (false ∷ p) (true ∷ bits) h = inr ([], false, p, bits, refl, refl)

pub common_fork : (c : Key) (a : Bool) (s r : Key) → common (c ++ a ∷ s) (c ++ not a ∷ r) ≡ length c
unfolding common
common_fork [] a s r = rw ((same_bit-not a).0) refl
common_fork (x ∷ c) a s r = rw (same_bit_self x) (ap suc (common_fork c a s r))

pub common_prefix : (p : Key) (b : Bool) (r : Key) → common p (p ++ b ∷ r) ≡ length p
unfolding common
common_prefix [] b r = refl
common_prefix (x ∷ p) b r = rw (same_bit_self x) (ap suc (common_prefix p b r))

pub common_self : (s : Key) → common s s ≡ length s
unfolding common
common_self [] = refl
common_self (x ∷ s) = rw (same_bit_self x) (ap suc (common_self s))

pub same_key_self : (s : Key) → same_key s s ≡ true
unfolding same_key
same_key_self [] = refl
same_key_self (x ∷ s) = rw (same_bit_self x) (same_key_self s)

pub same_key-eq : (s r : Key) → same_key s r ≡ true → s ≡ r
unfolding same_key
same_key-eq [] [] h = refl
same_key-eq [] (y ∷ r) h = absurd (ground arith)
same_key-eq (x ∷ s) [] h = absurd (ground arith)
same_key-eq (true ∷ s) (true ∷ r) h = ap (◌∷◌ true) (same_key-eq s r h)
same_key-eq (false ∷ s) (false ∷ r) h = ap (◌∷◌ false) (same_key-eq s r h)
same_key-eq (true ∷ s) (false ∷ r) h = absurd (ground arith)
same_key-eq (false ∷ s) (true ∷ r) h = absurd (ground arith)

pub same_key_under : (c s r : Key) → same_key (c ++ s) (c ++ r) ≡ same_key s r
unfolding same_key
same_key_under [] s r = refl
same_key_under (x ∷ c) s r = rw (same_bit_self x) (same_key_under c s r)

pub same_key_fork :
    (c : Key) (a : Bool) (s r : Key) → same_key (c ++ a ∷ s) (c ++ not a ∷ r) ≡ false
unfolding same_key
same_key_fork c a s r = same_key_under c (a ∷ s) (not a ∷ r) ∙ rw ((same_bit-not a).0) refl

pub starts_with_under : (c r p : Key) → starts_with (c ++ r) (c ++ p) ≡ starts_with r p
unfolding starts_with
starts_with_under [] r p = refl
starts_with_under (x ∷ c) r p = rw (same_bit_self x) (starts_with_under c r p)

pub starts_with_prefix : (p r : Key) → starts_with (p ++ r) p ≡ true
unfolding starts_with
starts_with_prefix [] r = nothing r
  where
    nothing : (r : Key) → starts_with r [] ≡ true
    nothing [] = refl
    nothing (x ∷ r) = refl
starts_with_prefix (x ∷ p) r = rw (same_bit_self x) (starts_with_prefix p r)

pub starts_with_fork :
    (c : Key) (a : Bool) (p r : Key) → starts_with (c ++ not a ∷ r) (c ++ a ∷ p) ≡ false
unfolding starts_with
starts_with_fork c a p r = starts_with_under c (not a ∷ r) (a ∷ p) ∙ rw ((same_bit-not a).1) refl

pub bit_at_mid : (c : Key) (a : Bool) (r : Key) → bit_at (length c) (c ++ a ∷ r) ≡ a
unfolding bit_at
bit_at_mid [] a r = refl
bit_at_mid (x ∷ c) a r = bit_at_mid c a r

pub drop_mid : (c : Key) (a : Bool) (r : Key) → drop (suc (length c)) (c ++ a ∷ r) ≡ r
drop_mid [] a r = refl
drop_mid (x ∷ c) a r = drop_mid c a r
