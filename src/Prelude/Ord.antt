-- ===== src/Prelude/Ord.antt =====
-- The trait `Ord`, as the ordered maps and sets use it, for numbers, byte strings and pairs.
use Prim.Native.Nat.{ℕ, compare, Ordering}
use Prim.Native.Nat.Ordering.{lt, eq, gt}
use mathlib.Core.Path.{◌≡◌, refl}
use mathlib.Core.Logic.{◌≢◌}
use mathlib.Core.Bool.{Bool, true, false}
use mathlib.Core.List.{List, [], ◌∷◌}
use native.Mathlib.Omega.{arith}

pub record Ord (K : Type 0) : Type 0 where
  pub cmp : K → K → Ordering
  pub cmp_self : (a : K) → cmp a a ≡ eq
  pub cmp_eq : (a b : K) → cmp a b ≡ eq → a ≡ b
  pub cmp_gt : (a b : K) → cmp a b ≡ gt → cmp b a ≡ lt
  pub cmp_trans : (a b c : K) → cmp a b ≡ lt → cmp b c ≡ lt → cmp a c ≡ lt

-- `a == b`
abbrev pub same : {K : Type 0} ⦃o : Ord K⦄ → K → K → Bool
same ⦃o⦄ a b = elim (o.cmp a b) [ eq ↦ true | _ ↦ false ]

module _ {K : Type 0} ⦃o : Ord K⦄ where
  pub same_refl : (a : K) → same a a ≡ true
  same_refl a = ground (arith, o.cmp_self a)

  pub same→eq : (a b : K) → same a b ≡ true → a ≡ b
  same→eq a b h = ground (arith, o.cmp_eq a b)

module _ {K : Type 0} ⦃o : Ord K⦄ where
  pub cmp_flip : (a b : K) → o.cmp a b ≡ gt → o.cmp b a ≢ gt
  cmp_flip a b h = ground (arith, o.cmp_gt a b)

  pub cmp_le_trans : (a b c : K) → o.cmp a b ≢ gt → o.cmp b c ≢ gt → o.cmp a c ≢ gt
  cmp_le_trans a b c h k = ground (arith, o.cmp_eq a b, o.cmp_eq b c, o.cmp_trans a b c)

pub compare_self : (a : ℕ) → compare a a ≡ eq
compare_self a = ground arith

pub compare-eq : (a b : ℕ) → compare a b ≡ eq → a ≡ b
compare-eq a b h = ground arith

pub compare-gt : (a b : ℕ) → compare a b ≡ gt → compare b a ≡ lt
compare-gt a b h = ground arith

pub compare_trans : (a b c : ℕ) → compare a b ≡ lt → compare b c ≡ lt → compare a c ≡ lt
compare_trans a b c h k = ground arith

instance abbrev pub nat_ord : Ord ℕ
nat_ord = record {
  cmp = compare;
  cmp_self = compare_self;
  cmp_eq = compare-eq;
  cmp_gt = compare-gt;
  cmp_trans = compare_trans;
}

-- Lexicographic order of byte strings, a proper prefix first.
abbrev pub cmp_bytes : List ℕ → List ℕ → Ordering
cmp_bytes [] [] = eq
cmp_bytes [] (b ∷ bs) = lt
cmp_bytes (x ∷ xs) [] = gt
cmp_bytes (x ∷ xs) (y ∷ ys) = elim (compare x y) [ lt ↦ lt | eq ↦ cmp_bytes xs ys | gt ↦ gt ]

pub cmp_bytes_self : (a : List ℕ) → cmp_bytes a a ≡ eq
cmp_bytes_self [] = refl
cmp_bytes_self (x ∷ xs) = ground (arith, cmp_bytes_self xs)

pub cmp_bytes-eq : (a b : List ℕ) → cmp_bytes a b ≡ eq → a ≡ b
cmp_bytes-eq [] [] h = refl
cmp_bytes-eq [] (y ∷ ys) h = ground arith
cmp_bytes-eq (x ∷ xs) [] h = ground arith
cmp_bytes-eq (x ∷ xs) (y ∷ ys) h = ground (arith, cmp_bytes-eq xs ys)

pub cmp_bytes-gt : (a b : List ℕ) → cmp_bytes a b ≡ gt → cmp_bytes b a ≡ lt
cmp_bytes-gt [] [] h = ground arith
cmp_bytes-gt [] (y ∷ ys) h = ground arith
cmp_bytes-gt (x ∷ xs) [] h = refl
cmp_bytes-gt (x ∷ xs) (y ∷ ys) h = ground (arith, cmp_bytes-gt xs ys)

pub cmp_bytes_trans :
    (a b c : List ℕ) → cmp_bytes a b ≡ lt → cmp_bytes b c ≡ lt → cmp_bytes a c ≡ lt
cmp_bytes_trans [] [] c h k = ground arith
cmp_bytes_trans [] (y ∷ ys) [] h k = ground arith
cmp_bytes_trans [] (y ∷ ys) (z ∷ zs) h k = refl
cmp_bytes_trans (x ∷ xs) [] c h k = ground arith
cmp_bytes_trans (x ∷ xs) (y ∷ ys) [] h k = ground arith
cmp_bytes_trans (x ∷ xs) (y ∷ ys) (z ∷ zs) h k = ground (arith, cmp_bytes_trans xs ys zs)

instance abbrev pub bytes_ord : Ord (List ℕ)
bytes_ord = record {
  cmp = cmp_bytes;
  cmp_self = cmp_bytes_self;
  cmp_eq = cmp_bytes-eq;
  cmp_gt = cmp_bytes-gt;
  cmp_trans = cmp_bytes_trans;
}

-- Pairs, tuples and structs with a derived `Ord` compare field by field.
module _ {A B : Type 0} ⦃a : Ord A⦄ ⦃b : Ord B⦄ where
  abbrev pub cmp_pair : A × B → A × B → Ordering
  cmp_pair x y = elim (a.cmp x.0 y.0) [ lt ↦ lt | eq ↦ b.cmp x.1 y.1 | gt ↦ gt ]

  pub cmp_pair_self : (x : A × B) → cmp_pair x x ≡ eq
  cmp_pair_self x = ground (arith, a.cmp_self x.0, b.cmp_self x.1)

  pub cmp_pair-eq : (x y : A × B) → cmp_pair x y ≡ eq → x ≡ y
  cmp_pair-eq x y h = ground (arith, a.cmp_eq x.0 y.0, b.cmp_eq x.1 y.1)

  pub cmp_pair-gt : (x y : A × B) → cmp_pair x y ≡ gt → cmp_pair y x ≡ lt
  cmp_pair-gt x y h =
      ground (arith, a.cmp_eq x.0 y.0, a.cmp_self x.0, a.cmp_gt x.0 y.0, b.cmp_gt x.1 y.1)

  pub cmp_pair_trans : (x y z : A × B) → cmp_pair x y ≡ lt → cmp_pair y z ≡ lt → cmp_pair x z ≡ lt
  cmp_pair_trans x y z h k =
      ground (
        arith,
        a.cmp_eq x.0 y.0,
        a.cmp_eq y.0 z.0,
        a.cmp_trans x.0 y.0 z.0,
        b.cmp_trans x.1 y.1 z.1,
      )

  instance abbrev pub pair_ord : Ord (A × B)
  pair_ord = record {
    cmp = cmp_pair;
    cmp_self = cmp_pair_self;
    cmp_eq = cmp_pair-eq;
    cmp_gt = cmp_pair-gt;
    cmp_trans = cmp_pair_trans;
  }
