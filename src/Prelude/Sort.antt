-- ===== src/Prelude/Sort.antt =====
-- `sort_by` of the standard library: a stable sort, as an insertion sort.
use Prim.Native.Nat.{Ordering}
use Prim.Native.Nat.Ordering.{gt}
use Prim.Native.Nat.{ℕ, suc, ◌+◌}
use mathlib.Core.Path.{◌≡◌, refl}
use mathlib.Core.Logic.{◌≢◌}
use mathlib.Core.List.{List, [], ◌∷◌, Perm}
use mathlib.Core.List.Perm
use native.Mathlib.Omega.{arith}
use the_open_network_x.Prelude.Lists.{length, All}

module _ {ℓ} {A : Type ℓ} (cmp : A → A → Ordering) where
  -- An entry that stood before an equal one stays before it.
  unfoldable pub insert_by : A → List A → List A
  insert_by x [] = x ∷ []
  insert_by x (y ∷ ys) = elim (cmp x y) [ gt ↦ y ∷ insert_by x ys | _ ↦ x ∷ y ∷ ys ]

  unfoldable pub sort_by : List A → List A
  unfolding insert_by
  sort_by [] = []
  sort_by (x ∷ xs) = insert_by x (sort_by xs)

  insert_by-perm : (x : A) (xs : List A) → Perm (insert_by x xs) (x ∷ xs)
  unfolding insert_by
  insert_by-perm x [] = Perm.refl (x ∷ [])
  insert_by-perm x (y ∷ ys) = ground (
    arith,
    Perm.refl (x ∷ y ∷ ys),
    Perm.trans (Perm.cons y (insert_by-perm x ys)) (Perm.swap x y ys),
  )

  -- Sorting loses nothing and makes nothing up.
  pub sort_by-perm : (xs : List A) → Perm (sort_by xs) xs
  unfolding sort_by
  sort_by-perm [] = Perm.refl []
  sort_by-perm (x ∷ xs) = Perm.trans (insert_by-perm x (sort_by xs)) (Perm.cons x (sort_by-perm xs))

  -- No entry comes after the one behind it.
  abbrev pub AtMost : A → List A → Type 0
  AtMost x [] = Unit {0}
  AtMost x (y ∷ ys) = (cmp x y ≢ gt) × AtMost x ys

  abbrev pub IsOrdered : List A → Type 0
  IsOrdered [] = Unit {0}
  IsOrdered (x ∷ xs) = AtMost x xs × IsOrdered xs

-- A sum over the entries does not see their order.
abbrev pub sum_of {ℓ} : {A : Type ℓ} → (A → ℕ) → List A → ℕ
sum_of f [] = 0
sum_of f (x ∷ xs) = f x + sum_of f xs

module _ {ℓ} {A : Type ℓ} (cmp : A → A → Ordering) (f : A → ℕ) where
  sum_of-insert_by : (x : A) (xs : List A) → sum_of f (insert_by cmp x xs) ≡ f x + sum_of f xs
  unfolding insert_by
  sum_of-insert_by x [] = refl
  sum_of-insert_by x (y ∷ ys) = ground (arith, sum_of-insert_by x ys)

  pub sum_of-sort_by : (xs : List A) → sum_of f (sort_by cmp xs) ≡ sum_of f xs
  unfolding sort_by
  sum_of-sort_by [] = refl
  sum_of-sort_by (x ∷ xs) = omega (arith, sum_of-insert_by x (sort_by cmp xs), sum_of-sort_by xs)

module _ {ℓ} {A : Type ℓ} (cmp : A → A → Ordering) where
  length-insert_by : (x : A) (xs : List A) → length (insert_by cmp x xs) ≡ suc (length xs)
  unfolding insert_by
  length-insert_by x [] = refl
  length-insert_by x (y ∷ ys) = ground (arith, length-insert_by x ys)

  pub length-sort_by : (xs : List A) → length (sort_by cmp xs) ≡ length xs
  unfolding sort_by
  length-sort_by [] = refl
  length-sort_by (x ∷ xs) = omega (arith, length-insert_by x (sort_by cmp xs), length-sort_by xs)

  All-insert_by {κ} :
      (P : A → Type κ) (x : A) (xs : List A) → P x → All P xs → All P (insert_by cmp x xs)
  unfolding insert_by
  All-insert_by P x [] p a = (p, tt)
  All-insert_by P x (y ∷ ys) p a = ground (arith, All-insert_by P x ys p a.1)

  pub All-sort_by {κ} : (P : A → Type κ) (xs : List A) → All P xs → All P (sort_by cmp xs)
  unfolding sort_by
  All-sort_by P [] a = tt
  All-sort_by P (x ∷ xs) a = All-insert_by P x (sort_by cmp xs) a.0 (All-sort_by P xs a.1)

-- A comparison that is total and transitive sorts its input.
module _ {ℓ} {A : Type ℓ} (cmp : A → A → Ordering) (flip : (a b : A) → cmp a b ≡ gt → cmp b a ≢ gt)
    (trans : (a b c : A) → cmp a b ≢ gt → cmp b c ≢ gt → cmp a c ≢ gt) where
  AtMost-trans : (x y : A) (ys : List A) → cmp x y ≢ gt → AtMost cmp y ys → AtMost cmp x ys
  AtMost-trans x y [] h a = tt
  AtMost-trans x y (z ∷ zs) h a = (trans x y z h a.0, AtMost-trans x y zs h a.1)

  AtMost-insert_by :
      (x y : A) (ys : List A) → cmp x y ≢ gt → AtMost cmp x ys → AtMost cmp x (insert_by cmp y ys)
  unfolding insert_by
  AtMost-insert_by x y [] h a = (h, tt)
  AtMost-insert_by x y (z ∷ zs) h a = ground (arith, AtMost-insert_by x y zs h a.1)

  insert_by-IsOrdered :
      (x : A) (xs : List A) → IsOrdered cmp xs → IsOrdered cmp (insert_by cmp x xs)
  unfolding insert_by
  insert_by-IsOrdered x [] s = (tt, tt)
  insert_by-IsOrdered x (y ∷ ys) s =
      ground (
        arith,
        insert_by-IsOrdered x ys s.1,
        flip x y,
        AtMost-trans x y ys,
        AtMost-insert_by y x ys,
      )

  pub sort_by-IsOrdered : (xs : List A) → IsOrdered cmp (sort_by cmp xs)
  unfolding sort_by
  sort_by-IsOrdered [] = tt
  sort_by-IsOrdered (x ∷ xs) = insert_by-IsOrdered x (sort_by cmp xs) (sort_by-IsOrdered xs)
