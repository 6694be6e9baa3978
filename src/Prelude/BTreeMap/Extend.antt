-- ===== src/Prelude/BTreeMap/Extend.antt =====
-- `BTreeMap::extend`, and the equality of maps with the same entries.
use Prim.Native.Nat.Ordering.{lt}
use mathlib.Core.Path.{◌≡◌, refl, sym, ap, ◌∙◌}
use mathlib.Core.Logic.{◌⊎◌, inl, inr}
use mathlib.Core.Option.{Option, none, some}
use mathlib.Core.List.{[], ◌∷◌}
use native.Mathlib.Omega.{arith}
use the_open_network_x.Prelude.Ord.{Ord}
use the_open_network_x.Prelude.BTreeMap.{
  BTreeMap, lookup, insert, lookup-insert_self, lookup-insert_ne,
}
use the_open_network_x.Prelude.BTreeMap.Sorted.{
  Above, IsSorted, Above-trans, insert-IsSorted, lookup-Above,
}

abbrev pub or_else {ℓ} : {V : Type ℓ} → Option V → Option V → Option V
or_else (some v) w = some v
or_else none w = w

order : {K : Type 0} ⦃o : Ord K⦄ (j i : K) → (o.cmp j i ≡ lt) ⊎ (o.cmp i j ≡ lt) ⊎ (j ≡ i)
order ⦃o⦄ j i = ground (arith, o.cmp_gt j i, o.cmp_eq j i)

module _ {K V : Type 0} ⦃o : Ord K⦄ where
  -- The entries of the second map are put into the first, one after the other.
  unfoldable pub extend : BTreeMap K V → BTreeMap K V → BTreeMap K V
  extend m [] = m
  extend m ((k, v) ∷ n) = extend (insert k v m) n

  pub extend-IsSorted : (m n : BTreeMap K V) → IsSorted m → IsSorted (extend m n)
  unfolding extend
  extend-IsSorted m [] s = s
  extend-IsSorted m ((k, v) ∷ n) s = extend-IsSorted (insert k v m) n (insert-IsSorted k v m s)

  pub lookup-extend :
      (k : K) (m n : BTreeMap K V)
      → IsSorted n
      → lookup k (extend m n) ≡ or_else (lookup k n) (lookup k m)
  unfolding extend lookup
  lookup-extend k m [] s = refl
  lookup-extend k m ((j, v) ∷ n) s = ground (
    arith,
    lookup-extend k (insert j v m) n s.1,
    o.cmp_eq k j,
    lookup-Above j n s.0,
    lookup-insert_self j v m,
    lookup-insert_ne k j v m,
    o.cmp_self k,
  )

  behind :
      (k j i : K) (v w : V) (m n : BTreeMap K V)
      → j ≡ i
      → Above j m
      → Above i n
      → lookup k ((j, v) ∷ m) ≡ lookup k ((i, w) ∷ n)
      → lookup k m ≡ lookup k n
  unfolding lookup
  behind k j i v w m n e a b h =
      ground (arith, h, e, o.cmp_eq k j, lookup-Above j m a, lookup-Above i n b)

  heads :
      (j i : K) (v w : V) (m n : BTreeMap K V)
      → j ≡ i
      → lookup j ((j, v) ∷ m) ≡ lookup j ((i, w) ∷ n)
      → ◌≡◌ {A = K × V} (j, v) (i, w)
  unfolding lookup
  heads j i v w m n e h = ground (arith, e, h, o.cmp_self j)

  lookup_head : (j : K) (v : V) (m : BTreeMap K V) → lookup j ((j, v) ∷ m) ≡ some v
  unfolding lookup
  lookup_head j v m = rw (lookup, o.cmp_self j) refl

  lookup_before :
      (j i : K) (v : V) (m : BTreeMap K V)
      → o.cmp j i ≡ lt
      → Above i m
      → lookup j ((i, v) ∷ m) ≡ none
  unfolding lookup
  lookup_before j i v m h a = rw (lookup, h) (lookup-Above j m (Above-trans j i m h a))

  -- Maps with the same entries are the same.
  pub lookup-ext :
      (m n : BTreeMap K V) → IsSorted m → IsSorted n → ((k : K) → lookup k m ≡ lookup k n) → m ≡ n
  unfolding lookup
  lookup-ext [] [] s t h = refl
  lookup-ext [] ((i, w) ∷ n) s t h = absurd (let e = h i ∙ lookup_head i w n in ground (arith, e))
  lookup-ext ((j, v) ∷ m) [] s t h =
      absurd (let e = sym (h j) ∙ lookup_head j v m in ground (arith, e))
  lookup-ext ((j, v) ∷ m) ((i, w) ∷ n) s t h = elim (order j i) [
    | inl before ↦
        let e = sym (lookup_head j v m) ∙ h j ∙ lookup_before j i w n before t.0 in
        absurd (ground (arith, e))
    | inr (inl after) ↦
        let e = sym (lookup_head i w n) ∙ sym (h i) ∙ lookup_before i j v m after s.0 in
        absurd (ground (arith, e))
    | inr (inr same) ↦
        let tails = lookup-ext m n s.1 t.1 (λ k. behind k j i v w m n same s.0 t.0 (h k)) in
        ap (λ e. e ∷ m) (heads j i v w m n same (h j)) ∙ ap (λ l. (i, w) ∷ l) tails
  ]
