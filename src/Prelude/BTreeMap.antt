-- ===== src/Prelude/BTreeMap.antt =====
-- `BTreeMap<K, V>` of the standard library, as its entries in the order of their keys. A
-- `BTreeSet<K>` is the map with values of type `Unit`.
pub mod Sorted
pub mod Extend
use Prim.Native.Nat.{suc}
use Prim.Native.Nat.Ordering.{lt, eq, gt}
use mathlib.Core.Path.{◌≡◌, refl}
use mathlib.Core.Logic.{◌≢◌}
use mathlib.Core.Bool.{Bool, true, false}
use mathlib.Core.Option.{Option, none, some}
use mathlib.Core.List.{List, [], ◌∷◌}
use native.Mathlib.Omega.{arith}
use the_open_network_x.Prelude.Lists.{length}
use the_open_network_x.Prelude.Ord.{Ord}

abbrev pub BTreeMap : Type 0 → Type 0 → Type 0
BTreeMap K V = List (K × V)

module _ {K V : Type 0} ⦃o : Ord K⦄ where
  unfoldable pub lookup : K → BTreeMap K V → Option V
  lookup k [] = none
  lookup k ((j, v) ∷ m) = elim (o.cmp k j) [ eq ↦ some v | _ ↦ lookup k m ]

  unfoldable pub insert : K → V → BTreeMap K V → BTreeMap K V
  insert k v [] = (k, v) ∷ []
  insert k v ((j, w) ∷ m) = elim (o.cmp k j) [
    | lt ↦ (k, v) ∷ (j, w) ∷ m
    | eq ↦ (k, v) ∷ m
    | gt ↦ (j, w) ∷ insert k v m
  ]

  unfoldable pub remove : K → BTreeMap K V → BTreeMap K V
  remove k [] = []
  remove k ((j, w) ∷ m) = elim (o.cmp k j) [ eq ↦ remove k m | _ ↦ (j, w) ∷ remove k m ]

  unfoldable pub contains_key : K → BTreeMap K V → Bool
  unfolding lookup
  contains_key k m = elim (lookup k m) [ none ↦ false | some v ↦ true ]

  pub lookup-insert_self : (k : K) (v : V) (m : BTreeMap K V) → lookup k (insert k v m) ≡ some v
  unfolding lookup insert
  lookup-insert_self k v [] = ground (arith, o.cmp_self k)
  lookup-insert_self k v ((j, w) ∷ m) = ground (arith, o.cmp_self k, lookup-insert_self k v m)

  pub lookup-insert_ne :
      (j k : K) (v : V) (m : BTreeMap K V) → j ≢ k → lookup j (insert k v m) ≡ lookup j m
  unfolding lookup insert
  lookup-insert_ne j k v [] n = ground (arith, o.cmp_eq j k)
  lookup-insert_ne j k v ((i, w) ∷ m) n =
      ground (arith, o.cmp_eq j k, o.cmp_eq k i, lookup-insert_ne j k v m)

  pub lookup-remove_self : (k : K) (m : BTreeMap K V) → lookup k (remove k m) ≡ none
  unfolding lookup remove
  lookup-remove_self k [] = refl
  lookup-remove_self k ((j, w) ∷ m) = ground (arith, lookup-remove_self k m)

  pub lookup-remove_ne : (j k : K) (m : BTreeMap K V) → j ≢ k → lookup j (remove k m) ≡ lookup j m
  unfolding lookup remove
  lookup-remove_ne j k [] n = refl
  lookup-remove_ne j k ((i, w) ∷ m) n =
      ground (arith, o.cmp_eq j i, o.cmp_eq k i, lookup-remove_ne j k m)

  -- A new key makes the map one longer.
  pub length-insert_new :
      (k : K) (v : V) (m : BTreeMap K V)
      → lookup k m ≡ none
      → length (insert k v m) ≡ suc (length m)
  unfolding lookup insert
  length-insert_new k v [] h = refl
  length-insert_new k v ((j, w) ∷ m) h = ground (arith, length-insert_new k v m)

module _ {K V : Type 0} ⦃o : Ord K⦄ where
  pub insert-insert_self :
      (k : K) (v w : V) (m : BTreeMap K V) → insert k v (insert k w m) ≡ insert k v m
  unfolding insert
  insert-insert_self k v w [] = ground (arith, o.cmp_self k)
  insert-insert_self k v w ((j, u) ∷ m) = ground (arith, o.cmp_self k, insert-insert_self k v w m)
