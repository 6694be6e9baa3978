-- ===== src/Networking/Rldp/Store.antt =====
-- A chunk that is stored stays, and stays what it was.
use the_open_network_x.Prelude.{
  ℕ, ◌≡◌, ◌≢◌, refl, sym, ap, subst, ◌∙◌, inl, inr, Option, none, some, Option-cases, All, ◌==◌,
  ==→eq, ==→ne, arith, Bool-cases,
}
use the_open_network_x.Prelude.Ord.{nat_ord, bytes_ord}
use the_open_network_x.Prelude.BTreeMap.{lookup, insert, lookup-insert_self, lookup-insert_ne}
use the_open_network_x.Prelude.BTreeMap.Sorted.{IsSorted, insert-IsSorted, All-insert}
use the_open_network_x.Primitives.Error.{Bytes}
use the_open_network_x.Networking.Rldp.Receiver.{Chunks, or_insert}

or_insert_new :
    (seq : ℕ) (chunk : Bytes) (m : Chunks)
    → lookup seq m ≡ none
    → or_insert seq chunk m ≡ insert seq chunk m
unfolding or_insert
or_insert_new seq chunk m absent = rw (or_insert, absent) refl

or_insert_old :
    (seq : ℕ) (chunk old : Bytes) (m : Chunks) → lookup seq m ≡ some old → or_insert seq chunk m ≡ m
unfolding or_insert
or_insert_old seq chunk old m found = rw (or_insert, found) refl

pub or_insert-IsSorted :
    (seq : ℕ) (chunk : Bytes) (m : Chunks) → IsSorted m → IsSorted (or_insert seq chunk m)
or_insert-IsSorted seq chunk m s = elim (Option-cases (lookup seq m)) [
  | inl absent ↦
      subst IsSorted (sym (or_insert_new seq chunk m absent)) (insert-IsSorted seq chunk m s)
  | inr (old, found) ↦ subst IsSorted (sym (or_insert_old seq chunk old m found)) s
]

pub All-or_insert :
    (P : ℕ × Bytes → Type 0) (seq : ℕ) (chunk : Bytes) (m : Chunks)
    → P (seq, chunk)
    → All P m
    → All P (or_insert seq chunk m)
All-or_insert P seq chunk m p a = elim (Option-cases (lookup seq m)) [
  | inl absent ↦
      subst (All P) (sym (or_insert_new seq chunk m absent)) (All-insert P seq chunk m p a)
  | inr (old, found) ↦ subst (All P) (sym (or_insert_old seq chunk old m found)) a
]

some_not_none : {A : Type 0} (o : Option A) (a : A) → o ≡ some a → o ≢ none
some_not_none o a e = ground (arith, e)

pub lookup-or_insert_self :
    (seq : ℕ) (chunk : Bytes) (m : Chunks) → lookup seq (or_insert seq chunk m) ≢ none
lookup-or_insert_self seq chunk m = elim (Option-cases (lookup seq m)) [
  | inl absent ↦
      some_not_none (lookup seq (or_insert seq chunk m)) chunk
        (ap (lookup seq) (or_insert_new seq chunk m absent) ∙ lookup-insert_self seq chunk m)
  | inr (old, found) ↦
      some_not_none (lookup seq (or_insert seq chunk m)) old
        (ap (lookup seq) (or_insert_old seq chunk old m found) ∙ found)
]

pub lookup-or_insert :
    (j seq : ℕ) (chunk : Bytes) (m : Chunks)
    → lookup j m ≢ none
    → lookup j (or_insert seq chunk m) ≢ none
lookup-or_insert j seq chunk m h = elim (Bool-cases (j == seq)) [
  | inl here ↦
      subst (λ i. lookup i (or_insert seq chunk m) ≢ none) (sym (==→eq j seq here))
        (lookup-or_insert_self seq chunk m)
  | inr apart ↦ elim (Option-cases (lookup seq m)) [
    | inl absent ↦ λ missing. h (
        sym (
          ap (lookup j) (or_insert_new seq chunk m absent)
          ∙ lookup-insert_ne j seq chunk m (==→ne j seq apart))
        ∙ missing)
    | inr (old, found) ↦
        λ missing. h (sym (ap (lookup j) (or_insert_old seq chunk old m found)) ∙ missing)
  ]
]
