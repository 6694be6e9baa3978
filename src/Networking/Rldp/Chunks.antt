-- ===== src/Networking/Rldp/Chunks.antt =====
-- The chunks that a receiver holds, and the payload that all of them make up.
use Prim.Native.Nat.{compare}
use Prim.Native.Nat.Ordering.{lt}
use native.Mathlib.Nat.{zero-add, mul_comm, div-add-mod, mod-lt}
use the_open_network_x.Prelude.{
  ℕ, zero, suc, ◌+◌, ◌-◌, ◌*◌, ◌/◌, ◌≤◌, ◌<◌, ◌≡◌, ◌≢◌, refl, sym, ap, ◌∙◌, ◌++◌, append_assoc,
  append-nil, none, some, List, [], ◌∷◌, All, All-imp, subst, ◌==◌, ==→eq, ==→ne, length,
  length-take, length-drop, take, drop, take-append_at, take-append-drop, drop-drop, ok, ltb, arith,
  Bool-cases, inl, inr,
}
use the_open_network_x.Prelude.Ord.{nat_ord}
use the_open_network_x.Prelude.BTreeMap.{lookup}
use the_open_network_x.Prelude.BTreeMap.Sorted.{Above, Above-trans, IsSorted, lookup-Above}
use the_open_network_x.Primitives.Error.{Bytes}
use the_open_network_x.Primitives.Hash.{zeros}
use the_open_network_x.Networking.Rldp.Frame.{ceil_div}
use the_open_network_x.Networking.Rldp.Sender.{chunk_at}
use the_open_network_x.Networking.Rldp.Receiver.{Chunks, join}

-- A payload cut into a number of chunks.
abbrev pub pieces : ℕ → ℕ → Bytes → Bytes
pieces size zero rest = []
pieces size (suc n) rest =
    (take size rest ++ zeros (size - length (take size rest))) ++ pieces size n (drop size rest)

nothing_left : {A : Type 0} (xs : List A) → length xs ≡ 0 → xs ≡ []
nothing_left [] h = refl
nothing_left (x ∷ xs) h = absurd (omega (arith, h))

take_all : {A : Type 0} (n : ℕ) (xs : List A) → length xs ≤ n → take n xs ≡ xs
take_all zero xs h = sym (nothing_left xs (omega (arith, h)))
take_all (suc n) [] h = refl
take_all (suc n) (x ∷ xs) h = ap (λ l. x ∷ l) (take_all n xs (omega (arith, h)))

take-append_more :
    {A : Type 0} (k : ℕ) (xs ys : List A) → take (length xs + k) (xs ++ ys) ≡ xs ++ take k ys
take-append_more k [] ys = ap (λ i. take i ys) (zero-add k)
take-append_more k (x ∷ xs) ys =
    let longer : suc (length xs) + k ≡ suc (length xs + k) = omega arith in
    ap (λ i. take i (x ∷ (xs ++ ys))) longer ∙ ap (λ l. x ∷ l) (take-append_more k xs ys)

-- Cut to its length, the chunks are the payload.
pub take-pieces :
    (size n : ℕ) (rest : Bytes)
    → length rest ≤ n * size
    → take (length rest) (pieces size n rest) ≡ rest
take-pieces size zero rest h = rw (nothing_left rest (omega (arith, h))) refl
take-pieces size (suc n) rest h = elim (Bool-cases (ltb (length rest) size)) [
  | inl short ↦
      let whole : take size rest ≡ rest = take_all size rest (ground (arith, short)) in
      let pad = zeros (size - length rest) in
      rw (whole, append_assoc rest pad (pieces size n (drop size rest)))
        (take-append_at (length rest) rest (pad ++ pieces size n (drop size rest)) refl)
  | inr long ↦
      let enough : size ≤ length rest = ground (arith, long) in
      let head : length (take size rest) ≡ size = omega (arith, length-take size rest, enough) in
      let no_pad : size - size ≡ 0 = omega arith in
      let behind = drop size rest in
      let product : suc n * size ≡ size + n * size = grind arith in
      let left : length rest ≡ length (take size rest) + length behind =
        omega (arith, head, length-drop size rest, enough) in
      let fits : length behind ≤ n * size = omega (arith, length-drop size rest, h, product) in
      let padded : zeros (size - length (take size rest)) ≡ [] = rw (head, no_pad) refl in
      rw (padded, append-nil (take size rest), left)
        (take-append_more (length behind) (take size rest) (pieces size n behind)
          ∙ ap (λ l. take size rest ++ l) (take-pieces size n behind fits)
          ∙ take-append-drop size rest)
]

-- Enough chunks for a payload.
pub ceil_div-covers : (n d : ℕ) → 1 ≤ d → n ≤ ceil_div n d * d
unfolding ceil_div
ceil_div-covers n d positive =
    let x = n + (d - 1) in
    omega (arith, mul_comm (x / d) d, div-add-mod x d, mod-lt x positive, positive)

lookup_first : (seq k : ℕ) (v : Bytes) (m : Chunks) → seq ≡ k → lookup seq ((k, v) ∷ m) ≡ some v
unfolding lookup
lookup_first seq k v m e = ground (arith, e)

lookup_later :
    (seq k : ℕ) (v : Bytes) (m : Chunks) → seq ≢ k → lookup seq ((k, v) ∷ m) ≡ lookup seq m
unfolding lookup
lookup_later seq k v m ne = ground (arith, ne)

-- Every chunk that is held is that of its number in the payload.
module _ (payload : Bytes) (size : ℕ) where
  abbrev pub IsChunk : ℕ → ℕ × Bytes → Type 0
  IsChunk count entry = (entry.0 < count) × (entry.1 ≡ chunk_at payload size entry.0)

  abbrev pub AtLeast : ℕ → ℕ × Bytes → Type 0
  AtLeast a entry = a ≤ entry.0

  Above-AtLeast : (k : ℕ) (m : Chunks) → Above k m → All (AtLeast (suc k)) m
  Above-AtLeast k [] h = tt
  Above-AtLeast k ((j, v) ∷ m) h = (ground (arith, h.0), Above-AtLeast k m h.1)

  pub length_bound :
      (a count : ℕ) (m : Chunks)
      → IsSorted m
      → All (AtLeast a) m
      → All (IsChunk count) m
      → length m ≤ count - a
  length_bound a count [] s l c = omega arith
  length_bound a count ((k, v) ∷ m) s l c =
      let rest = length_bound (suc k) count m s.1 (Above-AtLeast k m s.0) c.1 in
      let least = l.0 in let below = c.0.0 in omega (arith, rest, least, below)

  -- As many chunks as there are numbers are all of them.
  pub lookup-full :
      (n a : ℕ) (m : Chunks)
      → IsSorted m
      → All (AtLeast a) m
      → All (IsChunk (a + n)) m
      → length m ≡ n
      → (seq : ℕ) → a ≤ seq
      → seq < a + n
      → lookup seq m ≡ some (chunk_at payload size seq)
  unfolding lookup
  lookup-full n a [] s l c full seq above below = absurd (omega (arith, full, above, below))
  lookup-full zero a ((k, v) ∷ m) s l c full seq above below = absurd (omega (arith, full))
  lookup-full (suc n) a ((k, v) ∷ m) s l c full seq above below =
      let least = Above-AtLeast k m s.0 in
      let bound = length_bound (suc k) (a + suc n) m s.1 least c.1 in
      let first : k ≡ a = let at_least = l.0 in omega (arith, bound, full, at_least) in
      let later : All (AtLeast (suc a)) m =
        All-imp (λ e h. let below_k = h in omega (arith, below_k, first)) m least in
      let shifted : a + suc n ≡ suc a + n = omega arith in
      elim (Bool-cases (seq == a)) [
        | inl here ↦
            let at : seq ≡ k = ==→eq seq a here ∙ sym first in
            lookup_first seq k v m at ∙ ap some (c.0.1 ∙ ap (chunk_at payload size) (sym at))
        | inr behind ↦
            let rest =
              lookup-full n (suc a) m s.1 later (subst (λ b. All (IsChunk b) m) shifted c.1)
                (omega (arith, full)) seq (ground (arith, above, behind)) (omega (arith, below)) in
            lookup_later seq k v m (λ e. ==→ne seq a behind (e ∙ first)) ∙ rest
      ]

  pub join-full :
      (n a : ℕ) (m : Chunks)
      → ((seq : ℕ) → a ≤ seq → seq < a + n → lookup seq m ≡ some (chunk_at payload size seq))
      → join n a m ≡ ok (pieces size n (drop (a * size) payload))
  unfolding join chunk_at
  join-full zero a m all = refl
  join-full (suc n) a m all =
      let first = all a (omega arith) (omega arith) in
      let rest =
        join-full n (a + 1) m
          (λ seq above below. all seq (omega (arith, above)) (omega (arith, below))) in
      let next : (a + 1) * size ≡ a * size + size = grind arith in
      let behind : drop ((a + 1) * size) payload ≡ drop size (drop (a * size) payload) =
        ap (λ i. drop i payload) next ∙ sym (drop-drop size (a * size) payload) in
      rw (join, first, rest, behind) refl

  -- Where every number is held, there are as many chunks as numbers.
  pub full-length :
      (n a : ℕ) (m : Chunks)
      → IsSorted m
      → All (AtLeast a) m
      → ((seq : ℕ) → a ≤ seq → seq < a + n → lookup seq m ≢ none)
      → n ≤ length m
  unfolding lookup
  full-length zero a m s l all = omega arith
  full-length (suc n) a [] s l all = absurd (all a (omega arith) (omega arith) refl)
  full-length (suc n) a ((k, v) ∷ m) s l all = elim (Bool-cases (a == k)) [
    | inl here ↦
        let first : a ≡ k = ==→eq a k here in
        let least = Above-AtLeast k m s.0 in
        let later : All (AtLeast (suc a)) m =
          All-imp (λ e h. let below_k = h in omega (arith, below_k, first)) m least in
        let rest = full-length n (suc a) m s.1 later (λ seq above below missing.
          all seq (omega (arith, above)) (omega (arith, below))
            (lookup_later seq k v m (λ e. omega (arith, e, above, first)) ∙ missing)) in
        omega (arith, rest)
    | inr apart ↦
        let least = l.0 in
        let before : compare a k ≡ lt = ground (arith, least, apart) in
        absurd (
          all a (omega arith) (omega arith)
            (lookup-Above a ((k, v) ∷ m) (before, Above-trans a k m before s.0)))
  ]
