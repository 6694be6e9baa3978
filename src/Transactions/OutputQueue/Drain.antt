-- ===== src/Transactions/OutputQueue/Drain.antt =====
-- Emptying a queue: its order of delivery is one that `validate_delivery_order` accepts.
use the_open_network_x.Prelude.{
  ℕ, zero, suc, ◌<◌, ◌≡◌, ◌≢◌, refl, sym, subst, ap, ◌∙◌, false, none, some, List, [], ◌∷◌, All, ok,
  err, arith, leb, Bool-cases, Option-cases, inl, inr,
}
use the_open_network_x.Prelude.Ord.{same, same→eq, same_refl}
use the_open_network_x.Prelude.BTreeMap.{
  BTreeMap, lookup, insert, lookup-insert_self, lookup-insert_ne,
}
use the_open_network_x.DataStructures.Message.{Message}
use the_open_network_x.Transactions.OutputQueue.{
  LaneKey, lane_ord, key_of, OutputQueue, empty, lane_of, enqueue, pop_next, validate_from,
  validate_delivery_order,
}
use the_open_network_x.Transactions.OutputQueue.Lanes.{IsRising, IsQueue, lane_facts, enqueue_lem}
use the_open_network_x.Transactions.OutputQueue.Order.{Delivers, pop_next_lem}

-- The first n deliveries.
unfoldable pub drain : ℕ → OutputQueue → List Message
drain zero q = []
drain (suc n) q = elim (pop_next q).1 [ none ↦ [] | some m ↦ m ∷ drain n (pop_next q).0 ]

-- The logical time noted for a pair is below all that its lane still holds.
abbrev IsBefore : BTreeMap LaneKey ℕ → OutputQueue → Type 0
IsBefore noted q =
    (key : LaneKey) (lt : ℕ)
    → lookup key noted ≡ some lt
    → All (λ x. lt < x.created_lt) (lane_of key q)

IsBefore-delivered :
    (noted : BTreeMap LaneKey ℕ) (q : OutputQueue) (m : Message) (q' : OutputQueue)
    → IsQueue q
    → Delivers q m q'
    → IsBefore noted q
    → IsBefore (insert (key_of m) m.created_lt noted) q'
IsBefore-delivered noted q m q' v (v', mine, others, later) before key lt h =
    elim (Bool-cases (same key (key_of m))) [
      | inl hit ↦
          let key_is : key ≡ key_of m = same→eq key (key_of m) hit in
          let lt_is : m.created_lt ≡ lt = noted_now key_is in
          let rising : IsRising (m ∷ lane_of (key_of m) q') =
            rw mine at ((lane_facts q (key_of m) v).0) in
          subst (λ n. All (λ x. n < x.created_lt) (lane_of key q')) lt_is
            (subst (λ k. All (λ x. m.created_lt < x.created_lt) (lane_of k q')) (sym key_is)
              rising.0)
      | inr miss ↦
          let ne : key ≢ key_of m = λ e. absurd (differ e miss) in
          let h' : lookup key noted ≡ some lt =
            sym (lookup-insert_ne key (key_of m) m.created_lt noted ne) ∙ h in
          subst (All (λ x. lt < x.created_lt)) (sym (others key ne)) (before key lt h')
    ]
  where
    noted_now : key ≡ key_of m → m.created_lt ≡ lt
    noted_now e =
        let h' : lookup (key_of m) (insert (key_of m) m.created_lt noted) ≡ some lt = rw e at h in
        let k = lookup-insert_self (key_of m) m.created_lt noted in ground arith

    differ : key ≡ key_of m → same key (key_of m) ≡ false → ⊥
    differ e miss = let self = same_refl (key_of m) in let miss' = rw e at miss in ground arith

validate-nil : (noted : BTreeMap LaneKey ℕ) → validate_from noted [] ≡ ok tt
unfolding validate_from
validate-nil noted = refl

validate-step :
    (noted : BTreeMap LaneKey ℕ) (m : Message) (ms : List Message)
    → ((lt : ℕ) → lookup (key_of m) noted ≡ some lt → lt < m.created_lt)
    → validate_from (insert (key_of m) m.created_lt noted) ms ≡ ok tt
    → validate_from noted (m ∷ ms) ≡ ok tt
unfolding validate_from
validate-step noted m ms h rest = elim (Option-cases (lookup (key_of m) noted)) [
  | inl new ↦ rw (validate_from, new) rest
  | inr (lt, found) ↦
      let newer : leb m.created_lt lt ≡ false = let below = h lt found in ground arith in
      rw (validate_from, found, newer) rest
]

drain-validate_from :
    (n : ℕ) (q : OutputQueue) (noted : BTreeMap LaneKey ℕ)
    → IsQueue q
    → IsBefore noted q
    → validate_from noted (drain n q) ≡ ok tt
unfolding drain
drain-validate_from zero q noted v before = validate-nil noted
drain-validate_from (suc n) q noted v before = elim (pop_next_lem q v) [
  | inl (_, stays) ↦ rw (drain, stays) (validate-nil noted)
  | inr (m, q', popped, d) ↦
      let next : (pop_next q).0 ≡ q' = ap (λ p. p.0) popped in
      let now : (pop_next q).1 ≡ some m = ap (λ p. p.1) popped in
      rw (drain, now, next)
        (validate-step noted m (drain n q')
          (λ lt h. let a = rw d.1 at (before (key_of m) lt h) in a.0)
          (drain-validate_from n q' (insert (key_of m) m.created_lt noted) d.0
            (IsBefore-delivered noted q m q' v d before)))
]

pub data Call : Type 0 where
  push : Message → Call
  pop : Call

-- A message that is refused leaves the queue as it was.
unfoldable pub run : OutputQueue → List Call → OutputQueue
run q [] = q
run q (push m ∷ calls) = run (elim (enqueue q m) [ ok q' ↦ q' | err x ↦ q ]) calls
run q (pop ∷ calls) = run (pop_next q).0 calls

run-IsQueue : (q : OutputQueue) (calls : List Call) → IsQueue q → IsQueue (run q calls)
unfolding run
run-IsQueue q [] v = v
run-IsQueue q (push m ∷ calls) v = elim (enqueue_lem q m v) [
  | inl (q', made, v', _, _) ↦ rw (run, made) (run-IsQueue q' calls v')
  | inr (back, _, _, refused) ↦ rw (run, refused) (run-IsQueue q calls v)
]
run-IsQueue q (pop ∷ calls) v = elim (pop_next_lem q v) [
  | inl (_, stays) ↦ rw (run, stays) (run-IsQueue q calls v)
  | inr (m, q', popped, d) ↦
      let next : (pop_next q).0 ≡ q' = ap (λ p. p.0) popped in
      rw (run, next) (run-IsQueue q' calls d.0)
]

-- Whatever has been enqueued and delivered before, what an output queue then delivers, up to any number of
-- messages, passes the check of a delivery order.
pub drain-validate :
    (calls : List Call) (n : ℕ) → validate_delivery_order (drain n (run empty calls)) ≡ ok tt
unfolding validate_delivery_order lookup
drain-validate calls n =
    drain-validate_from n (run empty calls) []
      (run-IsQueue empty calls (record { sorted = tt; lanes = tt }))
      (λ key lt h. absurd (nothing key lt h))
  where
    nothing : (key : LaneKey) (lt : ℕ) → lookup {V = ℕ} key [] ≡ some lt → ⊥
    nothing key lt h = ground arith
