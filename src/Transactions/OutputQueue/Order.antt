-- ===== src/Transactions/OutputQueue/Order.antt =====
-- The order in which the queue delivers: least logical time first, first in first out in each lane.
use the_open_network_x.Prelude.{
  ℕ, ◌≤◌, ◌<◌, ◌≡◌, ◌≢◌, refl, sym, subst, ap, ◌∙◌, none, some, [], ◌∷◌, All, All-imp, arith, ltb,
  Bool-cases, Option-cases, inl, inr, ◌⊎◌,
}
use the_open_network_x.Prelude.Ord.{same, same→eq}
use the_open_network_x.Prelude.BTreeMap.{lookup}
use the_open_network_x.Prelude.BTreeMap.Sorted.{Above, IsSorted, lookup-Above, All-lookup}
use the_open_network_x.DataStructures.Message.{Message}
use the_open_network_x.Transactions.OutputQueue.{
  Lane, LaneKey, lane_ord, key_of, OutputQueue, lane_of, least_head, put_back, pop_next,
}
use the_open_network_x.Transactions.OutputQueue.Lanes.{
  IsRising, IsLane, IsQueue, lane_of-put_back, lane_of-put_back_ne, put_back-IsQueue,
}

-- Every message of the entry is at the given time or later.
abbrev IsLater : ℕ → LaneKey × Lane → Type 0
IsLater lt entry = All (λ x. lt ≤ x.created_lt) entry.1

lookup-below :
    (k j : LaneKey) (lane : Lane) (q : OutputQueue) {found : Lane}
    → Above j q
    → lookup k q ≡ some found
    → lookup k ((j, lane) ∷ q) ≡ some found
unfolding lookup
lookup-below k j lane q a h = elim (Bool-cases (same k j)) [
  | inl hit ↦
      let k_is : j ≡ k = sym (same→eq k j hit) in
      absurd (clash (lookup-Above k q (subst (λ x. Above x q) k_is a)))
  | inr miss ↦ ground arith
]
  where
    clash : lookup k q ≡ none → ⊥
    clash e = ground arith

lookup-front : (j : LaneKey) (lane : Lane) (q : OutputQueue) → lookup j ((j, lane) ∷ q) ≡ some lane
unfolding lookup
lookup-front j lane q = ground (arith, lane_ord.cmp_self j)

IsLater-weaken : (a b : ℕ) (q : OutputQueue) → a ≤ b → All (IsLater b) q → All (IsLater a) q
IsLater-weaken a b q le =
    All-imp {P = IsLater b} {Q = IsLater a}
      (λ entry.
        All-imp {P = λ x. b ≤ x.created_lt} {Q = λ x. a ≤ x.created_lt}
          (λ x h. omega (arith, le, h)) entry.1)
      q

front_later :
    (lt : ℕ) (x : Message) (lane : Lane)
    → lt ≤ x.created_lt
    → IsRising (x ∷ lane)
    → All (λ y. lt ≤ y.created_lt) (x ∷ lane)
front_later lt x lane le r = (
  le,
  All-imp {P = λ y. x.created_lt < y.created_lt} {Q = λ y. lt ≤ y.created_lt}
      (λ y h. omega (arith, le, h)) lane r.0,
)

-- The key and the head of one of the lanes, of least logical time.
abbrev IsHead : OutputQueue → LaneKey × Message → Type 0
IsHead q (key, m) =
    ((lane : Lane) × (lookup key q ≡ some (m ∷ lane))) × All (IsLater m.created_lt) q

least_head-none : (q : OutputQueue) → All IsLane q → least_head q ≡ none → q ≡ []
unfolding least_head
least_head-none [] v h = refl
least_head-none ((j, []) ∷ q) v h = absurd (v.0.0 refl)
least_head-none ((j, x ∷ lane) ∷ q) v h = absurd (ground arith)

least_head_lem :
    (q : OutputQueue) (head : LaneKey × Message)
    → IsSorted q
    → All IsLane q
    → least_head q ≡ some head
    → IsHead q head
unfolding least_head
least_head_lem [] head s v h = absurd (ground arith)
least_head_lem ((j, []) ∷ q) head s v h = absurd (v.0.0 refl)
least_head_lem ((j, x ∷ lane) ∷ q) head s v h = elim (Option-cases (least_head q)) [
  | inl out ↦
      let head_is : (j, x) ≡ head = ground arith in
      let rest : q ≡ [] = least_head-none q v.1 out in
      let none_else : All (IsLater x.created_lt) q = rw rest tt in
      subst (IsHead ((j, x ∷ lane) ∷ q)) head_is (
        (lane, lookup-front j (x ∷ lane) q),
        (front_later x.created_lt x lane (omega arith) v.0.1, none_else),
      )
  | inr (other, found) ↦
      let ((behind, at), later) = least_head_lem q other s.1 v.1 found in
      elim (Bool-cases (ltb other.1.created_lt x.created_lt)) [
        | inl sooner ↦
            let head_is : other ≡ head = ground arith in
            let lt : other.1.created_lt ≤ x.created_lt = ground arith in
            subst (IsHead ((j, x ∷ lane) ∷ q)) head_is (
              (behind, lookup-below other.0 j (x ∷ lane) q s.0 at),
              (front_later other.1.created_lt x lane lt v.0.1, later),
            )
        | inr here ↦
            let head_is : (j, x) ≡ head = ground arith in
            let lt : x.created_lt ≤ other.1.created_lt = ground arith in
            subst (IsHead ((j, x ∷ lane) ∷ q)) head_is (
              (lane, lookup-front j (x ∷ lane) q),
              (
                front_later x.created_lt x lane (omega arith) v.0.1,
                IsLater-weaken x.created_lt other.1.created_lt q lt later,
              ),
            )
      ]
]

-- What a delivery leaves: the message was the first of its lane, the rest of that lane and all others
-- stay, and no message that was queued has a smaller logical time.
abbrev pub Delivers : OutputQueue → Message → OutputQueue → Type 0
Delivers q m q' =
    IsQueue q'
    × (lane_of (key_of m) q ≡ m ∷ lane_of (key_of m) q')
    × ((key : LaneKey) → key ≢ key_of m → lane_of key q' ≡ lane_of key q)
    × ((key : LaneKey) → All (λ x. m.created_lt ≤ x.created_lt) (lane_of key q))

All-later :
    (lt : ℕ) (q : OutputQueue) (key : LaneKey)
    → All (IsLater lt) q
    → All (λ x. lt ≤ x.created_lt) (lane_of key q)
unfolding lane_of
All-later lt q key a = elim (Option-cases (lookup key q)) [
  | inl out ↦ let is : lane_of key q ≡ [] = rw (lane_of, out) refl in rw is tt
  | inr (lane, found) ↦
      let is : lane_of key q ≡ lane = rw (lane_of, found) refl in
      rw is (All-lookup (IsLater lt) key q a found)
]

delivered :
    (q : OutputQueue) (m : Message) (lane : Lane)
    → IsQueue q
    → lookup (key_of m) q ≡ some (m ∷ lane)
    → All (IsLater m.created_lt) q
    → Delivers q m (put_back (key_of m) lane q)
unfolding lane_of
delivered q m lane v found later =
    let (_, rising, own) = All-lookup IsLane (key_of m) q v.lanes found in
    let is : lane_of (key_of m) q ≡ m ∷ lane = rw (lane_of, found) refl in
    (
      put_back-IsQueue (key_of m) lane q v rising.1 own.1,
      is ∙ ap (◌∷◌ m) (sym (lane_of-put_back (key_of m) lane q)),
      λ key n. lane_of-put_back_ne key (key_of m) lane q n,
      λ key. All-later m.created_lt q key later,
    )

-- A queue that is not empty delivers the first message of some lane, one of least logical time among all
-- queued; an empty queue delivers nothing and stays.
pub pop_next_lem :
    (q : OutputQueue)
    → IsQueue q
    → ((q ≡ []) × (pop_next q ≡ (q, none)))
      ⊎ ((m : Message) × (q' : OutputQueue) × (pop_next q ≡ (q', some m)) × Delivers q m q')
unfolding pop_next
pop_next_lem q v = elim (Option-cases (least_head q)) [
  | inl out ↦ inl (least_head-none q v.lanes out, rw (pop_next, out) refl)
  | inr ((key, m), found) ↦
      let ((lane, at), later) = least_head_lem q (key, m) v.sorted v.lanes found in
      let key_is : key_of m ≡ key = (All-lookup IsLane key q v.lanes at).2.0 in
      let at_own : lookup (key_of m) q ≡ some (m ∷ lane) = rw key_is at in
      let popped : pop_next q ≡ (put_back (key_of m) lane q, some m) =
        rw (pop_next, found) (rw (at, key_is) refl) in
      inr (m, put_back (key_of m) lane q, popped, delivered q m lane v at_own later)
]
