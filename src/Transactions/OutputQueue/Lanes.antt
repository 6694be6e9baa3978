-- ===== src/Transactions/OutputQueue/Lanes.antt =====
-- The queue as a function from keys to lanes, and the invariant of its lanes.
use the_open_network_x.Prelude.{
  ◌≤◌, ◌<◌, ◌≡◌, ◌≢◌, refl, subst, false, none, some, [], ◌∷◌, ◌++◌, last, All, All-append, All-imp,
  ok, err, arith, leb, Bool-cases, Option-cases, ◌⊎◌, inl, inr,
}
use the_open_network_x.Prelude.BTreeMap.{
  lookup, insert, lookup-insert_self, lookup-insert_ne, lookup-remove_self, lookup-remove_ne,
}
use the_open_network_x.Prelude.BTreeMap.Sorted.{
  IsSorted, insert-IsSorted, remove-IsSorted, All-insert, All-remove, All-lookup,
}
use the_open_network_x.DataStructures.Message.{Message}
use the_open_network_x.Transactions.Error.{logical_time_regression}
use the_open_network_x.Transactions.OutputQueue.{
  Lane, LaneKey, lane_ord, key_of, OutputQueue, lane_of, enqueue, put_back,
}

-- Each logical time is below all that follow.
abbrev pub IsRising : Lane → Type 0
IsRising [] = Unit {0}
IsRising (m ∷ lane) = All (λ x. m.created_lt < x.created_lt) lane × IsRising lane

abbrev pub IsLane : LaneKey × Lane → Type 0
IsLane (key, lane) = (lane ≢ []) × IsRising lane × All (λ m. key_of m ≡ key) lane

-- The keys ascend, no lane is empty, each lane is in the order of logical time and holds messages of its
-- key only.
pub record IsQueue (q : OutputQueue) : Type 0 where
  pub sorted : IsSorted q
  pub lanes : All IsLane q

pub lane_facts :
    (q : OutputQueue) (key : LaneKey)
    → IsQueue q
    → IsRising (lane_of key q) × All (λ m. key_of m ≡ key) (lane_of key q)
unfolding lane_of
lane_facts q key v = elim (Option-cases (lookup key q)) [
  | inl out ↦ let is : lane_of key q ≡ [] = rw (lane_of, out) refl in rw is (tt, tt)
  | inr (lane, found) ↦
      let (_, rising, own) = All-lookup IsLane key q v.lanes found in
      let is : lane_of key q ≡ lane = rw (lane_of, found) refl in rw is (rising, own)
]

pub lane_of-insert_self :
    (key : LaneKey) (lane : Lane) (q : OutputQueue) → lane_of key (insert key lane q) ≡ lane
unfolding lane_of
lane_of-insert_self key lane q = rw (lane_of, lookup-insert_self key lane q) refl

pub lane_of-insert_ne :
    (j key : LaneKey) (lane : Lane) (q : OutputQueue)
    → j ≢ key
    → lane_of j (insert key lane q) ≡ lane_of j q
unfolding lane_of
lane_of-insert_ne j key lane q n = rw (lane_of, lookup-insert_ne j key lane q n) refl

pub lane_of-put_back :
    (key : LaneKey) (lane : Lane) (q : OutputQueue) → lane_of key (put_back key lane q) ≡ lane
unfolding put_back lane_of
lane_of-put_back key [] q = rw (lane_of, lookup-remove_self key q) refl
lane_of-put_back key (m ∷ lane) q = rw (lane_of, lookup-insert_self key (m ∷ lane) q) refl

pub lane_of-put_back_ne :
    (j key : LaneKey) (lane : Lane) (q : OutputQueue)
    → j ≢ key
    → lane_of j (put_back key lane q) ≡ lane_of j q
unfolding put_back lane_of
lane_of-put_back_ne j key [] q n = rw (lane_of, lookup-remove_ne j key q n) refl
lane_of-put_back_ne j key (m ∷ lane) q n = rw (lane_of, lookup-insert_ne j key (m ∷ lane) q n) refl

pub put_back-IsQueue :
    (key : LaneKey) (lane : Lane) (q : OutputQueue)
    → IsQueue q
    → IsRising lane
    → All (λ m. key_of m ≡ key) lane
    → IsQueue (put_back key lane q)
unfolding put_back
put_back-IsQueue key [] q v r o = record {
  sorted = remove-IsSorted key q v.sorted;
  lanes = All-remove IsLane key q v.lanes;
}
put_back-IsQueue key (m ∷ lane) q v r o = record {
  sorted = insert-IsSorted key (m ∷ lane) q v.sorted;
  lanes = All-insert IsLane key (m ∷ lane) q (λ h. absurd (ground arith), r, o) v.lanes;
}

rising_last :
    (lane : Lane) (back : Message)
    → IsRising lane
    → last lane ≡ some back
    → All (λ x. x.created_lt ≤ back.created_lt) lane
rising_last [] back r h = tt
rising_last (m ∷ []) back r h =
    let m_is : m ≡ back = ground arith in
    (subst (λ x. m.created_lt ≤ x.created_lt) m_is (omega arith), tt)
rising_last (m ∷ n ∷ lane) back r h =
    let later = rising_last (n ∷ lane) back r.1 h in (omega (arith, r.0.0, later.0), later)

IsRising-snoc :
    (lane : Lane) (m : Message)
    → IsRising lane
    → All (λ x. x.created_lt < m.created_lt) lane
    → IsRising (lane ++ m ∷ [])
IsRising-snoc [] m r a = (tt, tt)
IsRising-snoc (x ∷ lane) m r a = (
  All-append (λ y. x.created_lt < y.created_lt) lane (m ∷ []) r.0 (a.0, tt),
  IsRising-snoc lane m r.1 a.1,
)

-- What follows the last entry of a lane keeps it rising.
pub IsRising-push :
    (lane : Lane) (m : Message)
    → IsRising lane
    → ((back : Message) → last lane ≡ some back → back.created_lt < m.created_lt)
    → IsRising (lane ++ m ∷ [])
IsRising-push [] m r h = (tt, tt)
IsRising-push (x ∷ lane) m r h = elim (Option-cases (last (x ∷ lane))) [
  | inl out ↦ absurd (never x lane out)
  | inr (back, found) ↦
      let bound = rising_last (x ∷ lane) back r found in
      IsRising-snoc (x ∷ lane) m r (
        All-imp {P = λ y. y.created_lt ≤ back.created_lt} {Q = λ y. y.created_lt < m.created_lt}
          (λ y le. omega (arith, le, h back found)) (x ∷ lane) bound)
]
  where
    never : (x : Message) (lane : Lane) → last (x ∷ lane) ≡ none → ⊥
    never x [] h = absurd (ground arith)
    never x (y ∷ lane) h = never y lane h

append-nonempty : (lane : Lane) (m : Message) → lane ++ m ∷ [] ≢ []
append-nonempty [] m h = absurd (ground arith)
append-nonempty (x ∷ lane) m h = absurd (ground arith)

pub push-IsQueue :
    (q : OutputQueue) (m : Message)
    → IsQueue q
    → ((back : Message) → last (lane_of (key_of m) q) ≡ some back → back.created_lt < m.created_lt)
    → IsQueue (insert (key_of m) (lane_of (key_of m) q ++ m ∷ []) q)
push-IsQueue q m v h =
    let lane = lane_of (key_of m) q in
    let (rising, own) = lane_facts q (key_of m) v in
    record {
      sorted = insert-IsSorted (key_of m) (lane ++ m ∷ []) q v.sorted;
      lanes =
          All-insert IsLane (key_of m) (lane ++ m ∷ []) q
            (
              append-nonempty lane m,
              IsRising-push lane m rising h,
              All-append (λ x. key_of x ≡ key_of m) lane (m ∷ []) own (refl, tt),
            )
            v.lanes;
    }

-- An accepted message goes to the end of its lane and no other lane changes; a message is refused exactly
-- when its logical time is not above that of the last one in its lane. The queue stays well-formed.
pub enqueue_lem :
    (q : OutputQueue) (m : Message)
    → IsQueue q
    → ((q' : OutputQueue) × (enqueue q m ≡ ok q')
        × IsQueue q'
        × (lane_of (key_of m) q' ≡ lane_of (key_of m) q ++ m ∷ [])
        × ((key : LaneKey) → key ≢ key_of m → lane_of key q' ≡ lane_of key q))
      ⊎ ((back : Message) × (last (lane_of (key_of m) q) ≡ some back)
          × (m.created_lt ≤ back.created_lt)
          × (enqueue q m ≡ err (logical_time_regression back.created_lt m.created_lt)))
unfolding enqueue
enqueue_lem q m v =
    let pushed = lane_of (key_of m) q ++ m ∷ [] in
    let same_lane = lane_of-insert_self (key_of m) pushed q in
    let others : (key : LaneKey)
        → key ≢ key_of m
        → lane_of key (insert (key_of m) pushed q) ≡ lane_of key q =
      λ key n. lane_of-insert_ne key (key_of m) pushed q n in
    elim (Option-cases (last (lane_of (key_of m) q))) [
      | inl new ↦ inl (
        insert (key_of m) pushed q,
        rw (enqueue, new) refl,
        push-IsQueue q m v (λ back h. absurd (ground arith)),
        same_lane,
        others,
      )
      | inr (back, found) ↦ elim (Bool-cases (leb m.created_lt back.created_lt)) [
        | inl late ↦ inr (back, found, ground arith, rw (enqueue, found, late) refl)
        | inr next ↦ inl (
          insert (key_of m) pushed q,
          rw (enqueue, found, next) refl,
          push-IsQueue q m v (λ b h. newer b back h found next),
          same_lane,
          others,
        )
      ]
    ]
  where
    newer :
        (b back : Message)
        → last (lane_of (key_of m) q) ≡ some b
        → last (lane_of (key_of m) q) ≡ some back
        → leb m.created_lt back.created_lt ≡ false
        → b.created_lt < m.created_lt
    newer b back h found next =
        let b_is : back ≡ b = ground arith in
        subst (λ x. x.created_lt < m.created_lt) b_is (ground arith)
