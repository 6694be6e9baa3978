-- ===== src/Transactions/OutputQueue.antt =====
-- crates/protocol/onx-transactions/src/output_queue.rs. The queue is its map of lanes; a lane's key
-- are the fields of the two addresses, whose derived order is that of the fields.
pub mod Lanes
pub mod Order
pub mod Drain
use the_open_network_x.Prelude.{
  ℕ, ◌+◌, Bool, true, false, Option, none, some, List, [], ◌∷◌, ◌++◌, length, last, null, Result,
  ok, err, ◌>>=◌, ltb, leb, if◌then◌else◌,
}
use the_open_network_x.Prelude.Ord.{Ord, bytes_ord, pair_ord}
use the_open_network_x.Prelude.Int.{ℤ, int_ord}
use the_open_network_x.Prelude.BTreeMap.{BTreeMap, lookup, insert, remove}
use the_open_network_x.Prelude.Sort.{sum_of}
use the_open_network_x.Primitives.Error.{Bytes}
use the_open_network_x.DataStructures.Address.{FullAddress}
use the_open_network_x.DataStructures.Message.{Message}
use the_open_network_x.Transactions.Error.{
  TransactionsError, logical_time_regression, fifo_order_violation,
}

abbrev pub Lane : Type 0
Lane = List Message

abbrev pub LaneKey : Type 0
LaneKey = (ℤ × Bytes) × (ℤ × Bytes)

instance abbrev pub lane_ord : Ord LaneKey
lane_ord = pair_ord

abbrev pub key_of : Message → LaneKey
key_of message = (
  (message.src_address.workchain_id, message.src_address.account_id),
  (message.dest_address.workchain_id, message.dest_address.account_id),
)

abbrev pub OutputQueue : Type 0
OutputQueue = BTreeMap LaneKey Lane

abbrev pub empty : OutputQueue
empty = []

-- `entry(key).or_default()`
unfoldable pub lane_of : LaneKey → OutputQueue → Lane
lane_of key self = elim (lookup key self) [ none ↦ [] | some lane ↦ lane ]

-- The lane of an error is not empty, so `or_default` has added no entry.
unfoldable pub enqueue : OutputQueue → Message → Result TransactionsError OutputQueue
enqueue self message =
    let lane = lane_of (key_of message) self in
    elim (last lane) [
      | none ↦ ok (insert (key_of message) (lane ++ message ∷ []) self)
      | some back ↦
          if leb message.created_lt back.created_lt
          then err (logical_time_regression back.created_lt message.created_lt)
          else ok (insert (key_of message) (lane ++ message ∷ []) self)
    ]

-- The head of least logical time with its lane's key, the first one on a tie: `min_by_key`.
unfoldable pub least_head : OutputQueue → Option (LaneKey × Message)
least_head [] = none
least_head ((key, []) ∷ lanes) = least_head lanes
least_head ((key, message ∷ lane) ∷ lanes) = elim (least_head lanes) [
  | none ↦ some (key, message)
  | some other ↦
      if ltb other.1.created_lt message.created_lt then some other else some (key, message)
]

unfoldable pub peek_next : OutputQueue → Option Message
peek_next self = elim (least_head self) [ none ↦ none | some head ↦ some head.1 ]

-- What `pop_front` leaves goes back to the map, or the lane's entry goes when nothing is left.
unfoldable pub put_back : LaneKey → Lane → OutputQueue → OutputQueue
put_back key [] self = remove key self
put_back key (message ∷ lane) self = insert key (message ∷ lane) self

unfoldable pub pop_next : OutputQueue → OutputQueue × Option Message
pop_next self = elim (least_head self) [
  | none ↦ (self, none)
  | some head ↦ elim (lookup head.0 self) [
    | none ↦ (self, none)
    | some [] ↦ (remove head.0 self, none)
    | some (message ∷ lane) ↦ (put_back head.0 lane self, some message)
  ]
]

-- The loop of `validate_delivery_order`, with the last logical time of each pair.
unfoldable pub validate_from :
    BTreeMap LaneKey ℕ → List Message → Result TransactionsError (Unit {0})
validate_from last_lt [] = ok tt
validate_from last_lt (message ∷ sequence) =
    let rest = validate_from (insert (key_of message) message.created_lt last_lt) sequence in
    elim (lookup (key_of message) last_lt) [
      | none ↦ rest
      | some previous_lt ↦
          if leb message.created_lt previous_lt
          then err (fifo_order_violation previous_lt message.created_lt)
          else rest
    ]

unfoldable pub validate_delivery_order : List Message → Result TransactionsError (Unit {0})
validate_delivery_order sequence = validate_from [] sequence

unfoldable pub is_empty : OutputQueue → Bool
is_empty self = null self

unfoldable pub queue_length : OutputQueue → ℕ
queue_length self = sum_of (λ entry. length entry.1) self
