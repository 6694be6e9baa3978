-- ===== src/Transactions/Examples.antt =====
-- The transaction theorems at concrete inputs.
use the_open_network_x.Prelude.{
  ℕ, ◌-◌, ◌*◌, ◌<◌, length, ◌≤◌, ◌≡◌, ◌≢◌, ◌⊎◌, refl, true, some, none, last, List, [], ◌∷◌, ◌++◌,
  ok, err, arith,
}
use the_open_network_x.Prelude.Ord.{bytes_ord}
use the_open_network_x.Prelude.BTreeMap.{lookup, insert, contains_key}
use the_open_network_x.Prelude.Int.{pos}
use the_open_network_x.DataStructures.Address.{FullAddress}
use the_open_network_x.DataStructures.Message.{
  MessageType, Message, validate_source_shard, validate_dest_shard,
}
use the_open_network_x.Prelude.Bits.{xor, count_ones}
use the_open_network_x.Prelude.Words.{from_be}
use the_open_network_x.DataStructures.Shard.{
  ShardIdent, high_bits, trailing_zeros, prefix_len, contains_account, validate_account_id,
  validate_full_address,
}
use the_open_network_x.Transactions.Router.{
  RouteHop, masked, plan_hypercube_route, validate_hypercube_route,
}
use the_open_network_x.Transactions.Router.Plan.{plan_hypercube_route_lem}
use the_open_network_x.Transactions.Error.{
  insufficient_transit_fee, duplicate_delivery, logical_time_regression,
}
use the_open_network_x.Transactions.Processed.{
  ProcessedMessageTracker, admit, has_hash, prune, admit_once,
}
use the_open_network_x.Transactions.Admission.{TentativeExecutionOutcome}
use the_open_network_x.Transactions.OutputQueue.{
  LaneKey, OutputQueue, lane_ord, key_of, lane_of, enqueue, pop_next, validate_delivery_order,
}
use the_open_network_x.Transactions.OutputQueue.Lanes.{IsQueue, enqueue_lem}
use the_open_network_x.Transactions.OutputQueue.Order.{Delivers, pop_next_lem}
use the_open_network_x.Transactions.OutputQueue.Drain.{Call, drain, run, drain-validate}

abbrev sender : FullAddress
sender = record { workchain_id = pos 0; account_id = 1 ∷ [] }

abbrev recipient : FullAddress
recipient = record { workchain_id = pos 0; account_id = 2 ∷ [] }

abbrev message_at : ℕ → Message
message_at lt = record {
  msg_type = MessageType.internal;
  src_address = sender;
  dest_address = recipient;
  amount_nanos = 5;
  extra_currencies = [];
  created_lt = lt;
  body_cell_hash = [];
}

abbrev one_lane : OutputQueue
one_lane = (((pos 0, 1 ∷ []), (pos 0, 2 ∷ [])), message_at 3 ∷ message_at 4 ∷ []) ∷ []

one_lane-IsQueue : IsQueue one_lane
one_lane-IsQueue = record {
  sorted = (tt, tt);
  lanes = ((λ h. absurd (ground arith), ((omega arith, tt), (tt, tt)), (refl, (refl, tt))), tt);
}

enqueue_example :
    ((q' : OutputQueue) × (enqueue one_lane (message_at 6) ≡ ok q')
      × IsQueue q'
      × (lane_of (key_of (message_at 6)) q'
          ≡ lane_of (key_of (message_at 6)) one_lane ++ message_at 6 ∷ [])
      × ((key : LaneKey) → key ≢ key_of (message_at 6) → lane_of key q' ≡ lane_of key one_lane))
    ⊎ ((back : Message) × (last (lane_of (key_of (message_at 6)) one_lane) ≡ some back)
        × (6 ≤ back.created_lt)
        × (enqueue one_lane (message_at 6) ≡ err (logical_time_regression back.created_lt 6)))
enqueue_example = enqueue_lem one_lane (message_at 6) one_lane-IsQueue

pop_next_example :
    ((one_lane ≡ []) × (pop_next one_lane ≡ (one_lane, none)))
    ⊎ ((m : Message) × (q' : OutputQueue) × (pop_next one_lane ≡ (q', some m))
        × Delivers one_lane m q')
pop_next_example = pop_next_lem one_lane one_lane-IsQueue

abbrev queue_calls : List Call
queue_calls =
    Call.push (message_at 3) ∷ Call.push (message_at 4) ∷ Call.pop ∷ Call.push (message_at 9) ∷ []

drain-validate_example : validate_delivery_order (drain 5 (run [] queue_calls)) ≡ ok tt
drain-validate_example = drain-validate queue_calls 5

abbrev one_hash : ProcessedMessageTracker
one_hash = (8 ∷ [], tt) ∷ []

admit_once_example :
    (admit one_hash (8 ∷ []) ≡ err duplicate_delivery)
    × (has_hash one_hash (9 ∷ []) ≡ has_hash [] (9 ∷ []))
    × ((again : ProcessedMessageTracker) × (admit (prune one_hash (8 ∷ [])) (8 ∷ []) ≡ ok again))
unfolding admit contains_key lookup insert
admit_once_example =
    admit_once [] (8 ∷ []) (9 ∷ []) {admitted = one_hash} refl (λ h. absurd (ground arith))

abbrev cheap_run : TentativeExecutionOutcome
cheap_run = record { signature_valid = true; gas_used = 500 }

-- The shards of the prefixes 00 and 11, and a message from the one to the other.
abbrev shard_00 : ShardIdent
shard_00 = record { workchain_id = pos 0; shard_prefix_ident = 0x2000_0000_0000_0000 }

abbrev shard_11 : ShardIdent
shard_11 = record { workchain_id = pos 0; shard_prefix_ident = 0xe000_0000_0000_0000 }

abbrev first_bytes : ℕ → List ℕ
first_bytes b = b ∷ 0 ∷ 0 ∷ 0 ∷ 0 ∷ 0 ∷ 0 ∷ 0 ∷ []

abbrev far_message : Message
far_message = record (message_at 3) {
  src_address = record { workchain_id = pos 0; account_id = first_bytes 0x10 };
  dest_address = record { workchain_id = pos 0; account_id = first_bytes 0xd0 };
}

shard_00-prefix : prefix_len shard_00 ≡ ok 2
unfolding prefix_len trailing_zeros
shard_00-prefix = refl

shard_11-prefix : prefix_len shard_11 ≡ ok 2
unfolding prefix_len trailing_zeros
shard_11-prefix = refl

far_message-source : validate_source_shard far_message shard_00 ≡ ok tt
unfolding validate_source_shard validate_full_address validate_account_id contains_account
    prefix_len trailing_zeros high_bits from_be
far_message-source = refl

far_message-dest : validate_dest_shard far_message shard_11 ≡ ok tt
unfolding validate_dest_shard validate_full_address validate_account_id contains_account prefix_len
    trailing_zeros high_bits from_be
far_message-dest = refl

plan_hypercube_route_example :
    (hops : List RouteHop) × (validate_hypercube_route hops shard_00 shard_11 ≡ ok tt)
    × (length hops ≡ count_ones 64 (masked 2 (xor 64 0x2000_0000_0000_0000 0xe000_0000_0000_0000)))
    × ((2 * length hops ≤ 5)
          × (plan_hypercube_route far_message shard_00 shard_11 2
              ≡ ok (record {
                hops = hops;
                transit_fee = 2 * length hops;
                remaining_value = 5 - 2 * length hops;
              }))
        ⊎ (5 < 2 * length hops)
          × ((required : ℕ) × (plan_hypercube_route far_message shard_00 shard_11 2
                ≡ err (insufficient_transit_fee 5 required))))
plan_hypercube_route_example =
    plan_hypercube_route_lem far_message shard_00 shard_11 2 2 (omega arith) (omega arith) refl
      far_message-source far_message-dest refl shard_00-prefix shard_11-prefix (omega arith)
