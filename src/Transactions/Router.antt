-- ===== src/Transactions/Router.antt =====
-- crates/protocol/onx-transactions/src/router.rs: the routes of messages between the shards of a workchain, whose
-- prefixes are the corners of a hypercube.
pub mod Path
pub mod Walk
pub mod Plan
use the_open_network_x.Prelude.{
  ℕ, zero, suc, ◌+◌, ◌-◌, ◌*◌, Bool, true, false, not, ◌&&◌, List, [], ◌∷◌, length, Result, ok, err,
  ◌>>=◌, ◌>>◌, require, map_err, ok_or, is_ok, ltb, ◌==◌, if◌then◌else◌,
}
use the_open_network_x.Prelude.Ord.{same}
use the_open_network_x.Prelude.Int.{int_ord}
use the_open_network_x.Prelude.Bits.{xor, count_ones, nth_bit, toggle_bit}
use the_open_network_x.Prelude.Words.{u64_max, u128_max, checked_add, checked_mul, checked_sub}
use the_open_network_x.DataStructures.Address.{WorkchainIdent}
use the_open_network_x.DataStructures.Shard.{ShardIdent, high_bits, prefix_len, from_prefix_bits}
use the_open_network_x.DataStructures.Message.{
  Message, MessageType, validate_source_shard, validate_dest_shard,
}
use the_open_network_x.Transactions.Error.{
  TransactionsError, incompatible_route, route_endpoint_mismatch, invalid_hypercube_hop,
  insufficient_transit_fee, expiry_overflow,
}
use the_open_network_x.Transactions.Admission.{has_type}

abbrev pub max_cross_workchain_lt_window : ℕ
max_cross_workchain_lt_window = 1_000_000

pub record RouteHop : Type 0 where
  pub source : ShardIdent
  pub target : ShardIdent

pub record RoutePlan : Type 0 where
  pub hops : List RouteHop
  pub transit_fee : ℕ
  pub remaining_value : ℕ

-- The bits of a prefix, without its marker.
abbrev pub masked : ℕ → ℕ → ℕ
masked len bits = if len == 0 then 0 else high_bits (64 - len) bits

-- The loop over the bits that are left, from the bit of an index on.
unfoldable pub walk :
    WorkchainIdent → ℕ → ℕ → ℕ → ℕ → ℕ → ShardIdent → Result TransactionsError (List RouteHop)
walk workchain len target_bits zero bit_index current_bits current = ok []
walk workchain len target_bits (suc n) bit_index current_bits current =
    let bit = 63 - bit_index in
    let flipped = toggle_bit bit current_bits in
    let stay = walk workchain len target_bits n (bit_index + 1) current_bits current in
    let move : ShardIdent → Result TransactionsError (List RouteHop) =
      λ next. walk workchain len target_bits n (bit_index + 1) flipped next in
    if nth_bit bit current_bits == nth_bit bit target_bits then stay else do
      next ← map_err (λ _. incompatible_route) (from_prefix_bits workchain flipped len)
      rest ← move next
      ok (record { source = current; target = next } ∷ rest)

-- The fee and what is left of the value.
unfoldable pub priced : Message → ℕ → List RouteHop → Result TransactionsError RoutePlan
priced message fee_per_hop hops = do
  let available = message.amount_nanos
  transit_fee ←
      ok_or (checked_mul u128_max fee_per_hop (length hops))
        (insufficient_transit_fee available u128_max)
  remaining_value ←
      ok_or (checked_sub available transit_fee) (insufficient_transit_fee available transit_fee)
  ok (record { hops = hops; transit_fee = transit_fee; remaining_value = remaining_value })

unfoldable pub plan_hypercube_route :
    Message → ShardIdent → ShardIdent → ℕ → Result TransactionsError RoutePlan
plan_hypercube_route message source destination fee_per_hop = do
  require
      (has_type message MessageType.internal
        && (is_ok (validate_source_shard message source)
            && is_ok (validate_dest_shard message destination)))
      route_endpoint_mismatch
  len ← map_err (λ _. incompatible_route) (prefix_len source)
  require (same source.workchain_id destination.workchain_id) incompatible_route
  other_len ← map_err (λ _. incompatible_route) (prefix_len destination)
  require (other_len == len) incompatible_route
  hops ←
      walk source.workchain_id len (masked len destination.shard_prefix_ident) len 0
        (masked len source.shard_prefix_ident) source
  priced message fee_per_hop hops

-- The derived equality.
abbrev pub same_shard : ShardIdent → ShardIdent → Bool
same_shard a b =
    same a.workchain_id b.workchain_id && (a.shard_prefix_ident == b.shard_prefix_ident)

unfoldable pub are_neighbors : ShardIdent → ShardIdent → Bool
are_neighbors left right = elim (prefix_len left) [
  | err e ↦ false
  | ok len ↦
      same left.workchain_id right.workchain_id
      && (elim (prefix_len right) [ ok other ↦ other == len | err e ↦ false ]
          && (count_ones 64 (masked len (xor 64 left.shard_prefix_ident right.shard_prefix_ident))
              == 1))
]

-- The loop over the hops, and the test of where it ends.
unfoldable pub follow :
    List RouteHop → ShardIdent → ShardIdent → Result TransactionsError (Unit {0})
follow [] current destination = require (same_shard current destination) invalid_hypercube_hop
follow (hop ∷ hops) current destination = do
  require (same_shard hop.source current && are_neighbors hop.source hop.target)
      invalid_hypercube_hop
  follow hops hop.target destination

unfoldable pub validate_hypercube_route :
    List RouteHop → ShardIdent → ShardIdent → Result TransactionsError (Unit {0})
validate_hypercube_route hops source destination = follow hops source destination

unfoldable pub cross_workchain_expiry : Message → Result TransactionsError ℕ
cross_workchain_expiry message =
    ok_or (checked_add u64_max message.created_lt max_cross_workchain_lt_window) expiry_overflow

unfoldable pub is_cross_workchain_expired : Message → ℕ → Result TransactionsError Bool
is_cross_workchain_expired message current_lt = do
  expiry ← cross_workchain_expiry message
  ok (ltb expiry current_lt)
