-- ===== src/Transactions/Router/Plan.antt =====
-- The plan of a route and its price.
use the_open_network_x.Prelude.{
  ℕ, ◌-◌, ◌*◌, ◌^◌, ◌<◌, ◌≤◌, ◌≡◌, ◌⊎◌, refl, subst, true, List, length, ok, err, Result, ==_refl,
  ltb, leb, arith, Bool-cases, inl, inr,
}
use the_open_network_x.Prelude.Ord.{same, same_refl}
use the_open_network_x.Prelude.Int.{int_ord}
use the_open_network_x.Prelude.Bits.{xor, count_ones}
use the_open_network_x.Prelude.Words.{u128_max}
use the_open_network_x.DataStructures.Shard.{ShardIdent, prefix_len}
use the_open_network_x.DataStructures.Message.{
  Message, MessageType, validate_source_shard, validate_dest_shard,
}
use the_open_network_x.Transactions.Error.{TransactionsError, insufficient_transit_fee}
use the_open_network_x.Transactions.Admission.{has_type}
use the_open_network_x.Transactions.Router.{
  RouteHop, RoutePlan, masked, walk, priced, plan_hypercube_route, validate_hypercube_route,
}
use the_open_network_x.Transactions.Router.Walk.{route_of}

abbrev Priced : Message → ℕ → List RouteHop → Result TransactionsError RoutePlan → Type 0
Priced message fee hops r =
    (fee * length hops ≤ message.amount_nanos)
      × (r
          ≡ ok (record {
            hops = hops;
            transit_fee = fee * length hops;
            remaining_value = message.amount_nanos - fee * length hops;
          }))
    ⊎ (message.amount_nanos < fee * length hops)
      × ((required : ℕ) × (r ≡ err (insufficient_transit_fee message.amount_nanos required)))

priced_lem :
    (message : Message) (fee : ℕ) (hops : List RouteHop)
    → message.amount_nanos ≤ u128_max
    → Priced message fee hops (priced message fee hops)
unfolding priced
priced_lem message fee hops top = elim (Bool-cases (ltb message.amount_nanos (fee * length hops))) [
  | inl short ↦ elim (Bool-cases (leb (fee * length hops) u128_max)) [
    | inl fits ↦ inr (ground (arith, short), (fee * length hops, rw (priced, fits, short) refl))
    | inr over ↦ inr (ground (arith, short), (u128_max, rw (priced, over) refl))
  ]
  | inr enough ↦
      let covered : fee * length hops ≤ message.amount_nanos = ground (arith, enough) in
      let fits : leb (fee * length hops) u128_max ≡ true = ground (arith, covered, top) in
      inl (covered, rw (priced, fits, enough) refl)
]

planned_lem :
    (message : Message) (source destination : ShardIdent) (len fee : ℕ) (hops : List RouteHop)
    → message.msg_type ≡ MessageType.internal
    → validate_source_shard message source ≡ ok tt
    → validate_dest_shard message destination ≡ ok tt
    → source.workchain_id ≡ destination.workchain_id
    → prefix_len source ≡ ok len
    → prefix_len destination ≡ ok len
    → walk source.workchain_id len
        (masked len destination.shard_prefix_ident)
        len
        0
        (masked len source.shard_prefix_ident)
        source
      ≡ ok hops
    → plan_hypercube_route message source destination fee ≡ priced message fee hops
unfolding plan_hypercube_route
planned_lem message source destination len fee hops internal from_s to_d same_w len_s len_d walked =
    let is_internal : has_type message MessageType.internal ≡ true = rw internal refl in
    let same_workchain : same source.workchain_id destination.workchain_id ≡ true =
      subst (λ w. same source.workchain_id w ≡ true) same_w (same_refl source.workchain_id) in
    rw
      (
        plan_hypercube_route,
        is_internal,
        from_s,
        to_d,
        len_s,
        same_workchain,
        len_d,
        ==_refl len,
        walked,
      )
      refl

-- An internal message between two shards of a workchain with prefixes of the same length, both of which it names, has
-- a route: its hops are accepted, each between neighbours, and there is one for each bit in which the prefixes differ.
-- The plan is made when the value covers the fee of all hops, and refused when it does not.
pub plan_hypercube_route_lem :
    (message : Message) (source destination : ShardIdent) (len fee_per_hop : ℕ)
    → source.shard_prefix_ident < 2 ^ 64
    → destination.shard_prefix_ident < 2 ^ 64
    → message.msg_type ≡ MessageType.internal
    → validate_source_shard message source ≡ ok tt
    → validate_dest_shard message destination ≡ ok tt
    → source.workchain_id ≡ destination.workchain_id
    → prefix_len source ≡ ok len
    → prefix_len destination ≡ ok len
    → message.amount_nanos ≤ u128_max
    → (hops : List RouteHop) × (validate_hypercube_route hops source destination ≡ ok tt)
      × (length hops
          ≡ count_ones 64
              (masked len (xor 64 source.shard_prefix_ident destination.shard_prefix_ident)))
      × ((fee_per_hop * length hops ≤ message.amount_nanos)
            × (plan_hypercube_route message source destination fee_per_hop
                ≡ ok (record {
                  hops = hops;
                  transit_fee = fee_per_hop * length hops;
                  remaining_value = message.amount_nanos - fee_per_hop * length hops;
                }))
          ⊎ (message.amount_nanos < fee_per_hop * length hops)
            × ((required : ℕ) × (plan_hypercube_route message source destination fee_per_hop
                  ≡ err (insufficient_transit_fee message.amount_nanos required))))
plan_hypercube_route_lem message source destination len fee fits_s fits_d internal from_s to_d
      same_w len_s len_d top =
    let (hops, (walked, accepted, count)) =
      route_of source destination len fits_s fits_d same_w len_s len_d in
    let planned =
      planned_lem message source destination len fee hops internal from_s to_d same_w len_s len_d
        walked in
    (hops, accepted, count, rw planned (priced_lem message fee hops top))
