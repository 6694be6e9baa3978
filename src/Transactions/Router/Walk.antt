-- ===== src/Transactions/Router/Walk.antt =====
-- The walk from one shard to another ends there, over neighbours, with one hop for each bit in which they differ.
use native.Mathlib.Nat.{one-le-pow, mul-div_cancel, div-eq_of_lt}
use the_open_network_x.Prelude.{
  ℕ, zero, suc, ◌+◌, ◌-◌, ◌*◌, ◌/◌, ◌^◌, ◌<◌, ◌≤◌, ◌≡◌, refl, sym, ap, subst, ◌∙◌, false, List, [],
  ◌∷◌, length, ok, ◌==◌, ==→eq, ==→ne, ltb, arith, Bool-cases, inl, inr,
}
use the_open_network_x.Prelude.Int.{int_ord}
use the_open_network_x.Prelude.Bits.{xor, count_ones, nth_bit, toggle_bit}
use the_open_network_x.Prelude.Bits.Toggle.{
  toggle_bit-agree, differing, differing_top, differing-toggle_bit, nth_bit-shift,
  toggle_bit-shifted, shift-shift, halved_last,
}
use the_open_network_x.DataStructures.Address.{WorkchainIdent}
use the_open_network_x.DataStructures.Shard.{ShardIdent, high_bits, prefix_len, from_prefix_bits}
use the_open_network_x.DataStructures.Shard.Laws.{marked_prefix}
use the_open_network_x.Sharding.Tree.Marker.{marked_ident, halves}
use the_open_network_x.Transactions.Router.{RouteHop, masked, walk, validate_hypercube_route}
use the_open_network_x.Transactions.Router.Path.{
  Route, marked, count_ones-masked, are_neighbors-toggle_bit, validate_hypercube_route_lem,
}

from_prefix_bits-marked :
    (w : WorkchainIdent) (len d : ℕ)
    → 1 ≤ len
    → len ≤ 60
    → from_prefix_bits w (d * 2 ^ (64 - len)) len ≡ ok (marked w len d)
unfolding from_prefix_bits
from_prefix_bits-marked w len d positive short =
    let fits : ltb 60 len ≡ false = ground (arith, short) in
    let nonempty : (len == 0) ≡ false = ground (arith, positive) in
    let at : 64 - len ≡ suc (63 - len) = omega (arith, short) in
    let prefix : d * 2 ^ suc (63 - len) / 2 ^ suc (63 - len) ≡ d =
      mul-div_cancel d (one-le-pow (suc (63 - len)) 2 (omega arith)) in
    rw (from_prefix_bits, fits, nonempty, at)
      (ap (λ i. ok (record { workchain_id = w; shard_prefix_ident = i }))
        (marked_prefix (d * 2 ^ suc (63 - len)) (63 - len) ∙ rw prefix refl))

-- Numbers with the same half and the same lowest bit.
agree_below :
    (m c t : ℕ) → c / 2 ^ suc m ≡ t / 2 ^ suc m → nth_bit m c ≡ nth_bit m t → c / 2 ^ m ≡ t / 2 ^ m
agree_below m c t above low =
    let half : c / 2 ^ m / 2 ≡ t / 2 ^ m / 2 = sym (halved_last c m) ∙ above ∙ halved_last t m in
    omega (arith, half, low)

module _ (w : WorkchainIdent) (len t : ℕ) (short : len ≤ 60) where
  abbrev Walks : ℕ → ℕ → ℕ → Type 0
  Walks n i c =
      (hops : List RouteHop) × (walk w len (t * 2 ^ (64 - len)) n i (c * 2 ^ (64 - len))
          (marked w len c)
        ≡ ok hops)
      × Route (marked w len c) hops (marked w len t)
      × (length hops ≡ differing n c t)

  walk-Walks : (n i c : ℕ) → i + n ≡ len → c / 2 ^ n ≡ t / 2 ^ n → Walks n i c
  unfolding walk count_ones
  walk-Walks zero i c at above =
      let whole : (v : ℕ) → v / 2 ^ 0 ≡ v = λ v. omega arith in
      let there : c ≡ t = sym (whole c) ∙ above ∙ whole t in
      ([], refl, ap (marked w len) there, refl)
  walk-Walks (suc m) i c at above =
      let k = 64 - len in
      let bit : 63 - i ≡ k + m = omega (arith, at, short) in
      let next : i + 1 + m ≡ len = omega (arith, at) in
      let here : nth_bit (63 - i) (c * 2 ^ k) ≡ nth_bit m c = rw bit (nth_bit-shift k m c) in
      let target : nth_bit (63 - i) (t * 2 ^ k) ≡ nth_bit m t = rw bit (nth_bit-shift k m t) in
      let flipped : toggle_bit (63 - i) (c * 2 ^ k) ≡ toggle_bit m c * 2 ^ k =
        rw bit (toggle_bit-shifted k m c) in
      let top = differing_top m c t in
      elim (Bool-cases (nth_bit m c == nth_bit m t)) [
        | inl equal ↦
            let bits = ==→eq (nth_bit m c) (nth_bit m t) equal in
            let (hops, walked, route, count) =
              walk-Walks m (i + 1) c next (agree_below m c t above bits) in
            (hops, rw (walk, here, target, equal) walked, route, omega (arith, count, top, bits))
        | inr other ↦
            let bits = ==→ne (nth_bit m c) (nth_bit m t) other in
            let d = toggle_bit m c in
            let (hops, walked, route, count) =
              walk-Walks m (i + 1) d next (toggle_bit-agree m c t above bits) in
            let below : m < len = omega (arith, at) in
            (
              record { source = marked w len c; target = marked w len d } ∷ hops,
              rw (walk, here, target, other, flipped)
                  (rw (from_prefix_bits-marked w len d (omega (arith, below)) short, walked) refl),
              (refl, are_neighbors-toggle_bit w len m c short below, route),
              let same = differing-toggle_bit m c t in omega (arith, count, top, same, bits),
            )
      ]

masked_is :
    (len v c : ℕ) → v / 2 ^ (64 - len) ≡ c → c / 2 ^ len ≡ 0 → masked len v ≡ c * 2 ^ (64 - len)
unfolding high_bits
masked_is zero v c prefix top = omega (arith, top)
masked_is (suc n) v c prefix top =
    let nonempty : (suc n == 0) ≡ false = ground arith in rw (nonempty, prefix) refl

-- A shard with a prefix of a length, as the number of its prefix.
as_marked :
    (s : ShardIdent) (len : ℕ)
    → s.shard_prefix_ident < 2 ^ 64
    → prefix_len s ≡ ok len
    → (c : ℕ) × (s ≡ marked s.workchain_id len c)
      × (len ≤ 60)
      × (c / 2 ^ len ≡ 0)
      × (masked len s.shard_prefix_ident ≡ c * 2 ^ (64 - len))
unfolding high_bits
as_marked s len fits h =
    let (c, ident, short) = marked_ident s len fits h in
    let at : 64 - len ≡ suc (63 - len) = omega (arith, short) in
    let prefix : s.shard_prefix_ident / 2 ^ (64 - len) ≡ c = rw (at, ident) (halves c (63 - len)) in
    let width : 64 - len + len ≡ 64 = omega (arith, short) in
    let bounded : c / 2 ^ len ≡ 0 =
      ap (λ v. v / 2 ^ len) (sym prefix)
      ∙ shift-shift (64 - len) len s.shard_prefix_ident
      ∙ ap (λ n. s.shard_prefix_ident / 2 ^ n) width
      ∙ div-eq_of_lt fits in
    (
      c,
      ap (λ i. record { workchain_id = s.workchain_id; shard_prefix_ident = i }) ident,
      short,
      bounded,
      masked_is len s.shard_prefix_ident c prefix bounded,
    )

-- The walk between two shards, its acceptance and its length.
abbrev pub IsRouted : ShardIdent → ShardIdent → ℕ → List RouteHop → Type 0
IsRouted source destination len hops =
    (walk source.workchain_id len (masked len destination.shard_prefix_ident) len 0
        (masked len source.shard_prefix_ident) source
      ≡ ok hops)
    × (validate_hypercube_route hops source destination ≡ ok tt)
    × (length hops
        ≡ count_ones 64
            (masked len (xor 64 source.shard_prefix_ident destination.shard_prefix_ident)))

route_between :
    (source destination : ShardIdent) (len c t : ℕ)
    → len ≤ 60
    → source ≡ marked source.workchain_id len c
    → destination ≡ marked source.workchain_id len t
    → masked len source.shard_prefix_ident ≡ c * 2 ^ (64 - len)
    → masked len destination.shard_prefix_ident ≡ t * 2 ^ (64 - len)
    → c / 2 ^ len ≡ t / 2 ^ len
    → (hops : List RouteHop) × IsRouted source destination len hops
route_between source destination len c t short source_is dest_is c_bits t_bits tops =
    let w = source.workchain_id in
    let (hops, walked, route, count) = walk-Walks w len t short len 0 c (omega arith) tops in
    let routed : Route source hops destination =
      subst (λ s. Route s hops destination) (sym source_is)
        (subst (Route (marked w len c) hops) (sym dest_is) route) in
    let identifiers =
      ap (λ v. count_ones 64 (masked len (xor 64 v destination.shard_prefix_ident)))
        (ap (λ s. s.shard_prefix_ident) source_is)
      ∙ ap (λ v. count_ones 64 (masked len (xor 64 (marked w len c).shard_prefix_ident v)))
          (ap (λ s. s.shard_prefix_ident) dest_is) in
    (
      hops,
      (
        rw (t_bits, c_bits)
            (ap (walk w len (t * 2 ^ (64 - len)) len 0 (c * 2 ^ (64 - len))) source_is ∙ walked),
        (validate_hypercube_route_lem hops source destination).1 routed,
        count ∙ sym (count_ones-masked w len c t short) ∙ sym identifiers,
      ),
    )

pub route_of :
    (source destination : ShardIdent) (len : ℕ)
    → source.shard_prefix_ident < 2 ^ 64
    → destination.shard_prefix_ident < 2 ^ 64
    → source.workchain_id ≡ destination.workchain_id
    → prefix_len source ≡ ok len
    → prefix_len destination ≡ ok len
    → (hops : List RouteHop) × IsRouted source destination len hops
route_of source destination len fits_s fits_d same_w len_s len_d =
    let (c, source_is, short, c_top, c_bits) = as_marked source len fits_s len_s in
    let (t, dest_is, short', t_top, t_bits) = as_marked destination len fits_d len_d in
    let dest_at = dest_is ∙ ap (λ v. marked v len t) (sym same_w) in
    route_between source destination len c t short source_is dest_at c_bits t_bits
      (c_top ∙ sym t_top)
