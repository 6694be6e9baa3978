-- ===== src/Transactions/Router/Path.antt =====
-- Routes as chains of neighbours, and the shards of a workchain as the numbers of their prefixes.
use native.Mathlib.Nat.{pow-suc, zero-add}
use the_open_network_x.Prelude.{
  ℕ, zero, suc, ◌+◌, ◌-◌, ◌*◌, ◌/◌, ◌%◌, ◌^◌, ◌<◌, ◌≤◌, ◌≡◌, ◌↔◌, refl, ap, ◌∙◌, true, false, List,
  [], ◌∷◌, ok, ◌==◌, ==→eq, ==_refl, arith,
}
use the_open_network_x.Prelude.Ord.{same_refl, same→eq}
use the_open_network_x.Prelude.Int.{int_ord}
use the_open_network_x.Prelude.Bits.{xor, xor-shift, count_ones, toggle_bit}
use the_open_network_x.Prelude.Bits.Toggle.{xor-toggle_bit, differing}
use the_open_network_x.DataStructures.Address.{WorkchainIdent}
use the_open_network_x.DataStructures.Shard.{ShardIdent, high_bits}
use the_open_network_x.DataStructures.Shard.Laws.{prefix_len_of}
use the_open_network_x.Sharding.Tree.Marker.{halves}
use the_open_network_x.Transactions.Router.{
  RouteHop, masked, same_shard, are_neighbors, follow, validate_hypercube_route,
}

-- A chain of hops between neighbours from one shard to another.
abbrev pub Route : ShardIdent → List RouteHop → ShardIdent → Type 0
Route s [] d = s ≡ d
Route s (hop ∷ hops) d =
    (hop.source ≡ s) × (are_neighbors hop.source hop.target ≡ true) × Route hop.target hops d

same_shard→eq : (a b : ShardIdent) → same_shard a b ≡ true → a ≡ b
same_shard→eq a b h = ground (
  arith,
  h,
  same→eq a.workchain_id b.workchain_id,
  ==→eq a.shard_prefix_ident b.shard_prefix_ident,
)

same_shard_refl : (a : ShardIdent) → same_shard a a ≡ true
same_shard_refl a = rw (same_refl a.workchain_id, ==_refl a.shard_prefix_ident) refl

follow-Route : (hops : List RouteHop) (s d : ShardIdent) → follow hops s d ≡ ok tt → Route s hops d
unfolding follow
follow-Route [] s d h = same_shard→eq s d (ground (arith, h))
follow-Route (hop ∷ hops) s d h =
    ground (arith, h, same_shard→eq hop.source s, follow-Route hops hop.target d)

Route-follow : (hops : List RouteHop) (s d : ShardIdent) → Route s hops d → follow hops s d ≡ ok tt
unfolding follow
Route-follow [] s d here = rw (follow, here, same_shard_refl d) refl
Route-follow (hop ∷ hops) s d (at, near, rest) =
    let there : same_shard hop.source s ≡ true = rw at (same_shard_refl s) in
    rw (follow, there, near) (Route-follow hops hop.target d rest)

-- A route is accepted exactly when it is a chain of neighbours from the source to the destination.
pub validate_hypercube_route_lem :
    (hops : List RouteHop) (source destination : ShardIdent)
    → (validate_hypercube_route hops source destination ≡ ok tt) ↔ Route source hops destination
unfolding validate_hypercube_route
validate_hypercube_route_lem hops source destination =
    (follow-Route hops source destination, Route-follow hops source destination)

-- The shard whose prefix is a number of some bits.
abbrev pub marked : WorkchainIdent → ℕ → ℕ → ShardIdent
marked w len c = record { workchain_id = w; shard_prefix_ident = (2 * c + 1) * 2 ^ (63 - len) }

count_ones-double : (n x : ℕ) → count_ones (suc n) (x * 2) ≡ count_ones n x
unfolding count_ones
count_ones-double n x =
    let even : x * 2 % 2 ≡ 0 = omega arith in
    let half : x * 2 / 2 ≡ x = omega arith in rw (even, half) (omega arith)

shifted_once : (k x : ℕ) → x * 2 ^ suc k ≡ x * 2 ^ k * 2
shifted_once k x = grind (arith, pow-suc 2 k)

count_ones-shift : (k n x : ℕ) → count_ones (k + n) (x * 2 ^ k) ≡ count_ones n x
count_ones-shift zero n x =
    let whole : x * 2 ^ 0 ≡ x = omega arith in
    ap (λ m. count_ones m (x * 2 ^ 0)) (zero-add n) ∙ ap (count_ones n) whole
count_ones-shift (suc k) n x =
    let longer : suc k + n ≡ suc (k + n) = omega arith in
    ap (λ m. count_ones m (x * 2 ^ suc k)) longer
    ∙ ap (count_ones (suc (k + n))) (shifted_once k x)
    ∙ count_ones-double (k + n) (x * 2 ^ k)
    ∙ count_ones-shift k n x

count_ones-zero : (n : ℕ) → count_ones n 0 ≡ 0
unfolding count_ones
count_ones-zero zero = refl
count_ones-zero (suc n) = let rest = count_ones-zero n in omega (arith, rest)

count_ones-power : (n m : ℕ) → m < n → count_ones n (2 ^ m) ≡ 1
unfolding count_ones
count_ones-power zero m h = absurd (omega (arith, h))
count_ones-power (suc n) zero h = rw (count_ones, count_ones-zero n) refl
count_ones-power (suc n) (suc m) h =
    ap (count_ones (suc n)) (pow-suc 2 m)
    ∙ count_ones-double n (2 ^ m)
    ∙ count_ones-power n m (omega (arith, h))

-- The masked bits in which two shards differ.
pub masked-xor :
    (w : WorkchainIdent) (len c d : ℕ)
    → len ≤ 60
    → masked len (xor 64 (marked w len c).shard_prefix_ident (marked w len d).shard_prefix_ident)
      ≡ xor len c d * 2 ^ (64 - len)
unfolding high_bits xor
masked-xor w zero c d short = omega arith
masked-xor w (suc n) c d short =
    let len = suc n in
    let j = 63 - len in
    let at : 64 - len ≡ suc j = omega (arith, short) in
    let width : 64 ≡ suc j + len = omega (arith, short) in
    let v = (2 * c + 1) * 2 ^ j in
    let u = (2 * d + 1) * 2 ^ j in
    let nonempty : (len == 0) ≡ false = ground arith in
    let high : xor 64 v u / 2 ^ suc j ≡ xor len c d =
      ap (λ k. xor k v u / 2 ^ suc j) width
      ∙ xor-shift (suc j) len v u
      ∙ rw (halves c j, halves d j) refl in
    rw (nonempty, at, high) refl

pub count_ones-masked :
    (w : WorkchainIdent) (len c d : ℕ)
    → len ≤ 60
    → count_ones 64 (
        masked len (xor 64 (marked w len c).shard_prefix_ident (marked w len d).shard_prefix_ident))
      ≡ differing len c d
count_ones-masked w len c d short =
    let width : 64 ≡ 64 - len + len = omega (arith, short) in
    ap (count_ones 64) (masked-xor w len c d short)
    ∙ ap (λ n. count_ones n (xor len c d * 2 ^ (64 - len))) width
    ∙ count_ones-shift (64 - len) len (xor len c d)

-- Toggling a bit of the prefix leads to a neighbour.
pub are_neighbors-toggle_bit :
    (w : WorkchainIdent) (len m c : ℕ)
    → len ≤ 60
    → m < len
    → are_neighbors (marked w len c) (marked w len (toggle_bit m c)) ≡ true
unfolding are_neighbors
are_neighbors-toggle_bit w len m c short below =
    let d = toggle_bit m c in
    let one : differing len c d ≡ 1 =
      rw (xor-toggle_bit len m c below) (count_ones-power len m below) in
    rw
      (
        are_neighbors,
        prefix_len_of w (marked w len c).shard_prefix_ident c len short refl,
        prefix_len_of w (marked w len d).shard_prefix_ident d len short refl,
        same_refl w,
        ==_refl len,
        count_ones-masked w len c d short,
        one,
      )
      refl
