-- ===== src/Sharding/Migration/Merge.antt =====
-- A merge of the children of a split gives the state of the parent back.
use native.Mathlib.Nat.{pow-suc, div-div-eq-div-mul}
use mathlib.Core.List.{Perm}
use mathlib.Core.List.Perm
use the_open_network_x.Prelude.{
  ℕ, zero, suc, ◌+◌, ◌-◌, ◌*◌, ◌/◌, ◌^◌, ◌<◌, ◌≡◌, refl, sym, ap, ◌∙◌, ◌++◌, Bool, true, false, not,
  Option, none, some, List, [], ok, ltb, ◌==◌, ==_refl, arith,
}
use the_open_network_x.Prelude.Ord.{
  bytes_ord, pair_ord, nat_ord, same, same_refl, cmp_flip, cmp_le_trans,
}
use the_open_network_x.Prelude.Int.{int_ord}
use the_open_network_x.Prelude.Bits.{xor, xor-shift, xor_neighbours}
use the_open_network_x.Prelude.BTreeMap.{lookup}
use the_open_network_x.Prelude.BTreeMap.Sorted.{IsSorted}
use the_open_network_x.Prelude.BTreeMap.Extend.{
  extend, extend-IsSorted, lookup-extend, lookup-ext, or_else,
}
use the_open_network_x.Prelude.Sort.{IsOrdered, sort_by-perm, sort_by-IsOrdered}
use the_open_network_x.Primitives.Error.{Bytes}
use the_open_network_x.Primitives.Hash.{Crypto}
use the_open_network_x.DataStructures.Address.{AccountId}
use the_open_network_x.DataStructures.Shard.{ShardIdent, high_bits, prefix_len, from_prefix_bits}
use the_open_network_x.DataStructures.Shard.Laws.{marked_prefix}
use the_open_network_x.DataStructures.Message.{Message, message_hash}
use the_open_network_x.StateModel.Account.{AccountState}
use the_open_network_x.Sharding.Tree.{child_0, child_1}
use the_open_network_x.Sharding.Tree.Marker.{halves}
use the_open_network_x.Sharding.Tree.Partition.{
  IsSplit, marked_children, prefix_len-child_0, prefix_len-child_1,
}
use the_open_network_x.Sharding.Migration.{
  Accounts, ShardState, common_parent, cmp_messages, sort_messages, split_shard_state,
  merge_shard_states,
}
use the_open_network_x.Sharding.Migration.Routing.{
  kept, kept-IsSorted, lookup-kept, keep, chosen, chosen-perm,
}
use the_open_network_x.Sharding.Migration.Split.{
  IsShardState, goes_left, sent_left, left_state, right_state, left-IsShardState,
  right-IsShardState, split_shard_state-is,
}

-- The bits of a child, and those of its parent.
above_child :
    (s : ShardIdent) (len q c v : ℕ)
    → IsSplit s len q
    → c / 2 ≡ q
    → v ≡ (2 * c + 1) * 2 ^ (63 - suc len)
    → high_bits (64 - len) v + 2 ^ (63 - len) ≡ s.shard_prefix_ident
above_child s len q c v split half v_is =
    let j = 63 - suc len in
    let at : 63 - len ≡ suc j = omega (arith, split.below) in
    let above : 64 - len ≡ suc (suc j) = omega (arith, split.below) in
    let child : v / 2 ^ suc j ≡ c = rw v_is (halves c j) in
    let parent : v / 2 ^ suc (suc j) ≡ q =
      rw (pow-suc 2 (suc j)) (sym (div-div-eq-div-mul v (2 ^ suc j) 2) ∙ rw child half) in
    rw (at, above)
      (marked_prefix v (suc j)
        ∙ rw parent (sym (split.parent_is ∙ ap (λ k. (2 * q + 1) * 2 ^ k) at)))

-- The parent from the identifier of a child.
from_child :
    (s : ShardIdent) (len q c v : ℕ)
    → IsSplit s len q
    → c / 2 ≡ q
    → v ≡ (2 * c + 1) * 2 ^ (63 - suc len)
    → from_prefix_bits s.workchain_id v len ≡ ok s
unfolding from_prefix_bits
from_child s zero q c v split half v_is =
    let is_root : 2 ^ 63 ≡ s.shard_prefix_ident =
      let parent = split.parent_is in let fits = split.fits in omega (arith, parent, fits) in
    ap (λ i. ok (record { workchain_id = s.workchain_id; shard_prefix_ident = i })) is_root
from_child s (suc n) q c v split half v_is =
    let short : ltb 60 (suc n) ≡ false = ground (arith, split.below) in
    let nonempty : (suc n == 0) ≡ false = ground arith in
    rw (from_prefix_bits, short, nonempty)
      (ap (λ i. ok (record { workchain_id = s.workchain_id; shard_prefix_ident = i }))
        (above_child s (suc n) q c v split half v_is))

differing_bit :
    (len q a b : ℕ)
    → len < 60
    → a ≡ (2 * (2 * q) + 1) * 2 ^ (63 - suc len)
    → b ≡ (2 * (2 * q + 1) + 1) * 2 ^ (63 - suc len)
    → high_bits (64 - suc len) (xor 64 a b) ≡ 2 ^ (64 - suc len)
unfolding high_bits
differing_bit len q a b below a_is b_is =
    let j = 63 - suc len in
    let at : 64 - suc len ≡ suc j = omega (arith, below) in
    let width : 64 ≡ suc j + suc len = omega (arith, below) in
    let left : a / 2 ^ suc j ≡ 2 * q = rw a_is (halves (2 * q) j) in
    let right : b / 2 ^ suc j ≡ 2 * q + 1 = rw b_is (halves (2 * q + 1) j) in
    let lowest : xor 64 a b / 2 ^ suc j ≡ 1 =
      ap (λ n. xor n a b / 2 ^ suc j) width
      ∙ xor-shift (suc j) (suc len) a b
      ∙ rw (left, right) (xor_neighbours len q) in
    rw (at, lowest) (omega arith)

same_workchain :
    (s : ShardIdent) (len : ℕ)
    → same (child_0 s len).workchain_id (child_1 s len).workchain_id ≡ true
unfolding child_0 child_1
same_workchain s len = same_refl s.workchain_id

common_parent-children :
    (s : ShardIdent) (len q : ℕ)
    → IsSplit s len q
    → common_parent (child_0 s len) (child_1 s len) ≡ ok s
unfolding common_parent from_prefix_bits child_0
common_parent-children s len q split =
    let differing =
      differing_bit len q (child_0 s len).shard_prefix_ident (child_1 s len).shard_prefix_ident
        split.below split.left_is split.right_is in
    let half : 2 * q / 2 ≡ q = omega arith in
    let nonempty : (suc len == 0) ≡ false = ground arith in
    let one_shorter : suc len - 1 ≡ len = omega arith in
    let parent =
      from_child s len q (2 * q) (child_0 s len).shard_prefix_ident split half split.left_is in
    rw
      (
        common_parent,
        prefix_len-child_0 s len q split,
        nonempty,
        same_workchain s len,
        prefix_len-child_1 s len q split,
        ==_refl (suc len),
        differing,
        ==_refl (2 ^ (64 - suc len)),
      )
      (rw (one_shorter, parent) refl)

both_kept :
    (b : Bool) (o : Option AccountState)
    → or_else (or_else (keep (not b) o) none) (or_else (keep b o) none) ≡ o
both_kept true o = ground arith
both_kept false o = ground arith

-- The accounts of both children are those of the parent.
extend-kept :
    (f : AccountId → Bool) (m : Accounts)
    → IsSorted m
    → extend (kept f m []) (kept (λ account. not (f account)) m []) ≡ m
unfolding lookup
extend-kept f m s =
    let left = kept f m [] in
    let right = kept (λ account. not (f account)) m [] in
    let right_sorted = kept-IsSorted (λ account. not (f account)) m [] tt in
    lookup-ext (extend left right) m (extend-IsSorted left right (kept-IsSorted f m [] tt)) s (λ k.
      let merged = lookup-extend k left right right_sorted in
      let in_left = lookup-kept f k m [] s in
      let in_right = lookup-kept (λ account. not (f account)) k m [] s in
      merged ∙ rw (in_left, in_right) (both_kept (f k) (lookup k m)))

messages-IsOrdered :
    (crypto : Crypto) (ms : List Message)
    → IsOrdered (cmp_messages crypto) (sort_messages crypto ms)
unfolding sort_messages
messages-IsOrdered crypto ms =
    sort_by-IsOrdered (cmp_messages crypto)
      (λ a b.
        cmp_flip {K = ℕ × Bytes} (a.created_lt, message_hash crypto a)
          (b.created_lt, message_hash crypto b))
      (λ a b c.
        cmp_le_trans {K = ℕ × Bytes} (a.created_lt, message_hash crypto a)
          (b.created_lt, message_hash crypto b) (c.created_lt, message_hash crypto c))
      ms

messages-perm :
    (crypto : Crypto) (g : Message → Bool) (ms : List Message)
    → Perm
        (sort_messages crypto (chosen g ms) ++ sort_messages crypto (chosen (λ m. not (g m)) ms))
        ms
unfolding sort_messages
messages-perm crypto g ms =
    Perm.trans
      (Perm.append (sort_by-perm (cmp_messages crypto) (chosen g ms))
        (sort_by-perm (cmp_messages crypto) (chosen (λ m. not (g m)) ms)))
      (chosen-perm g ms)

-- Merging the two states that a split makes gives the shard and the accounts of the parent back, and its messages,
-- which are then in the order of their logical times.
pub merge_shard_states-split :
    (crypto : Crypto) (p : ShardState) (len : ℕ)
    → IsShardState p
    → p.shard.shard_prefix_ident < 2 ^ 64
    → prefix_len p.shard ≡ ok len
    → len < 60
    → (left : ShardState) × (right : ShardState) × (merged : ShardState) × (split_shard_state crypto
          p
        ≡ some (ok (left, right)))
      × (merge_shard_states crypto left right ≡ ok merged)
      × (merged.shard ≡ p.shard)
      × (merged.accounts ≡ p.accounts)
      × Perm merged.pending_messages p.pending_messages
      × IsOrdered (cmp_messages crypto) merged.pending_messages
unfolding merge_shard_states sort_messages
merge_shard_states-split crypto p len h fits has_len below =
    let (q, split) = marked_children p.shard len fits has_len below in
    let left = left_state crypto p len q split in
    let right = right_state crypto p len q split in
    let left_owned = (left-IsShardState crypto p len q split h).owned in
    let right_owned = (right-IsShardState crypto p len q split h).owned in
    let both = left.pending_messages ++ right.pending_messages in
    let merged : ShardState = record {
      shard = p.shard;
      accounts = extend left.accounts right.accounts;
      pending_messages = sort_messages crypto both;
    } in
    (
      left,
      right,
      merged,
      split_shard_state-is crypto p len q split h,
      rw (merge_shard_states, left_owned, right_owned, common_parent-children p.shard len q split)
          refl,
      refl,
      extend-kept (goes_left crypto p len q split) p.accounts h.sorted,
      Perm.trans (sort_by-perm (cmp_messages crypto) both)
          (messages-perm crypto (sent_left crypto p len q split) p.pending_messages),
      messages-IsOrdered crypto both,
    )
