-- ===== src/Sharding/Tree/Partition.antt =====
-- A split partitions the accounts of the parent among its two children.
use the_open_network_x.Prelude.{
  ℕ, suc, ◌+◌, ◌-◌, ◌*◌, ◌/◌, ◌^◌, ◌≤◌, ◌<◌, ◌≡◌, refl, ap, ◌∙◌, Bool, false, ◌&&◌, ◌||◌, take, ok,
  arith, leb, ◌==◌,
}
use the_open_network_x.Prelude.Words.{from_be}
use the_open_network_x.DataStructures.Address.{AccountId}
use the_open_network_x.DataStructures.Shard.{ShardIdent, prefix_len, contains_account}
use the_open_network_x.DataStructures.Shard.Laws.{prefix_len_of}
use the_open_network_x.Sharding.Tree.Marker.{
  marked_ident, contains_marked, child_0_ident, child_1_ident, contains_parent, neighbours,
  halved_again,
}
use the_open_network_x.Sharding.Tree.{child_0, child_1, split_leaf, leaf, internal, new_leaf}

-- A shard with fewer than sixty prefix bits and the identifiers of its children.
pub record IsSplit (s : ShardIdent) (len q : ℕ) : Type 0 where
  pub has_len : prefix_len s ≡ ok len
  pub below : len < 60
  pub fits : s.shard_prefix_ident < 2 ^ 64
  pub parent_is : s.shard_prefix_ident ≡ (2 * q + 1) * 2 ^ (63 - len)
  pub left_is : (child_0 s len).shard_prefix_ident ≡ (2 * (2 * q) + 1) * 2 ^ (63 - suc len)
  pub right_is : (child_1 s len).shard_prefix_ident ≡ (2 * (2 * q + 1) + 1) * 2 ^ (63 - suc len)

pub marked_children :
    (s : ShardIdent) (len : ℕ)
    → s.shard_prefix_ident < 2 ^ 64
    → prefix_len s ≡ ok len
    → len < 60
    → (q : ℕ) × IsSplit s len q
unfolding child_0 child_1
marked_children s len fits has_len below =
    let (q, v_is, short) = marked_ident s len fits has_len in
    let k = 62 - len in
    let at : 63 - len ≡ suc k = omega (arith, below) in
    let longer_at : 63 - suc len ≡ k = omega (arith, below) in
    let ident_is : s.shard_prefix_ident ≡ (2 * q + 1) * 2 ^ suc k =
      v_is ∙ ap (λ t. (2 * q + 1) * 2 ^ t) at in
    (
      q,
      record {
        has_len = has_len;
        below = below;
        fits = fits;
        parent_is = v_is;
        left_is = rw (at, longer_at, ident_is) (child_0_ident q k);
        right_is = rw (at, longer_at, ident_is) (child_1_ident q k);
      },
    )

module _ (s : ShardIdent) (len q : ℕ) (split : IsSplit s len q) where
  longer : suc len ≤ 60
  longer = omega (arith, split.below)

  pub split_leaf_lem :
      (bytes gas : ℕ)
      → split_leaf (leaf s bytes gas)
        ≡ ok (internal s (new_leaf (child_0 s len)) (new_leaf (child_1 s len)))
  unfolding split_leaf
  split_leaf_lem bytes gas =
      let short_enough : leb 60 len ≡ false = ground (arith, split.below) in
      rw (split.has_len, short_enough) refl

  pub prefix_len-child_0 : prefix_len (child_0 s len) ≡ ok (suc len)
  unfolding child_0
  prefix_len-child_0 =
      prefix_len_of s.workchain_id (child_0 s len).shard_prefix_ident (2 * q) (suc len) longer
        split.left_is

  pub prefix_len-child_1 : prefix_len (child_1 s len) ≡ ok (suc len)
  unfolding child_1
  prefix_len-child_1 =
      prefix_len_of s.workchain_id (child_1 s len).shard_prefix_ident (2 * q + 1) (suc len) longer
        split.right_is

  -- The first bits of an account, as many as a child has.
  abbrev pub place : AccountId → ℕ
  place account = from_be (take 8 account) / 2 ^ (64 - suc len)

  pub contains_account-child_0 :
      (account : AccountId) → contains_account (child_0 s len) account ≡ ok (2 * q == place account)
  unfolding child_0
  contains_account-child_0 account =
      contains_marked s.workchain_id (child_0 s len).shard_prefix_ident (2 * q) (suc len) account
        (omega arith) longer split.left_is

  pub contains_account-child_1 :
      (account : AccountId)
      → contains_account (child_1 s len) account ≡ ok (2 * q + 1 == place account)
  unfolding child_1
  contains_account-child_1 account =
      contains_marked s.workchain_id (child_1 s len).shard_prefix_ident (2 * q + 1) (suc len)
        account (omega arith) longer split.right_is

  pub contains_account-parent :
      (account : AccountId)
      → from_be (take 8 account) < 2 ^ 64
      → contains_account s account ≡ ok ((2 * q == place account) || (2 * q + 1 == place account))
  contains_account-parent account bits_fit =
      let short : len ≤ 60 = omega (arith, split.below) in
      let at : 64 - len ≡ suc (64 - suc len) = omega (arith, split.below) in
      let half = halved_again (from_be (take 8 account)) (64 - suc len) in
      contains_parent s q len account short split.fits bits_fit split.parent_is
      ∙ rw (at, half) (ap ok (neighbours q (place account)).0)

-- Splitting a shard with fewer than sixty prefix bits gives two shards of one bit more. An account of the
-- parent belongs to exactly one of them, and no other account belongs to either.
pub contains_account-split_leaf :
    (s : ShardIdent) (len bytes gas : ℕ) (account : AccountId)
    → s.shard_prefix_ident < 2 ^ 64
    → from_be (take 8 account) < 2 ^ 64
    → prefix_len s ≡ ok len
    → len < 60
    → (left : ShardIdent) × (right : ShardIdent) × (in_left : Bool) × (in_right : Bool)
      × (split_leaf (leaf s bytes gas) ≡ ok (internal s (new_leaf left) (new_leaf right)))
      × (prefix_len left ≡ ok (suc len))
      × (prefix_len right ≡ ok (suc len))
      × (contains_account left account ≡ ok in_left)
      × (contains_account right account ≡ ok in_right)
      × (contains_account s account ≡ ok (in_left || in_right))
      × ((in_left && in_right) ≡ false)
contains_account-split_leaf s len bytes gas account fits bits_fit has_len below =
    let (q, split) = marked_children s len fits has_len below in
    let x = from_be (take 8 account) / 2 ^ (64 - suc len) in
    (
      child_0 s len,
      child_1 s len,
      2 * q == x,
      2 * q + 1 == x,
      split_leaf_lem s len q split bytes gas,
      prefix_len-child_0 s len q split,
      prefix_len-child_1 s len q split,
      contains_account-child_0 s len q split account,
      contains_account-child_1 s len q split account,
      contains_account-parent s len q split account bits_fit,
      (neighbours q x).1,
    )
