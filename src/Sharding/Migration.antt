-- ===== src/Sharding/Migration.antt =====
-- crates/protocol/onx-sharding/src/pipeline.rs: the states of the shards of a split and a merge.
pub mod Routing
pub mod Split
pub mod Merge
use Prim.Native.Nat.{compare, Ordering}
use Prim.Native.Nat.Ordering.{lt, eq, gt}
use the_open_network_x.Prelude.{
  ℕ, ◌+◌, ◌-◌, ◌*◌, ◌^◌, ◌++◌, Bool, true, false, not, ◌&&◌, ◌||◌, Option, none, some, List, [],
  ◌∷◌, Result, ok, err, ◌>>=◌, ◌>>◌, require, map_err, is_ok, ◌==◌, if◌then◌else◌,
}
use the_open_network_x.Prelude.Ord.{same, cmp_bytes, bytes_ord}
use the_open_network_x.Prelude.Int.{int_ord}
use the_open_network_x.Prelude.Bits.{xor}
use the_open_network_x.Prelude.BTreeMap.{BTreeMap, insert}
use the_open_network_x.Prelude.BTreeMap.Extend.{extend}
use the_open_network_x.Prelude.Sort.{sort_by}
use the_open_network_x.Primitives.Hash.{Crypto}
use the_open_network_x.DataStructures.Address.{AccountId}
use the_open_network_x.DataStructures.Shard.{
  ShardIdent, high_bits, prefix_len, from_prefix_bits, contains_account,
}
use the_open_network_x.DataStructures.Message.{Message, message_hash, validate_dest_shard}
use the_open_network_x.StateModel.Account.{AccountState}
use the_open_network_x.Sharding.Tree.{
  ShardingError, account_outside_shard, message_outside_shard, invalid_merge_siblings,
  ShardTreeNode, leaf, internal, new_leaf, split_leaf,
}

abbrev pub Accounts : Type 0
Accounts = BTreeMap AccountId AccountState

pub record ShardState : Type 0 where
  pub shard : ShardIdent
  pub accounts : Accounts
  pub pending_messages : List Message

-- `contains_account` with its error as that of the migration.
unfoldable pub owns : ShardIdent → AccountId → Result ShardingError Bool
owns shard account = map_err (λ _. account_outside_shard) (contains_account shard account)

unfoldable pub check_accounts : ShardIdent → Accounts → Result ShardingError (Unit {0})
check_accounts shard [] = ok tt
check_accounts shard ((account, state) ∷ accounts) = do
  inside ← owns shard account
  require inside account_outside_shard
  check_accounts shard accounts

unfoldable pub check_messages : ShardIdent → List Message → Result ShardingError (Unit {0})
check_messages shard [] = ok tt
check_messages shard (message ∷ messages) = do
  require (is_ok (validate_dest_shard message shard)) message_outside_shard
  check_messages shard messages

unfoldable pub validate_ownership : ShardState → Result ShardingError (Unit {0})
validate_ownership self = do
  check_accounts self.shard self.accounts
  check_messages self.shard self.pending_messages

-- The accounts of the left child go to the first map, all others to the second.
unfoldable pub route_accounts :
    ShardIdent → Accounts → Accounts → Accounts → Result ShardingError (Accounts × Accounts)
route_accounts left_shard [] left right = ok (left, right)
route_accounts left_shard ((account, state) ∷ accounts) left right = do
  inside ← owns left_shard account
  if inside
      then route_accounts left_shard accounts (insert account state left) right
      else route_accounts left_shard accounts left (insert account state right)

unfoldable pub route_messages :
    ShardIdent
    → ShardIdent
    → List Message
    → List Message
    → List Message
    → Result ShardingError (List Message × List Message)
route_messages left_shard right_shard [] left right = ok (left, right)
route_messages left_shard right_shard (message ∷ messages) left right =
    let in_left = route_messages left_shard right_shard messages (left ++ message ∷ []) right in
    let in_right = route_messages left_shard right_shard messages left (right ++ message ∷ []) in
    if is_ok (validate_dest_shard message left_shard)
    then in_left
    else if is_ok (validate_dest_shard message right_shard)
    then in_right
    else err message_outside_shard

unfoldable pub common_parent : ShardIdent → ShardIdent → Result ShardingError ShardIdent
common_parent first second = do
  length ← map_err (λ _. invalid_merge_siblings) (prefix_len first)
  require (not (length == 0)) invalid_merge_siblings
  require (same first.workchain_id second.workchain_id) invalid_merge_siblings
  require (elim (prefix_len second) [ ok other ↦ other == length | err _ ↦ false ])
      invalid_merge_siblings
  let differing =
      high_bits (64 - length) (xor 64 first.shard_prefix_ident second.shard_prefix_ident)
  require (differing == 2 ^ (64 - length)) invalid_merge_siblings
  map_err (λ _. invalid_merge_siblings)
      (from_prefix_bits first.workchain_id first.shard_prefix_ident (length - 1))

module _ (crypto : Crypto) where
  -- By logical time, and by hash where that is the same.
  abbrev pub cmp_messages : Message → Message → Ordering
  cmp_messages left right = elim (compare left.created_lt right.created_lt) [
    | lt ↦ lt
    | eq ↦ cmp_bytes (message_hash crypto left) (message_hash crypto right)
    | gt ↦ gt
  ]

  unfoldable pub sort_messages : List Message → List Message
  sort_messages messages = sort_by cmp_messages messages

  -- The states of the two children.
  unfoldable pub divide :
      ShardState → ShardIdent → ShardIdent → Result ShardingError (ShardState × ShardState)
  divide parent left_shard right_shard = do
    accounts ← route_accounts left_shard parent.accounts [] []
    messages ← route_messages left_shard right_shard parent.pending_messages [] []
    let left : ShardState = record {
      shard = left_shard;
      accounts = accounts.0;
      pending_messages = sort_messages messages.0;
    }
    let right : ShardState = record {
      shard = right_shard;
      accounts = accounts.1;
      pending_messages = sort_messages messages.1;
    }
    ok (left, right)

  -- Two leaves under a node; no other tree can be reached, and the source panics there.
  abbrev pub divide_by :
      ShardState → ShardTreeNode → Option (Result ShardingError (ShardState × ShardState))
  divide_by parent (internal shard (leaf left _ _) (leaf right _ _)) =
      some (divide parent left right)
  divide_by parent _ = none

  -- None is a panic.
  unfoldable pub split_shard_state :
      ShardState → Option (Result ShardingError (ShardState × ShardState))
  split_shard_state parent =
      elim (validate_ownership parent >> split_leaf (new_leaf parent.shard)) [
        | ok tree ↦ divide_by parent tree
        | err e ↦ some (err e)
      ]

  unfoldable pub merge_shard_states : ShardState → ShardState → Result ShardingError ShardState
  merge_shard_states first second = do
    validate_ownership first
    validate_ownership second
    parent ← common_parent first.shard second.shard
    ok (record {
      shard = parent;
      accounts = extend first.accounts second.accounts;
      pending_messages = sort_messages (first.pending_messages ++ second.pending_messages);
    })
