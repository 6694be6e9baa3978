-- ===== src/Sharding/Examples.antt =====
-- The laws of the shard tree and its schedule at concrete inputs.
use the_open_network_x.Prelude.{
  ℕ, ◌≡◌, refl, Bool, true, false, some, ◌&&◌, ◌||◌, List, [], ◌∷◌, arith, ok,
}
use mathlib.Core.List.{Perm}
use the_open_network_x.Prelude.Int.{pos}
use the_open_network_x.Prelude.Ord.{bytes_ord}
use the_open_network_x.Prelude.Sort.{IsOrdered}
use the_open_network_x.Primitives.Hash.{Crypto}
use the_open_network_x.Prelude.Words.{from_be}
use the_open_network_x.DataStructures.Address.{AccountId}
use the_open_network_x.DataStructures.Message.{Message, MessageType, validate_dest_shard}
use the_open_network_x.StateModel.Account.{uninitialized_state}
use the_open_network_x.DataStructures.Shard.{
  high_bits, validate_account_id, validate_full_address, ShardIdent, trailing_zeros, prefix_len,
  contains_account,
}
use the_open_network_x.Sharding.Tree.{leaf, internal, new_leaf, split_leaf}
use the_open_network_x.Sharding.Tree.Partition.{contains_account-split_leaf}
use the_open_network_x.Sharding.Migration.{
  ShardState, owns, check_accounts, check_messages, validate_ownership, cmp_messages,
  split_shard_state, merge_shard_states,
}
use the_open_network_x.Sharding.Migration.Split.{IsShardState}
use the_open_network_x.Sharding.Migration.Merge.{merge_shard_states-split}

abbrev both_prepares : List ℕ
both_prepares = 92 ∷ 92 ∷ []

-- The shard of the prefix 10, and an account in its upper half.
abbrev basechain_10 : ShardIdent
basechain_10 = record { workchain_id = pos 0; shard_prefix_ident = 0xa000_0000_0000_0000 }

abbrev account_b0 : AccountId
account_b0 =
    0xb0 ∷ 0 ∷ 0 ∷ 0 ∷ 0 ∷ 0 ∷ 0 ∷ 0 ∷ 0 ∷ 0 ∷ 0 ∷ 0 ∷ 0 ∷ 0 ∷ 0 ∷ 0 ∷ 0 ∷ 0 ∷ 0 ∷ 0 ∷ 0 ∷ 0 ∷ 0 ∷ 0
    ∷ 0 ∷ 0 ∷ 0 ∷ 0 ∷ 0 ∷ 0 ∷ 0 ∷ 0 ∷ []

abbrev identity_hash : Crypto
identity_hash = record {
  sha256 = λ bs. bs;
  is_canonical_key = λ k. true;
  verify_strict = λ k m s. true;
}

abbrev letter_to_b0 : Message
letter_to_b0 = record {
  msg_type = MessageType.internal;
  src_address = record { workchain_id = pos 0; account_id = [] };
  dest_address = record { workchain_id = pos 0; account_id = account_b0 };
  amount_nanos = 5;
  extra_currencies = [];
  created_lt = 3;
  body_cell_hash = [];
}

basechain_10-prefix : prefix_len basechain_10 ≡ ok 2
unfolding prefix_len trailing_zeros
basechain_10-prefix = refl

contains_account-split_leaf_example :
    (left : ShardIdent) × (right : ShardIdent) × (in_left : Bool) × (in_right : Bool) × (split_leaf
        (leaf basechain_10 0 0)
      ≡ ok (internal basechain_10 (new_leaf left) (new_leaf right)))
    × (prefix_len left ≡ ok 3)
    × (prefix_len right ≡ ok 3)
    × (contains_account left account_b0 ≡ ok in_left)
    × (contains_account right account_b0 ≡ ok in_right)
    × (contains_account basechain_10 account_b0 ≡ ok (in_left || in_right))
    × ((in_left && in_right) ≡ false)
unfolding from_be
contains_account-split_leaf_example =
    contains_account-split_leaf basechain_10 2 0 0 account_b0 (omega arith) (omega arith)
      basechain_10-prefix (omega arith)

-- The state of that shard, with one account and a message to it.
abbrev basechain_state : ShardState
basechain_state = record {
  shard = basechain_10;
  accounts = (account_b0, uninitialized_state) ∷ [];
  pending_messages = letter_to_b0 ∷ [];
}

basechain_state-IsShardState : IsShardState basechain_state
unfolding validate_ownership check_accounts check_messages owns validate_dest_shard
    validate_full_address validate_account_id contains_account prefix_len trailing_zeros high_bits
    from_be
basechain_state-IsShardState = record {
  sorted = (tt, tt);
  have_bits = (omega arith, tt);
  dests_have_bits = (omega arith, tt);
  owned = refl;
}

merge_shard_states-split_example :
    (left : ShardState) × (right : ShardState) × (merged : ShardState) × (split_shard_state
        identity_hash basechain_state
      ≡ some (ok (left, right)))
    × (merge_shard_states identity_hash left right ≡ ok merged)
    × (merged.shard ≡ basechain_10)
    × (merged.accounts ≡ basechain_state.accounts)
    × Perm merged.pending_messages basechain_state.pending_messages
    × IsOrdered (cmp_messages identity_hash) merged.pending_messages
merge_shard_states-split_example =
    merge_shard_states-split identity_hash basechain_state 2 basechain_state-IsShardState
      (omega arith) basechain_10-prefix (omega arith)
