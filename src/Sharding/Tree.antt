-- ===== src/Sharding/Tree.antt =====
-- crates/protocol/onx-sharding/src/lib.rs. Setting and clearing one bit of a `u64` adds or subtracts its
-- power of two where the bit changes.
pub mod Marker
pub mod Partition
use the_open_network_x.Prelude.{
  ℕ, ◌+◌, ◌-◌, ◌*◌, ◌/◌, ◌%◌, ◌^◌, ◌++◌, Bool, true, false, ◌&&◌, ◌∷◌, Result, ok, err, ◌>>=◌,
  map_err, ltb, leb, ◌==◌, if◌then◌else◌,
}
use the_open_network_x.Primitives.FixedBytes.{Uint256}
use the_open_network_x.Primitives.Hash.{Crypto, block_header_v1, domain_hash}
use the_open_network_x.DataStructures.Shard.{ShardIdent, prefix_len}
use the_open_network_x.DataStructures.Shard

pub data ShardingError : Type 0 where
  invalid_shard_prefix_length : ShardingError
  non_partitioning_leaves : ShardingError
  announcement_sequence_violation : ShardingError
  task_group_drift_exceeded : ShardingError
  invalid_merge_siblings : ShardingError
  account_outside_shard : ShardingError
  message_outside_shard : ShardingError

pub data ShardTreeNode : Type 0 where
  leaf : ShardIdent → ℕ → ℕ → ShardTreeNode
  internal : ShardIdent → ShardTreeNode → ShardTreeNode → ShardTreeNode

abbrev pub new_leaf : ShardIdent → ShardTreeNode
new_leaf shard = leaf shard 0 0

unfoldable pub test_bit : ℕ → ℕ → Bool
test_bit k v = v / 2 ^ k % 2 == 1

-- `v & !(1 << k)` and `v | (1 << k)`.
unfoldable pub clear_bit : ℕ → ℕ → ℕ
unfolding test_bit
clear_bit k v = if test_bit k v then v - 2 ^ k else v

unfoldable pub set_bit : ℕ → ℕ → ℕ
unfolding test_bit
set_bit k v = if test_bit k v then v else v + 2 ^ k

unfoldable pub child_0 : ShardIdent → ℕ → ShardIdent
child_0 shard len = record {
  workchain_id = shard.workchain_id;
  shard_prefix_ident = set_bit (62 - len) (clear_bit (63 - len) shard.shard_prefix_ident);
}

unfoldable pub child_1 : ShardIdent → ℕ → ShardIdent
child_1 shard len = record {
  workchain_id = shard.workchain_id;
  shard_prefix_ident = set_bit (62 - len) (set_bit (63 - len) shard.shard_prefix_ident);
}

unfoldable pub split_leaf : ShardTreeNode → Result ShardingError ShardTreeNode
split_leaf (leaf shard bytes gas) = do
  len ← map_err (λ _. invalid_shard_prefix_length) (prefix_len shard)
  if leb 60 len
      then err invalid_shard_prefix_length
      else ok (internal shard (new_leaf (child_0 shard len)) (new_leaf (child_1 shard len)))
split_leaf (internal shard left right) = err invalid_shard_prefix_length

-- The products wrap at 64 bits, as in a build without overflow checks.
unfoldable pub should_split : ℕ → ℕ → ℕ → ℕ → Bool
should_split block_bytes_avg byte_limit gas_used_avg gas_limit =
    leb (byte_limit * 75 % 2 ^ 64) (block_bytes_avg * 100 % 2 ^ 64)
    && leb (gas_limit * 75 % 2 ^ 64) (gas_used_avg * 100 % 2 ^ 64)

unfoldable pub should_merge : ℕ → ℕ → ℕ → ℕ → Bool
should_merge block_bytes_avg byte_limit gas_used_avg gas_limit =
    leb (block_bytes_avg * 100 % 2 ^ 64) (byte_limit * 20 % 2 ^ 64)
    && leb (gas_used_avg * 100 % 2 ^ 64) (gas_limit * 20 % 2 ^ 64)

unfoldable pub tree_hash : Crypto → ShardTreeNode → Uint256
tree_hash crypto (leaf shard bytes gas) =
    domain_hash crypto block_header_v1 (0x00 ∷ Shard.to_bytes shard)
tree_hash crypto (internal shard left right) =
    domain_hash crypto block_header_v1
      (0x01 ∷ (Shard.to_bytes shard ++ (tree_hash crypto left ++ tree_hash crypto right)))
