-- ===== src/DataStructures/Shard.antt =====
-- crates/protocol/onx-data-structures/src/shard.rs. A `u64` masked with `!0 << k` keeps its bits from k
-- up: that is `high_bits k`. Where the masked value is combined with a bit below k by `|`, the
-- two share no bit and the result is their sum.
pub mod Laws
use the_open_network_x.Prelude.{
  ℕ, zero, suc, ◌+◌, ◌-◌, ◌*◌, ◌/◌, ◌%◌, ◌^◌, ◌++◌, Bool, true, false, take, drop, length, Result,
  ok, err, ◌>>=◌, ◌>>◌, map_err, ltb, ◌==◌, if◌then◌else◌,
}
use the_open_network_x.Prelude.Ord.{same}
use the_open_network_x.Prelude.Int.{int_ord}
use the_open_network_x.Prelude.Words.{from_be}
use the_open_network_x.Primitives.Error.{Bytes}
use the_open_network_x.Primitives.Uint
use the_open_network_x.DataStructures.Error.{
  DataStructureError, primitive, invalid_shard_marker, shard_prefix_length_exceeded,
  address_shard_mismatch, truncated_input, trailing_bytes,
}
use the_open_network_x.DataStructures.Address.{
  WorkchainIdent, AccountId, FullAddress, workchain_to_bytes, workchain_from_bytes,
}

pub record ShardIdent : Type 0 where
  pub workchain_id : WorkchainIdent
  pub shard_prefix_ident : ℕ

abbrev pub root_prefix : ℕ
root_prefix = 0x8000_0000_0000_0000

unfoldable pub high_bits : ℕ → ℕ → ℕ
high_bits k v = v / 2 ^ k * 2 ^ k

-- `u64::trailing_zeros` of a value that is not zero, on the bits that are left.
unfoldable pub trailing_zeros : ℕ → ℕ → ℕ
trailing_zeros zero v = 0
trailing_zeros (suc n) v = let rest = trailing_zeros n (v / 2) in if v % 2 == 1 then 0 else suc rest

unfoldable pub prefix_len : ShardIdent → Result DataStructureError ℕ
unfolding trailing_zeros
prefix_len self =
    if self.shard_prefix_ident == 0
    then err invalid_shard_marker
    else let len = 63 - trailing_zeros 64 self.shard_prefix_ident in
      if ltb 60 len then err (shard_prefix_length_exceeded len) else ok len

unfoldable pub validate : ShardIdent → Result DataStructureError (Unit {0})
unfolding prefix_len
validate self = do len ← prefix_len self; ok tt

unfoldable pub new_shard : WorkchainIdent → ℕ → Result DataStructureError ShardIdent
unfolding validate
new_shard workchain_id prefix_ident = do
  let shard : ShardIdent = record { workchain_id = workchain_id; shard_prefix_ident = prefix_ident }
  validate shard
  ok shard

unfoldable pub root : WorkchainIdent → ShardIdent
root workchain_id = record { workchain_id = workchain_id; shard_prefix_ident = root_prefix }

-- The mask is zero for the empty prefix.
unfoldable pub from_prefix_bits : WorkchainIdent → ℕ → ℕ → Result DataStructureError ShardIdent
unfolding high_bits
from_prefix_bits workchain_id bits len =
    if ltb 60 len
    then err (shard_prefix_length_exceeded len)
    else let masked = if len == 0 then 0 else high_bits (64 - len) bits in
      ok (record { workchain_id = workchain_id; shard_prefix_ident = masked + 2 ^ (63 - len) })

unfoldable pub contains_account : ShardIdent → AccountId → Result DataStructureError Bool
unfolding prefix_len high_bits
contains_account self account_id = do
  len ← prefix_len self
  let account_bits = from_be (take 8 account_id)
  if len == 0
      then ok true
      else ok (high_bits (64 - len) self.shard_prefix_ident == high_bits (64 - len) account_bits)

unfoldable pub validate_account_id : ShardIdent → AccountId → Result DataStructureError (Unit {0})
unfolding contains_account
validate_account_id self account_id = do
  inside ← contains_account self account_id
  if inside then ok tt else err address_shard_mismatch

unfoldable pub validate_full_address :
    ShardIdent → FullAddress → Result DataStructureError (Unit {0})
unfolding validate_account_id
validate_full_address self address =
    if same self.workchain_id address.workchain_id
    then validate_account_id self address.account_id
    else err address_shard_mismatch

unfoldable pub to_bytes : ShardIdent → Bytes
unfolding workchain_to_bytes
to_bytes self = workchain_to_bytes self.workchain_id ++ Uint.encode 8 self.shard_prefix_ident

unfoldable pub from_bytes : Bytes → Result DataStructureError ShardIdent
unfolding workchain_from_bytes validate
from_bytes bytes =
    if ltb (length bytes) 12
    then err (truncated_input 12 (length bytes))
    else if ltb 12 (length bytes)
    then err (trailing_bytes (length bytes - 12))
    else do
      let workchain_id = workchain_from_bytes (take 4 bytes)
      prefix_ident ← map_err primitive (Uint.decode_exact 8 (drop 4 bytes))
      let shard : ShardIdent = record {
        workchain_id = workchain_id;
        shard_prefix_ident = prefix_ident;
      }
      validate shard
      ok shard
