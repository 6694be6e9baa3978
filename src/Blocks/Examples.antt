-- ===== src/Blocks/Examples.antt =====
-- The laws of blocks at concrete inputs: a masterchain anchor and a block that continues it. The hash of a block
-- is read off its sequence number here.
use the_open_network_x.Prelude.{ℕ, ◌≡◌, refl, true, take, drop, none, some, List, [], ◌∷◌}
use the_open_network_x.Prelude.Ord.{bytes_ord}
use the_open_network_x.Prelude.BTreeMap.{lookup, insert, contains_key}
use the_open_network_x.Prelude.Int.{negsuc}
use the_open_network_x.Primitives.FixedBytes.{Uint256}
use the_open_network_x.Primitives.Hash.{Crypto, zeros, from_ascii, domain_hash}
use the_open_network_x.DataStructures.Address.{is_masterchain, workchain_to_bytes}
use the_open_network_x.DataStructures.Shard
use the_open_network_x.Primitives.Uint
use the_open_network_x.Primitives.Sint
use the_open_network_x.Prelude.Words.{to_be}
use the_open_network_x.DataStructures.Block.{
  BlockHeader, block_header_magic, is_merge_result, is_zero_hash, header_to_bytes, hashes_to_bytes,
  block_hash,
}
use the_open_network_x.Blocks.Flags.{
  announcement_count, validate_flags, is_split_commit, is_merge_commit,
}
use the_open_network_x.Blocks.Validity.{
  RecomputedRoots, is_last, same_roots, validate_ordinary, validate_parents,
  validate_block_successor,
}
use the_open_network_x.Blocks.Masterchain.{
  MasterchainBlockExtra, validate_entries, validate_extra, validate_master_ref,
}
use the_open_network_x.Blocks.Sync.{
  SyncCandidate, stored, validate_role_fields, second_parent, insert_trusted,
  validate_masterchain_refs, validate_candidate, import_batch,
}
use the_open_network_x.Blocks.Sync.Runs.{
  Call, trust, forward, Chain, IsTrusted, step, run, run-Chain, run_keeps,
}

abbrev by_number : Crypto
by_number = record {
  sha256 = λ bs. take 4 (drop 48 bs);
  is_canonical_key = λ k. true;
  verify_strict = λ k m s. true;
}

abbrev header_at : ℕ → Uint256 → BlockHeader
header_at n prev = record {
  magic_constructor = block_header_magic;
  shard = record { workchain_id = negsuc 0; shard_prefix_ident = 0x8000_0000_0000_0000 };
  seq_no = n;
  flags = 0;
  gen_utime = n;
  start_lt = n;
  end_lt = n;
  prev_key_block = 0;
  prev_ref_hash = prev;
  prev_ref_hash_2 = zeros 32;
  master_ref_hash = zeros 32;
  state_root_hash = [];
  in_msg_root_hash = [];
  out_msg_root_hash = [];
}

abbrev roots : RecomputedRoots
roots = record { state_root_hash = []; in_msg_root_hash = []; out_msg_root_hash = [] }

abbrev hash_0 : Uint256
hash_0 = 0 ∷ 0 ∷ 0 ∷ 0 ∷ []

abbrev hash_1 : Uint256
hash_1 = 0 ∷ 0 ∷ 0 ∷ 1 ∷ []

abbrev first : BlockHeader
first = header_at 0 []

abbrev second : BlockHeader
second = header_at 1 hash_0

abbrev no_shards : MasterchainBlockExtra
no_shards = record { shard_entries = [] }

abbrev second_candidate : SyncCandidate
second_candidate = record {
  header = second;
  recomputed_roots = roots;
  masterchain_extra = some no_shards;
  canonicality_proof = none;
}

abbrev calls : List Call
calls = trust first (some no_shards) ∷ forward (second_candidate ∷ []) ∷ []

second_held : lookup hash_1 (run by_number [] calls) ≡ some (stored second_candidate)
unfolding run step insert_trusted import_batch lookup validate_candidate validate_role_fields
    is_masterchain validate_extra validate_entries contains_key insert block_hash domain_hash
    from_ascii header_to_bytes Uint.encode to_be Shard.to_bytes Sint.encode second_parent
    announcement_count is_merge_commit is_split_commit validate_flags validate_master_ref
    validate_masterchain_refs is_last same_roots validate_block_successor validate_ordinary
    validate_parents workchain_to_bytes hashes_to_bytes is_merge_result is_zero_hash
second_held = refl

run-Chain_example : Chain (IsTrusted by_number calls) (run by_number [] calls) hash_1
run-Chain_example = run-Chain by_number calls hash_1 (stored second_candidate) second_held

run_keeps_example :
    lookup hash_1 (run by_number (run by_number [] calls) calls) ≡ some (stored second_candidate)
run_keeps_example = run_keeps by_number calls calls hash_1 (stored second_candidate) second_held
