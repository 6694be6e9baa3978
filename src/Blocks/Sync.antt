-- ===== src/Blocks/Sync.antt =====
-- crates/protocol/onx-blocks/src/sync.rs. The hash map from hashes to blocks is an ordered map here: it is only
-- looked up and inserted into. The engine is that map.
pub mod Laws
pub mod Runs
use the_open_network_x.Prelude.{
  ℕ, Bool, true, false, not, Option, none, some, List, [], ◌∷◌, ◌++◌, Result, ok, err, ◌>>=◌, ◌>>◌,
  require, ok_or, map_err, if◌then◌else◌,
}
use the_open_network_x.Prelude.Ord.{bytes_ord}
use the_open_network_x.Prelude.BTreeMap.{BTreeMap, lookup, insert, contains_key}
use the_open_network_x.Primitives.FixedBytes.{Uint256}
use the_open_network_x.Primitives.Hash.{Crypto, zeros}
use the_open_network_x.DataStructures.Address.{is_masterchain}
use the_open_network_x.DataStructures.Block.{BlockHeader, is_merge_result, block_hash}
use the_open_network_x.Blocks.Error.{BlocksError}
use the_open_network_x.Blocks.Validity.{RecomputedRoots, validate_block_successor}
use the_open_network_x.Blocks.Masterchain.{
  MasterchainBlockExtra, validate_extra, is_canonical, validate_master_ref,
}

pub record SyncCandidate : Type 0 where
  pub header : BlockHeader
  pub recomputed_roots : RecomputedRoots
  pub masterchain_extra : Option MasterchainBlockExtra
  pub canonicality_proof : Option Uint256

pub record StoredBlock : Type 0 where
  pub header : BlockHeader
  pub masterchain_extra : Option MasterchainBlockExtra

abbrev pub BlockSyncEngine : Type 0
BlockSyncEngine = BTreeMap Uint256 StoredBlock

pub data SyncError : Type 0 where
  block : BlocksError → SyncError
  duplicate_block : Uint256 → SyncError
  missing_parent : Uint256 → SyncError
  missing_masterchain_proof : Uint256 → SyncError
  missing_masterchain_extra : SyncError
  unexpected_masterchain_extra : SyncError
  missing_canonicality_proof : SyncError
  unexpected_canonicality_proof : SyncError
  invalid_canonicality_proof : Uint256 → SyncError

abbrev pub is_some {ℓ} : {A : Type ℓ} → Option A → Bool
is_some none = false
is_some (some a) = true

unfoldable pub validate_role_fields : SyncCandidate → Result SyncError (Unit {0})
validate_role_fields candidate =
    if is_masterchain candidate.header.shard.workchain_id
    then elim candidate.masterchain_extra [
      | none ↦ err missing_masterchain_extra
      | some extra ↦ do
        map_err block (validate_extra extra)
        require (not (is_some candidate.canonicality_proof)) unexpected_canonicality_proof
        ok tt
    ]
    else if is_some candidate.masterchain_extra
    then err unexpected_masterchain_extra
    else if is_some candidate.canonicality_proof
    then ok tt
    else err missing_canonicality_proof

-- What is kept of a candidate.
abbrev pub stored : SyncCandidate → StoredBlock
stored candidate = record {
  header = candidate.header;
  masterchain_extra = candidate.masterchain_extra;
}

-- The second parent, looked up where the flags claim a merge.
unfoldable pub second_parent : BlockHeader → BlockSyncEngine → Result SyncError (Option BlockHeader)
second_parent header staged =
    if is_merge_result header.flags
    then elim (lookup header.prev_ref_hash_2 staged) [
      | none ↦ err (missing_parent header.prev_ref_hash_2)
      | some p2 ↦ ok (some p2.header)
    ]
    else ok none

module _ (crypto : Crypto) where
  -- A trusted anchor as the candidate that the source builds for it.
  abbrev pub anchor : BlockHeader → Option MasterchainBlockExtra → SyncCandidate
  anchor header extra = record {
    header = header;
    recomputed_roots = record {
      state_root_hash = header.state_root_hash;
      in_msg_root_hash = header.in_msg_root_hash;
      out_msg_root_hash = header.out_msg_root_hash;
    };
    masterchain_extra = extra;
    canonicality_proof = if is_masterchain header.shard.workchain_id then none else some (zeros 32);
  }

  unfoldable pub insert_trusted :
      BlockSyncEngine
      → BlockHeader
      → Option MasterchainBlockExtra
      → Result SyncError BlockSyncEngine
  insert_trusted self header extra = do
    validate_role_fields (anchor header extra)
    require (not (contains_key (block_hash crypto header) self))
        (duplicate_block (block_hash crypto header))
    ok (insert (block_hash crypto header) (stored (anchor header extra)) self)

  -- The references of a candidate to the masterchain.
  unfoldable pub validate_masterchain_refs :
      SyncCandidate → BlockSyncEngine → Result SyncError (Unit {0})
  validate_masterchain_refs candidate staged =
      if is_masterchain candidate.header.shard.workchain_id
      then map_err block (validate_master_ref crypto candidate.header none)
      else elim (lookup candidate.header.master_ref_hash staged) [
        | none ↦ err (missing_masterchain_proof candidate.header.master_ref_hash)
        | some master ↦ do
          map_err block (validate_master_ref crypto candidate.header (some master.header))
          proof_hash ← ok_or candidate.canonicality_proof missing_canonicality_proof
          proof ← ok_or (lookup proof_hash staged) (missing_masterchain_proof proof_hash)
          extra ← ok_or proof.masterchain_extra missing_masterchain_extra
          require
              (is_canonical extra candidate.header.shard (block_hash crypto candidate.header)
                candidate.header.seq_no)
              (invalid_canonicality_proof proof_hash)
          ok tt
      ]

  unfoldable pub validate_candidate :
      SyncCandidate → BlockSyncEngine → Result SyncError BlockSyncEngine
  validate_candidate candidate staged = do
    validate_role_fields candidate
    require (not (contains_key (block_hash crypto candidate.header) staged))
        (duplicate_block (block_hash crypto candidate.header))
    parent ←
        ok_or (lookup candidate.header.prev_ref_hash staged)
          (missing_parent candidate.header.prev_ref_hash)
    parent_2 ← second_parent candidate.header staged
    map_err block (
        validate_block_successor crypto candidate.header parent.header parent_2
          candidate.recomputed_roots)
    validate_masterchain_refs candidate staged
    ok (insert (block_hash crypto candidate.header) (stored candidate) staged)

  -- The loop over the candidates; the engine takes the staged map only at the end, so a batch that fails
  -- leaves it as it was.
  unfoldable pub import_batch :
      BlockSyncEngine → List SyncCandidate → Result SyncError BlockSyncEngine
  import_batch staged [] = ok staged
  import_batch staged (candidate ∷ candidates) = do
    next ← validate_candidate candidate staged
    import_batch next candidates

unfoldable pub reverse : List SyncCandidate → List SyncCandidate
reverse [] = []
reverse (candidate ∷ candidates) = reverse candidates ++ candidate ∷ []

unfoldable pub import_reverse_batch :
    Crypto → BlockSyncEngine → List SyncCandidate → Result SyncError BlockSyncEngine
import_reverse_batch crypto self candidates = import_batch crypto self (reverse candidates)

unfoldable pub header_of : BlockSyncEngine → Uint256 → Option BlockHeader
header_of self hash = elim (lookup hash self) [ none ↦ none | some held ↦ some held.header ]
