-- ===== src/Blocks/Sync/Laws.antt =====
-- The index of headers stays a set of chains that begin at trusted anchors.
use the_open_network_x.Prelude.{
  ◌≡◌, ◌≢◌, sym, ap, subst, ◌∙◌, ◌⊎◌, inl, inr, true, false, some, ok, Bool-cases, Result-cases,
  Option-cases, arith,
}
use the_open_network_x.Prelude.Ord.{same, same→eq, same_refl, bytes_ord}
use the_open_network_x.Prelude.BTreeMap.{
  lookup, insert, contains_key, lookup-insert_self, lookup-insert_ne,
}
use the_open_network_x.Primitives.FixedBytes.{Uint256}
use the_open_network_x.Primitives.Hash.{Crypto}
use the_open_network_x.DataStructures.Address.{is_masterchain}
use the_open_network_x.DataStructures.Block.{BlockHeader, block_hash}
use the_open_network_x.Blocks.Masterchain.{MasterchainBlockExtra, is_canonical}
use the_open_network_x.Blocks.Validity.{validate_block_successor}
use the_open_network_x.Blocks.Validity.Laws.{Follows, validate_block_successor-Follows}
use the_open_network_x.Blocks.Sync.{
  SyncCandidate, StoredBlock, BlockSyncEngine, stored, second_parent, validate_masterchain_refs,
  validate_candidate,
}

-- A new entry hides none that is there.
pub lookup-insert_new :
    (m : BlockSyncEngine) (new : Uint256) (b : StoredBlock) (h : Uint256) {held : StoredBlock}
    → contains_key new m ≡ false
    → lookup h m ≡ some held
    → lookup h (insert new b m) ≡ some held
unfolding contains_key
lookup-insert_new m new b h {held} absent found =
    lookup-insert_ne h new b m
      (λ e. absurd (let same_found = ap (λ k. lookup k m) e in ground arith))
    ∙ found

module _ (crypto : Crypto) where
  -- A block of a shard is committed by the configuration of a masterchain block that is held.
  abbrev pub IsCommitted : BlockSyncEngine → BlockHeader → Type 0
  IsCommitted m header =
      (proof_hash : Uint256) × (proof : StoredBlock) × (extra : MasterchainBlockExtra) × (lookup
          proof_hash m
        ≡ some proof)
      × (proof.masterchain_extra ≡ some extra)
      × (is_canonical extra header.shard (block_hash crypto header) header.seq_no ≡ true)

  -- The parent is held under the hash that the block names, and the block follows it.
  abbrev pub IsLinked : BlockSyncEngine → BlockHeader → Type 0
  IsLinked m header =
      (parent : StoredBlock) × (lookup header.prev_ref_hash m ≡ some parent)
      × (header.prev_ref_hash ≡ block_hash crypto parent.header)
      × Follows crypto header parent.header
      × ((is_masterchain header.shard.workchain_id ≡ true) ⊎ IsCommitted m header)

  IsLinked-insert :
      (m : BlockSyncEngine) (new : Uint256) (b : StoredBlock) (header : BlockHeader)
      → contains_key new m ≡ false
      → IsLinked m header
      → IsLinked (insert new b m) header
  IsLinked-insert m new b header absent (parent, found, named, follows, inl master) = (
    parent,
    lookup-insert_new m new b header.prev_ref_hash absent found,
    named,
    follows,
    inl master,
  )
  IsLinked-insert m new b header absent
        (parent, found, named, follows, inr (k, proof, extra, held, has, listed)) =
      (
        parent,
        lookup-insert_new m new b header.prev_ref_hash absent found,
        named,
        follows,
        inr (k, proof, extra, lookup-insert_new m new b k absent held, has, listed),
      )

  -- Every block is held under its own hash, and is an anchor or linked.
  abbrev pub IsIndex : (Uint256 → Type 0) → BlockSyncEngine → Type 0
  IsIndex IsAnchor m =
      (h : Uint256) (b : StoredBlock)
      → lookup h m ≡ some b
      → (h ≡ block_hash crypto b.header) × (IsAnchor h ⊎ IsLinked m b.header)

  pub insert-IsIndex :
      (IsAnchor : Uint256 → Type 0) (m : BlockSyncEngine) (b : StoredBlock)
      → contains_key (block_hash crypto b.header) m ≡ false
      → IsIndex IsAnchor m
      → IsAnchor (block_hash crypto b.header) ⊎ IsLinked m b.header
      → IsIndex IsAnchor (insert (block_hash crypto b.header) b m)
  insert-IsIndex IsAnchor m b absent index reason h held found =
      let new = block_hash crypto b.header in
      elim (Bool-cases (same h new)) [
        | inl it ↦
            let h_is : h ≡ new = same→eq h new it in
            let both : some b ≡ some held =
              sym (lookup-insert_self new b m)
              ∙ ap (λ k. lookup k (insert new b m)) (sym h_is)
              ∙ found in
            let b_is : b ≡ held = ground (arith, both) in
            let kept : IsAnchor h ⊎ IsLinked (insert new b m) b.header = elim reason [
              | inl a ↦ inl (subst IsAnchor (sym h_is) a)
              | inr l ↦ inr (IsLinked-insert m new b b.header absent l)
            ] in
            subst
              (λ x.
                (h ≡ block_hash crypto x.header)
                × (IsAnchor h ⊎ IsLinked (insert new b m) x.header))
              b_is (h_is, kept)
        | inr other ↦
            let apart : h ≢ new =
              λ e. absurd (let again = ap (λ k. same k new) e in ground (arith, same_refl new)) in
            let (own, why) = index h held (sym (lookup-insert_ne h new b m apart) ∙ found) in
            (
              own,
              elim why [
                | inl a ↦ inl a
                | inr l ↦ inr (IsLinked-insert m new b held.header absent l)
              ],
            )
      ]

  validate_masterchain_refs_lem :
      (c : SyncCandidate) (m : BlockSyncEngine)
      → validate_masterchain_refs crypto c m ≡ ok tt
      → (is_masterchain c.header.shard.workchain_id ≡ true) ⊎ IsCommitted m c.header
  unfolding validate_masterchain_refs
  validate_masterchain_refs_lem c m h =
      elim (Bool-cases (is_masterchain c.header.shard.workchain_id)) [
        | inl master ↦ inl master
        | inr shard ↦ elim (Option-cases (lookup c.header.master_ref_hash m)) [
          | inl missing ↦ absurd (ground arith)
          | inr (master, has_master) ↦ elim (Option-cases c.canonicality_proof) [
            | inl missing ↦ absurd (ground arith)
            | inr (k, has_k) ↦ elim (Option-cases (lookup k m)) [
              | inl missing ↦ absurd (ground arith)
              | inr (proof, held) ↦ elim (Option-cases proof.masterchain_extra) [
                | inl missing ↦ absurd (ground arith)
                | inr (extra, has) ↦ inr (k, proof, extra, held, has, ground arith)
              ]
            ]
          ]
        ]
      ]

  pub validate_candidate_lem :
      (c : SyncCandidate) (m : BlockSyncEngine) {m' : BlockSyncEngine}
      → validate_candidate crypto c m ≡ ok m'
      → (contains_key (block_hash crypto c.header) m ≡ false)
        × (m' ≡ insert (block_hash crypto c.header) (stored c) m)
        × IsLinked m c.header
  unfolding validate_candidate
  validate_candidate_lem c m h = elim (Option-cases (lookup c.header.prev_ref_hash m)) [
    | inl missing ↦ absurd (ground arith)
    | inr (parent, found) ↦ elim (Result-cases (second_parent c.header m)) [
      | inl (parent_2, second) ↦
          let accepted : validate_block_successor crypto c.header parent.header parent_2
                c.recomputed_roots
              ≡ ok tt =
            ground arith in
          let (named, follows) =
            validate_block_successor-Follows crypto c.header parent.header parent_2
              c.recomputed_roots accepted in
          let refs_ok : validate_masterchain_refs crypto c m ≡ ok tt = ground arith in
          (
            ground arith,
            ground arith,
            (parent, found, named, follows, validate_masterchain_refs_lem c m refs_ok),
          )
      | inr (x, refused) ↦ absurd (ground arith)
    ]
  ]
