-- ===== src/Blocks/Sync/Runs.antt =====
-- Runs of the synchronisation: trusted anchors and batches in any order.
use the_open_network_x.Prelude.{
  ℕ, zero, suc, ◌<◌, ◌≡◌, refl, sym, ap, subst, ◌∙◌, ◌⊎◌, inl, inr, false, Option, some, List, [],
  ◌∷◌, Result, ok, err, Result-cases, arith,
}
use the_open_network_x.Prelude.Ord.{bytes_ord}
use the_open_network_x.Prelude.BTreeMap.{lookup, insert, contains_key}
use the_open_network_x.Primitives.FixedBytes.{Uint256}
use the_open_network_x.Primitives.Hash.{Crypto}
use the_open_network_x.DataStructures.Block.{BlockHeader, block_hash}
use the_open_network_x.Blocks.Masterchain.{MasterchainBlockExtra}
use the_open_network_x.Blocks.Sync.{
  SyncCandidate, StoredBlock, BlockSyncEngine, SyncError, stored, anchor, validate_role_fields,
  insert_trusted, validate_candidate, import_batch, import_reverse_batch, reverse,
}
use the_open_network_x.Blocks.Sync.Laws.{
  IsIndex, insert-IsIndex, validate_candidate_lem, lookup-insert_new,
}

pub data Call : Type 0 where
  trust : BlockHeader → Option MasterchainBlockExtra → Call
  forward : List SyncCandidate → Call
  backward : List SyncCandidate → Call

-- A chain of held blocks from a block down to an anchor, each naming the next as its parent.
pub data Chain (IsAnchor : Uint256 → Type 0) (m : BlockSyncEngine) : Uint256 → Type 0 where
  root : (h : Uint256) → IsAnchor h → Chain IsAnchor m h
  child :
      (h : Uint256) (b : StoredBlock)
      → lookup h m ≡ some b
      → Chain IsAnchor m b.header.prev_ref_hash
      → Chain IsAnchor m h

module _ (crypto : Crypto) where
  abbrev pub result_of : BlockSyncEngine → Call → Result SyncError BlockSyncEngine
  result_of self (trust header extra) = insert_trusted crypto self header extra
  result_of self (forward candidates) = import_batch crypto self candidates
  result_of self (backward candidates) = import_reverse_batch crypto self candidates

  -- A call that fails leaves the engine as it was.
  unfoldable pub step : BlockSyncEngine → Call → BlockSyncEngine
  step self c = elim (result_of self c) [ ok next ↦ next | err x ↦ self ]

  unfoldable pub run : BlockSyncEngine → List Call → BlockSyncEngine
  run self [] = self
  run self (c ∷ cs) = run (step self c) cs

  -- The hashes of the anchors that the calls have trusted.
  abbrev pub IsTrusted : List Call → Uint256 → Type 0
  IsTrusted [] h = ⊥
  IsTrusted (trust header extra ∷ cs) h = (h ≡ block_hash crypto header) ⊎ IsTrusted cs h
  IsTrusted (forward candidates ∷ cs) h = IsTrusted cs h
  IsTrusted (backward candidates ∷ cs) h = IsTrusted cs h

  -- A batch keeps the index well formed and every block that is held.
  import_batch-IsIndex :
      (IsAnchor : Uint256 → Type 0) (m : BlockSyncEngine) (candidates : List SyncCandidate)
      {m' : BlockSyncEngine}
      → import_batch crypto m candidates ≡ ok m'
      → IsIndex crypto IsAnchor m
      → IsIndex crypto IsAnchor m'
        × ((h : Uint256) (b : StoredBlock) → lookup h m ≡ some b → lookup h m' ≡ some b)
  unfolding import_batch
  import_batch-IsIndex IsAnchor m [] {m'} h index =
      let m_is : m ≡ m' = ground (arith, h) in
      subst
        (λ x.
          IsIndex crypto IsAnchor x
          × ((k : Uint256) (b : StoredBlock) → lookup k m ≡ some b → lookup k x ≡ some b))
        m_is (index, λ k b held. held)
  import_batch-IsIndex IsAnchor m (c ∷ cs) {m'} h index =
      elim (Result-cases (validate_candidate crypto c m)) [
        | inl (next, accepted) ↦
            let (absent, next_is, linked) = validate_candidate_lem crypto c m accepted in
            let grown : IsIndex crypto IsAnchor next =
              subst (IsIndex crypto IsAnchor) (sym next_is)
                (insert-IsIndex crypto IsAnchor m (stored c) absent index (inr linked)) in
            let later = import_batch-IsIndex IsAnchor next cs (ground (arith, h, accepted)) grown in
            (
              later.0,
              λ k b held. later.1 k b (
                  ap (lookup k) next_is
                  ∙ lookup-insert_new m (block_hash crypto c.header) (stored c) k absent held),
            )
        | inr (x, refused) ↦ absurd (ground arith)
      ]

  insert_trusted_lem :
      (m : BlockSyncEngine) (header : BlockHeader) (extra : Option MasterchainBlockExtra)
      {m' : BlockSyncEngine}
      → insert_trusted crypto m header extra ≡ ok m'
      → (contains_key (block_hash crypto header) m ≡ false)
        × (m' ≡ insert (block_hash crypto header) (stored (anchor crypto header extra)) m)
  unfolding insert_trusted
  insert_trusted_lem m header extra h =
      elim (Result-cases (validate_role_fields (anchor crypto header extra))) [
        | inl (u, fine) ↦ (ground arith, ground arith)
        | inr (x, refused) ↦ absurd (ground arith)
      ]

  -- The index is well formed after a call, and keeps what it held.
  abbrev pub Grows : (Uint256 → Type 0) → BlockSyncEngine → BlockSyncEngine → Type 0
  Grows IsAnchor m m' =
      IsIndex crypto IsAnchor m'
      × ((h : Uint256) (b : StoredBlock) → lookup h m ≡ some b → lookup h m' ≡ some b)

  result_of-Grows :
      (IsAnchor : Uint256 → Type 0) (m : BlockSyncEngine) (c : Call) {m' : BlockSyncEngine}
      → ((h : Uint256) → IsTrusted (c ∷ []) h → IsAnchor h)
      → IsIndex crypto IsAnchor m
      → result_of m c ≡ ok m'
      → Grows IsAnchor m m'
  unfolding import_reverse_batch
  result_of-Grows IsAnchor m (trust header extra) trusted index h =
      let (absent, m'_is) = insert_trusted_lem m header extra h in
      let b = stored (anchor crypto header extra) in
      let grown =
        insert-IsIndex crypto IsAnchor m b absent index
          (inl (trusted (block_hash crypto header) (inl refl))) in
      (
        subst (IsIndex crypto IsAnchor) (sym m'_is) grown,
        λ k held_b held.
            ap (lookup k) m'_is ∙ lookup-insert_new m (block_hash crypto header) b k absent held,
      )
  result_of-Grows IsAnchor m (forward candidates) trusted index h =
      import_batch-IsIndex IsAnchor m candidates h index
  result_of-Grows IsAnchor m (backward candidates) trusted index h =
      import_batch-IsIndex IsAnchor m (reverse candidates) h index

  step-Grows :
      (IsAnchor : Uint256 → Type 0) (m : BlockSyncEngine) (c : Call)
      → ((h : Uint256) → IsTrusted (c ∷ []) h → IsAnchor h)
      → IsIndex crypto IsAnchor m
      → Grows IsAnchor m (step m c)
  unfolding step
  step-Grows IsAnchor m c trusted index = elim (Result-cases (result_of m c)) [
    | inl (next, done) ↦
        let step_is : step m c ≡ next = rw (step, done) refl in
        subst (Grows IsAnchor m) (sym step_is) (result_of-Grows IsAnchor m c trusted index done)
    | inr (x, refused) ↦
        let step_is : step m c ≡ m = rw (step, refused) refl in
        subst (Grows IsAnchor m) (sym step_is) (index, λ h b held. held)
  ]

  IsTrusted-first :
      (c : Call) (cs : List Call) (h : Uint256) → IsTrusted (c ∷ []) h → IsTrusted (c ∷ cs) h
  IsTrusted-first (trust header extra) cs h (inl e) = inl e
  IsTrusted-first (trust header extra) cs h (inr t) = absurd t
  IsTrusted-first (forward candidates) cs h t = absurd t
  IsTrusted-first (backward candidates) cs h t = absurd t

  IsTrusted-later :
      (c : Call) (cs : List Call) (h : Uint256) → IsTrusted cs h → IsTrusted (c ∷ cs) h
  IsTrusted-later (trust header extra) cs h t = inr t
  IsTrusted-later (forward candidates) cs h t = t
  IsTrusted-later (backward candidates) cs h t = t

  run-Grows :
      (IsAnchor : Uint256 → Type 0) (m : BlockSyncEngine) (cs : List Call)
      → ((h : Uint256) → IsTrusted cs h → IsAnchor h)
      → IsIndex crypto IsAnchor m
      → Grows IsAnchor m (run m cs)
  unfolding run
  run-Grows IsAnchor m [] trusted index = (index, λ h b held. held)
  run-Grows IsAnchor m (c ∷ cs) trusted index =
      let first = step-Grows IsAnchor m c (λ h t. trusted h (IsTrusted-first c cs h t)) index in
      let rest =
        run-Grows IsAnchor (step m c) cs (λ h t. trusted h (IsTrusted-later c cs h t)) first.0 in
      (rest.0, λ h b held. rest.1 h b (first.1 h b held))

  empty-IsIndex : (IsAnchor : Uint256 → Type 0) → IsIndex crypto IsAnchor []
  unfolding lookup
  empty-IsIndex IsAnchor h b found = absurd (ground arith)

  chain_below :
      (IsAnchor : Uint256 → Type 0) (m : BlockSyncEngine) (n : ℕ) (h : Uint256) (b : StoredBlock)
      → IsIndex crypto IsAnchor m
      → lookup h m ≡ some b
      → b.header.seq_no < n
      → Chain IsAnchor m h
  chain_below IsAnchor m zero h b index held below = absurd (omega (arith, below))
  chain_below IsAnchor m (suc n) h b index held below = elim (index h b held).1 [
    | inl a ↦ root h a
    | inr (parent, found, named, (lower, lt, open_end), committed) ↦ child h b held (
        chain_below IsAnchor m n b.header.prev_ref_hash parent index found
          (omega (arith, lower, below)))
  ]

  pub run-IsIndex : (cs : List Call) → IsIndex crypto (IsTrusted cs) (run [] cs)
  run-IsIndex cs = (run-Grows (IsTrusted cs) [] cs (λ h t. t) (empty-IsIndex (IsTrusted cs))).0

  -- After any calls, a chain of held parents leads from each held block down to a trusted anchor.
  pub run-Chain :
      (cs : List Call) (h : Uint256) (b : StoredBlock)
      → lookup h (run [] cs) ≡ some b
      → Chain (IsTrusted cs) (run [] cs) h
  run-Chain cs h b held =
      chain_below (IsTrusted cs) (run [] cs) (suc b.header.seq_no) h b (run-IsIndex cs) held
        (omega arith)

  -- Whatever is held stays: no later call, failed or not, removes a block or puts another in its place.
  pub run_keeps :
      (cs ds : List Call) (h : Uint256) (b : StoredBlock)
      → lookup h (run [] cs) ≡ some b
      → lookup h (run (run [] cs) ds) ≡ some b
  run_keeps cs ds h b held =
      let IsAnchor : Uint256 → Type 0 = λ k. IsTrusted cs k ⊎ IsTrusted ds k in
      let before = run-Grows IsAnchor [] cs (λ k t. inl t) (empty-IsIndex IsAnchor) in
      (run-Grows IsAnchor (run [] cs) ds (λ k t. inr t) before.0).1 h b held
