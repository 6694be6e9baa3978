-- ===== src/Blocks/Validity/Laws.antt =====
-- When a block is accepted as a successor of its parents.
use the_open_network_x.Prelude.{
  ◌+◌, ◌≤◌, ◌<◌, ◌≡◌, ◌↔◌, true, false, Option, none, some, ok, arith, Bool-cases, inl, inr,
}
use the_open_network_x.Prelude.Ord.{same, same→eq, same_refl, bytes_ord}
use the_open_network_x.Primitives.Hash.{Crypto}
use the_open_network_x.DataStructures.Block.{BlockHeader, is_merge_result, block_hash}
use the_open_network_x.Blocks.Validity.{
  RecomputedRoots, is_last, validate_merge, validate_ordinary, validate_parents,
  validate_block_successor,
}

module _ (crypto : Crypto) where
  validate_ordinary_lem :
      (header parent : BlockHeader)
      → (validate_ordinary crypto header parent ≡ ok tt) ↔ (
          (header.prev_ref_hash ≡ block_hash crypto parent)
          × (header.seq_no ≡ parent.seq_no + 1)
          × (parent.gen_utime ≤ header.gen_utime)
          × (parent.end_lt ≤ header.start_lt)
          × (header.start_lt ≤ header.end_lt))
  unfolding validate_ordinary
  validate_ordinary_lem header parent = (
    λ h. (
      same→eq header.prev_ref_hash (block_hash crypto parent) (ground arith),
      ground arith,
      ground arith,
      ground arith,
      ground arith,
    ),
    λ a.
        let same_parent : same header.prev_ref_hash (block_hash crypto parent) ≡ true =
          rw a.0 (same_refl (block_hash crypto parent)) in
        ground (arith, same_parent, a.1, a.2, a.3, a.4),
  )

  -- What an accepted block owes to each of its parents.
  abbrev pub Follows : BlockHeader → BlockHeader → Type 0
  Follows header parent =
      (parent.seq_no < header.seq_no) × (parent.end_lt ≤ header.start_lt) × (is_last parent ≡ false)

  validate_merge_lem :
      (header parent p2 : BlockHeader)
      → validate_merge crypto header parent p2 ≡ ok tt
      → (header.prev_ref_hash ≡ block_hash crypto parent)
        × (parent.seq_no < header.seq_no)
        × (parent.end_lt ≤ header.start_lt)
  unfolding validate_merge
  validate_merge_lem header parent p2 h = (
    same→eq header.prev_ref_hash (block_hash crypto parent) (ground arith),
    ground arith,
    ground arith,
  )

  validate_parents_lem :
      (header parent : BlockHeader) (parent_2 : Option BlockHeader)
      → validate_parents crypto header parent parent_2 ≡ ok tt
      → (header.prev_ref_hash ≡ block_hash crypto parent)
        × (parent.seq_no < header.seq_no)
        × (parent.end_lt ≤ header.start_lt)
  unfolding validate_parents
  validate_parents_lem header parent none h =
      let plain : validate_ordinary crypto header parent ≡ ok tt = ground arith in
      let (named, next, time, lt, order) = (validate_ordinary_lem header parent).0 plain in
      (named, omega (arith, next), lt)
  validate_parents_lem header parent (some p2) h =
      elim (Bool-cases (is_merge_result header.flags)) [
        | inl merged ↦ validate_merge_lem header parent p2 (ground arith)
        | inr plain ↦
            let (named, next, time, lt, order) =
              (validate_ordinary_lem header parent).0 (ground arith) in
            (named, omega (arith, next), lt)
      ]

  -- Any accepted block names its first parent by hash and follows it.
  pub validate_block_successor-Follows :
      (header parent : BlockHeader) (parent_2 : Option BlockHeader) (roots : RecomputedRoots)
      → validate_block_successor crypto header parent parent_2 roots ≡ ok tt
      → (header.prev_ref_hash ≡ block_hash crypto parent) × Follows header parent
  unfolding validate_block_successor
  validate_block_successor-Follows header parent parent_2 roots h =
      let (named, next, lt) = validate_parents_lem header parent parent_2 (ground arith) in
      (named, (next, lt, ground arith))
