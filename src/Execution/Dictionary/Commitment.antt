-- ===== src/Execution/Dictionary/Commitment.antt =====
-- Nodes with keys of at most 1023 bits always fit cells.
use the_open_network_x.Prelude.{
  ℕ, zero, suc, ◌+◌, ◌/◌, ◌≤◌, ◌≡◌, refl, min, ◌++◌, false, List, [], ◌∷◌, take, drop, length,
  length-append, length-take, length-drop, ok, arith, ltb, Bool-cases, inl, inr,
}
use the_open_network_x.Prelude.Words.{to_be, length-to_be}
use the_open_network_x.Primitives.Error.{Bytes}
use the_open_network_x.Primitives.Hash.{Crypto}
use the_open_network_x.StateModel.Cell.{Cell, new_cell, new_with_special, cell_hash}
use the_open_network_x.Execution.Dictionary.{
  Key, Node, leaf, branch, pack_bytes, pack, label_tail, node_cell, serialize,
}
use the_open_network_x.Execution.Dictionary.Mutation.{HasWidth}

length-pack_bytes : (n : ℕ) (bits : Key) → length (pack_bytes n bits) ≡ n
unfolding pack_bytes
length-pack_bytes zero bits = refl
length-pack_bytes (suc n) bits = omega (arith, length-pack_bytes n (drop 8 bits))

length-pack : (bits : Key) → length (pack bits) ≡ (length bits + 7) / 8
unfolding pack
length-pack bits = length-pack_bytes ((length bits + 7) / 8) bits

new_cell_ok :
    (contents : Bytes) (refs : List Bytes)
    → length contents ≤ 128
    → length refs ≤ 4
    → (c : Cell) × (new_cell contents refs ≡ ok c)
unfolding new_cell new_with_special
new_cell_ok contents refs hd hr =
    (record { data_bytes = contents; cell_refs = refs; is_special = false }, ground arith)

module _ (crypto : Crypto) where
  label_tail_ok :
      (fuel : ℕ) (bits : Key)
      → length bits ≤ 1000
      → (c : Cell) × (label_tail crypto fuel bits ≡ ok c)
  unfolding label_tail
  label_tail_ok zero bits h =
      let (c, made) =
        new_cell_ok (0xd2 ∷ pack bits) [] (omega (arith, length-pack bits, h)) (omega arith) in
      (c, rw (label_tail, made) refl)
  label_tail_ok (suc fuel) bits h =
      let first = min (length bits) 1000 in
      let whole : ltb first (length bits) ≡ false = ground arith in
      let (c, made) =
        new_cell_ok (0xd2 ∷ pack (take first bits)) []
          (omega (arith, length-pack (take first bits), length-take first bits, h)) (omega arith) in
      (c, rw (label_tail, whole, made) refl)

  node_cell_ok :
      (tag : ℕ) (bits : Key) (refs : List Bytes)
      → length bits ≤ 1023
      → length refs ≤ 3
      → (c : Cell) × (node_cell crypto tag bits refs ≡ ok c)
  unfolding node_cell
  node_cell_ok tag bits refs h hr =
      let first = min (length bits) 1000 in
      let contents = tag ∷ (to_be 2 (length bits) ++ pack (take first bits)) in
      let fits : length contents ≤ 128 = omega (
        arith,
        length-append (to_be 2 (length bits)) (pack (take first bits)),
        length-to_be 2 (length bits),
        length-pack (take first bits),
        length-take first bits,
      ) in
      elim (Bool-cases (ltb first (length bits))) [
        | inl long ↦
            let (tail, packed) =
              label_tail_ok (length bits) (drop first bits)
                (omega (arith, length-drop first bits, h)) in
            let (c, made) =
              new_cell_ok contents (cell_hash crypto tail ∷ refs) fits (omega (arith, hr)) in
            (c, rw (node_cell, long, packed, made) refl)
        | inr short ↦
            let (c, made) = new_cell_ok contents refs fits (omega (arith, hr)) in
            (c, rw (node_cell, short, made) refl)
      ]

  -- The node cells of a dictionary can always be built.
  pub serialize_ok :
      (n : Node) (w : ℕ) → HasWidth w n → w ≤ 1023 → (c : Cell) × (serialize crypto n ≡ ok c)
  unfolding serialize
  serialize_ok (leaf s v) w h le =
      node_cell_ok 0xd0 s (cell_hash crypto v ∷ []) (omega (arith, h, le)) (omega arith)
  serialize_ok (branch p z o) w (k, w_is, hz, ho) le =
      let (zc, zero_made) = serialize_ok z k hz (omega (arith, w_is, le)) in
      let (oc, one_made) = serialize_ok o k ho (omega (arith, w_is, le)) in
      let (c, made) =
        node_cell_ok 0xd1 p (cell_hash crypto zc ∷ cell_hash crypto oc ∷ [])
          (omega (arith, w_is, le)) (omega arith) in
      (c, rw (zero_made, one_made, made) refl)
