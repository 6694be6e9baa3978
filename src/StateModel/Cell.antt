-- ===== src/StateModel/Cell.antt =====
-- crates/protocol/onx-state-model/src/cell.rs. A bit that is set by `|` where it was clear is added.
use the_open_network_x.Prelude.{
  ℕ, zero, suc, ◌+◌, ◌*◌, ◌/◌, ◌%◌, ◌++◌, Bool, false, List, [], ◌∷◌, take, drop, length, Result,
  ok, err, ◌>>=◌, ◌>>◌, require, not, map_err, ltb, ◌==◌, if◌then◌else◌,
}
use the_open_network_x.Primitives.Error.{Bytes}
use the_open_network_x.Primitives.Hash.{Crypto, DomainTag, from_ascii, domain_hash}
use the_open_network_x.Primitives.Uint
use the_open_network_x.StateModel.Error.{
  StateModelError, data_too_large, too_many_references, deserialization_error,
}

-- "ONX_CELL_HASH_V1"
abbrev pub cell_tag : DomainTag
cell_tag = from_ascii (
    0x4f ∷ 0x4e ∷ 0x58 ∷ 0x5f ∷ 0x43 ∷ 0x45 ∷ 0x4c ∷ 0x4c ∷ 0x5f ∷ 0x48 ∷ 0x41 ∷ 0x53 ∷ 0x48 ∷ 0x5f
    ∷ 0x56 ∷ 0x31 ∷ [])

abbrev pub max_cell_data_bytes : ℕ
max_cell_data_bytes = 128

abbrev pub max_cell_refs : ℕ
max_cell_refs = 4

pub record Cell : Type 0 where
  pub data_bytes : Bytes
  pub cell_refs : List Bytes
  pub is_special : Bool

unfoldable pub new_with_special : Bytes → List Bytes → Bool → Result StateModelError Cell
new_with_special data_bytes cell_refs is_special =
    if ltb max_cell_data_bytes (length data_bytes)
    then err (data_too_large (length data_bytes) max_cell_data_bytes)
    else if ltb max_cell_refs (length cell_refs)
    then err (too_many_references (length cell_refs) max_cell_refs)
    else ok (record { data_bytes = data_bytes; cell_refs = cell_refs; is_special = is_special })

unfoldable pub new_cell : Bytes → List Bytes → Result StateModelError Cell
new_cell data_bytes cell_refs = new_with_special data_bytes cell_refs false

-- The counts of a cell stay below the flag and the byte.
unfoldable pub descriptor_bytes : Cell → ℕ × ℕ
descriptor_bytes self = (
  (if self.is_special then length self.cell_refs + 0x08 else length self.cell_refs),
  length self.data_bytes,
)

unfoldable pub concat_refs : List Bytes → Bytes
concat_refs [] = []
concat_refs (ref ∷ refs) = ref ++ concat_refs refs

unfoldable pub cell_hash : Crypto → Cell → Bytes
cell_hash crypto self =
    let (d1, d2) = descriptor_bytes self in
    domain_hash crypto cell_tag (d1 ∷ d2 ∷ (self.data_bytes ++ concat_refs self.cell_refs))

unfoldable pub cell_to_bytes : Cell → Bytes
cell_to_bytes self =
    let (d1, d2) = descriptor_bytes self in
    Uint.encode 2 (d1 * 256 + d2) ++ (self.data_bytes ++ concat_refs self.cell_refs)

-- The loop over the references.
unfoldable pub split_refs : ℕ → Bytes → List Bytes
split_refs zero bytes = []
split_refs (suc n) bytes = take 32 bytes ∷ split_refs n (drop 32 bytes)

-- The cell and the number of bytes that it takes.
unfoldable pub cell_from_bytes : Bytes → Result StateModelError (Cell × ℕ)
cell_from_bytes slice = do
  require (not (ltb (length slice) 2)) deserialization_error
  descriptor ← map_err (λ _. deserialization_error) (Uint.read 2 slice)
  let d1 = descriptor.0 / 256 % 256
  let d2 = descriptor.0 % 256
  let ref_count = d1 % 8
  let is_special = d1 / 8 % 2 == 1
  require (not (ltb max_cell_refs ref_count)) (too_many_references ref_count max_cell_refs)
  require (not (ltb max_cell_data_bytes d2)) (data_too_large d2 max_cell_data_bytes)
  let required_len = 2 + d2 + ref_count * 32
  require (not (ltb (length slice) required_len)) deserialization_error
  let cell_refs = split_refs ref_count (drop d2 descriptor.1)
  cell ← new_with_special (take d2 descriptor.1) cell_refs is_special
  ok (cell, required_len)
