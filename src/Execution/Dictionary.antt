-- ===== src/Execution/Dictionary.antt =====
-- crates/protocol/onx-execution/src/dictionary.rs. A slice or an index beyond the end panics in the code;
-- here it is short or `false`. For keys of the dictionary's width none occurs.
pub mod Bits
pub mod Lookup
pub mod Mutation
pub mod Removal
pub mod Commitment
pub mod Map
use the_open_network_x.Prelude.{
  ℕ, zero, suc, ◌+◌, ◌-◌, ◌*◌, ◌/◌, ◌%◌, ◌^◌, min, ◌++◌, Bool, true, false, not, ◌&&◌, ◌||◌, Option,
  none, some, List, [], ◌∷◌, map, take, drop, length, get_elem?, Result, ok, err, ◌>>=◌, ◌>>◌,
  require, map_err, ltb, leb, ◌==◌, if◌then◌else◌,
}
use the_open_network_x.Prelude.Words.{to_be}
use the_open_network_x.Primitives.Error.{Bytes}
use the_open_network_x.Primitives.Hash.{Crypto}
use the_open_network_x.StateModel.Cell.{Cell, new_cell, cell_hash}

pub data DictionaryError : Type 0 where
  invalid_key_length invalid_key cell_error : DictionaryError

abbrev pub Key : Type 0
Key = List Bool

pub data Node : Type 0 where
  leaf : Key → Cell → Node
  branch : Key → Node → Node → Node

pub record Dictionary : Type 0 where
  pub width : ℕ
  pub root : Option Node
  pub root_cell : Option Cell

unfoldable pub new_dictionary : ℕ → Result DictionaryError Dictionary
new_dictionary width =
    if leb 1 width && leb width 1023
    then ok (record { width = width; root = none; root_cell = none })
    else err invalid_key_length

-- `key[i]`
unfoldable pub byte_at : Bytes → ℕ → ℕ
byte_at key i = elim (get_elem? key i) [ none ↦ 0 | some b ↦ b ]

-- The bits from index i on, as many as are asked for, the most significant of each byte first.
unfoldable pub bits_from : Bytes → ℕ → ℕ → Key
bits_from key i zero = []
bits_from key i (suc n) = (byte_at key (i / 8) / 2 ^ (7 - i % 8) % 2 == 1) ∷ bits_from key (suc i) n

unfoldable pub key_bits : Bytes → ℕ → Result DictionaryError Key
key_bits key width =
    if ltb (length key * 8) width || leb (width + 8) (length key * 8)
    then err invalid_key
    else ok (bits_from key 0 width)

abbrev pub same_bit : Bool → Bool → Bool
same_bit true b = b
same_bit false b = not b

-- The length of the longest common prefix.
unfoldable pub common : Key → Key → ℕ
common [] b = 0
common (x ∷ a) [] = 0
common (x ∷ a) (y ∷ b) = let rest = common a b in if same_bit x y then suc rest else 0

-- `suffix == bits`
unfoldable pub same_key : Key → Key → Bool
same_key [] [] = true
same_key [] (y ∷ b) = false
same_key (x ∷ a) [] = false
same_key (x ∷ a) (y ∷ b) = same_bit x y && same_key a b

unfoldable pub starts_with : Key → Key → Bool
starts_with bits [] = true
starts_with [] (p ∷ prefix) = false
starts_with (b ∷ bits) (p ∷ prefix) = same_bit b p && starts_with bits prefix

unfoldable pub bit_at : ℕ → Key → Bool
bit_at n bits = elim (get_elem? bits n) [ none ↦ false | some b ↦ b ]

unfoldable pub get : Node → Key → Option Cell
get (leaf suffix value) bits = if same_key suffix bits then some value else none
get (branch prefix zero_node one_node) bits =
    let n = length prefix in
    let under_zero = get zero_node (drop (suc n) bits) in
    let under_one = get one_node (drop (suc n) bits) in
    if starts_with bits prefix && ltb n (length bits)
    then (if bit_at n bits then under_one else under_zero)
    else none

unfoldable pub get_root : Option Node → Key → Option Cell
unfolding get
get_root none bits = none
get_root (some node) bits = get node bits

-- The branch over an old node, whose edge is the given bit, and a new one.
unfoldable pub fork : Key → Bool → Node → Node → Node
fork prefix true old new = branch prefix new old
fork prefix false old new = branch prefix old new

-- The new node and the value that was there.
unfoldable pub insert_node : Node → Key → Cell → Node × Option Cell
insert_node (leaf suffix prior) bits value =
    let n = common suffix bits in
    if n == length suffix && n == length bits then (leaf suffix value, some prior) else (
      fork (take n suffix) (bit_at n suffix) (leaf (drop (suc n) suffix) prior)
          (leaf (drop (suc n) bits) value),
      none,
    )
insert_node (branch prefix zero_node one_node) bits value =
    let n = common prefix bits in
    let i = length prefix in
    let into_zero = insert_node zero_node (drop (suc i) bits) value in
    let into_one = insert_node one_node (drop (suc i) bits) value in
    if ltb n i
    then (
      fork (take n prefix) (bit_at n prefix) (branch (drop (suc n) prefix) zero_node one_node)
          (leaf (drop (suc n) bits) value),
      none,
    )
    else if bit_at i bits
    then (branch prefix zero_node into_one.0, into_one.1)
    else (branch prefix into_zero.0 one_node, into_zero.1)

unfoldable pub insert : Option Node → Key → Cell → Node × Option Cell
insert none bits value = (leaf bits value, none)
insert (some node) bits value = insert_node node bits value

unfoldable pub prepend : Key → Bool → Node → Node
prepend prefix edge (leaf suffix value) = leaf (prefix ++ edge ∷ suffix) value
prepend prefix edge (branch child_prefix zero_node one_node) =
    branch (prefix ++ edge ∷ child_prefix) zero_node one_node

-- A branch of which one child is left goes into that child.
unfoldable pub keep_zero : Key → Node → Option Node → Node
keep_zero prefix zero_node (some child) = branch prefix zero_node child
keep_zero prefix zero_node none = prepend prefix false zero_node

unfoldable pub keep_one : Key → Option Node → Node → Node
keep_one prefix (some child) one_node = branch prefix child one_node
keep_one prefix none one_node = prepend prefix true one_node

-- The node that is left, if any, and the value that was there.
unfoldable pub remove_node : Node → Key → Option Node × Option Cell
remove_node (leaf suffix value) bits =
    if same_key suffix bits then (none, some value) else (some (leaf suffix value), none)
remove_node (branch prefix zero_node one_node) bits =
    let i = length prefix in
    let from_zero = remove_node zero_node (drop (suc i) bits) in
    let from_one = remove_node one_node (drop (suc i) bits) in
    if not (starts_with bits prefix) || leb (length bits) i
    then (some (branch prefix zero_node one_node), none)
    else if bit_at i bits
    then (some (keep_zero prefix zero_node from_one.0), from_one.1)
    else (some (keep_one prefix from_zero.0 one_node), from_zero.1)

unfoldable pub remove : Option Node → Key → Option Node × Option Cell
remove none bits = (none, none)
remove (some node) bits = remove_node node bits

-- The value of up to eight bits as the high bits of a byte.
unfoldable pub pack_byte : ℕ → Key → ℕ
pack_byte weight [] = 0
pack_byte weight (true ∷ bits) = weight + pack_byte (weight / 2) bits
pack_byte weight (false ∷ bits) = pack_byte (weight / 2) bits

-- `div_ceil(8)` bytes.
unfoldable pub pack_bytes : ℕ → Key → Bytes
pack_bytes zero bits = []
pack_bytes (suc n) bits = pack_byte 128 (take 8 bits) ∷ pack_bytes n (drop 8 bits)

unfoldable pub pack : Key → Bytes
pack bits = pack_bytes ((length bits + 7) / 8) bits

module _ (crypto : Crypto) where
  -- The fuel is the number of bits: each round takes a thousand.
  unfoldable pub label_tail : ℕ → Key → Result DictionaryError Cell
  label_tail zero bits = map_err (λ _. cell_error) (new_cell (0xd2 ∷ pack bits) [])
  label_tail (suc fuel) bits =
      let first = min (length bits) 1000 in
      elim (ltb first (length bits)) [
        | false ↦ map_err (λ _. cell_error) (new_cell (0xd2 ∷ pack (take first bits)) [])
        | true ↦ do
          tail ← label_tail fuel (drop first bits)
          map_err (λ _. cell_error)
              (new_cell (0xd2 ∷ pack (take first bits)) (cell_hash crypto tail ∷ []))
      ]

  unfoldable pub node_cell : ℕ → Key → List Bytes → Result DictionaryError Cell
  node_cell tag bits refs =
      let first = min (length bits) 1000 in
      let contents = tag ∷ (to_be 2 (length bits) ++ pack (take first bits)) in
      elim (ltb first (length bits)) [
        | false ↦ map_err (λ _. cell_error) (new_cell contents refs)
        | true ↦ do
          tail ← label_tail (length bits) (drop first bits)
          map_err (λ _. cell_error) (new_cell contents (cell_hash crypto tail ∷ refs))
      ]

  unfoldable pub serialize : Node → Result DictionaryError Cell
  serialize (leaf suffix value) = node_cell 0xd0 suffix (cell_hash crypto value ∷ [])
  serialize (branch prefix zero_node one_node) = do
    zero_cell ← serialize zero_node
    one_cell ← serialize one_node
    node_cell 0xd1 prefix (cell_hash crypto zero_cell ∷ cell_hash crypto one_cell ∷ [])

  unfoldable pub lookup_key : Dictionary → Bytes → Result DictionaryError (Option Cell)
  lookup_key self key = do bits ← key_bits key self.width; ok (get_root self.root bits)

  -- The dictionary after the call and its result: where serialization fails the root has changed and the
  -- root cell has not.
  unfoldable pub set : Dictionary → Bytes → Cell → Dictionary × Result DictionaryError (Option Cell)
  set self key value = elim (key_bits key self.width) [
    | err x ↦ (self, err x)
    | ok bits ↦
        let inserted = insert self.root bits value in
        elim (serialize inserted.0) [
          | err x ↦ (record self { root = some inserted.0 }, err x)
          | ok cell ↦ (record self { root = some inserted.0; root_cell = some cell }, ok inserted.1)
        ]
  ]

  unfoldable pub delete : Dictionary → Bytes → Dictionary × Result DictionaryError (Option Cell)
  delete self key = elim (key_bits key self.width) [
    | err x ↦ (self, err x)
    | ok bits ↦
        let removed = remove self.root bits in
        elim removed.0 [
          | none ↦ (record self { root = none; root_cell = none }, ok removed.1)
          | some node ↦ elim (serialize node) [
            | err x ↦ (record self { root = some node }, err x)
            | ok cell ↦ (record self { root = some node; root_cell = some cell }, ok removed.1)
          ]
        ]
  ]
