-- ===== src/Execution/Dictionary/Map.antt =====
-- The dictionary is a finite map from keys of its width, committed to by its root cell.
use the_open_network_x.Prelude.{
  ℕ, zero, suc, ◌≤◌, ◌≡◌, ◌≢◌, refl, sym, ap, subst, ◌∙◌, Option, none, some, length, Result, ok,
  arith, Option-cases, inl, inr,
}
use the_open_network_x.Primitives.Error.{Bytes}
use the_open_network_x.Primitives.Hash.{Crypto}
use the_open_network_x.StateModel.Cell.{Cell}
use the_open_network_x.Execution.Dictionary.{
  DictionaryError, Key, new_dictionary, Node, Dictionary, bits_from, key_bits, get, get_root,
  insert, remove, serialize, lookup_key, set, delete,
}
use the_open_network_x.Execution.Dictionary.Lookup.{get-leaf_self, get-leaf_ne}
use the_open_network_x.Execution.Dictionary.Mutation.{HasWidth, insert_node_lem}
use the_open_network_x.Execution.Dictionary.Removal.{HasRootWidth, remove_node_lem}
use the_open_network_x.Execution.Dictionary.Commitment.{serialize_ok}

length-bits_from : (key : Bytes) (i n : ℕ) → length (bits_from key i n) ≡ n
unfolding bits_from
length-bits_from key i zero = refl
length-bits_from key i (suc n) = omega (arith, length-bits_from key (suc i) n)

length-key_bits : (key : Bytes) (w : ℕ) {bits : Key} → key_bits key w ≡ ok bits → length bits ≡ w
unfolding key_bits
length-key_bits key w h = ground (arith, length-bits_from key 0 w)

module _ (crypto : Crypto) where
  -- The root cell is the serialized root, and there is one exactly if there is a root.
  abbrev pub IsCommitted : Option Node → Option Cell → Type 0
  IsCommitted none cell = cell ≡ none
  IsCommitted (some n) cell = (c : Cell) × (serialize crypto n ≡ ok c) × (cell ≡ some c)

  pub record IsDictionary (d : Dictionary) : Type 0 where
    pub narrow : d.width ≤ 1023
    pub width : HasRootWidth d.width d.root
    pub committed : IsCommitted d.root d.root_cell

  -- What a mutation of one key does: that key then has the given value, the call returns what it had before,
  -- and every key of other bits keeps what it has.
  pub record IsMutation (d : Dictionary) (key : Bytes) (bits : Key) (value : Option Cell)
      (after : Dictionary × Result DictionaryError (Option Cell)) : Type 0 where
    pub dictionary : IsDictionary after.0
    pub same_width : after.0.width ≡ d.width
    pub returned : after.1 ≡ ok (get_root d.root bits)
    pub found : lookup_key crypto after.0 key ≡ ok value
    pub others :
        (other : Bytes) (other_bits : Key)
        → key_bits other d.width ≡ ok other_bits
        → other_bits ≢ bits
        → lookup_key crypto after.0 other ≡ lookup_key crypto d other

  abbrev IsRootInserted : ℕ → Option Node → Key → Cell → Node × Option Cell → Type 0
  IsRootInserted w o bits v result =
      HasWidth w result.0
      × (get result.0 bits ≡ some v)
      × (result.1 ≡ get_root o bits)
      × ((other : Key) → length other ≡ w → other ≢ bits → get result.0 other ≡ get_root o other)

  insert_lem :
      (w : ℕ) (o : Option Node) (bits : Key) (v : Cell)
      → HasRootWidth w o
      → length bits ≡ w
      → IsRootInserted w o bits v (insert o bits v)
  unfolding insert get_root
  insert_lem w none bits v h len =
      (len, get-leaf_self bits v, refl, λ other l ne. get-leaf_ne bits v other (λ e. ne (sym e)))
  insert_lem w (some n) bits v h len =
      let i = insert_node_lem n w bits v h len in (i.width, i.found, i.prior, i.others)

  abbrev IsRootRemoved : ℕ → Option Node → Key → Option Node × Option Cell → Type 0
  IsRootRemoved w o bits result =
      HasRootWidth w result.0
      × (get_root result.0 bits ≡ none)
      × (result.1 ≡ get_root o bits)
      × ((other : Key)
          → length other ≡ w
          → other ≢ bits
          → get_root result.0 other ≡ get_root o other)

  remove_lem :
      (w : ℕ) (o : Option Node) (bits : Key)
      → HasRootWidth w o
      → length bits ≡ w
      → IsRootRemoved w o bits (remove o bits)
  unfolding remove get_root
  remove_lem w none bits h len = (tt, refl, refl, λ other l ne. refl)
  remove_lem w (some n) bits h len =
      let i = remove_node_lem n w bits h len in (i.width, i.gone, i.prior, i.others)

  lookup_key_lem :
      (d : Dictionary) (key : Bytes) {bits : Key}
      → key_bits key d.width ≡ ok bits
      → lookup_key crypto d key ≡ ok (get_root d.root bits)
  unfolding lookup_key
  lookup_key_lem d key h = rw h refl

  at_root : (n : Node) (k : Key) → get_root (some n) k ≡ get n k
  unfolding get_root
  at_root n k = refl

  set_is :
      (d : Dictionary) (key : Bytes) (bits : Key) (v c : Cell)
      → key_bits key d.width ≡ ok bits
      → serialize crypto (insert d.root bits v).0 ≡ ok c
      → set crypto d key v ≡ (
        record d { root = some (insert d.root bits v).0; root_cell = some c },
        ok (insert d.root bits v).1,
      )
  unfolding set
  set_is d key bits v c key_ok made = rw (set, key_ok, made) refl

  -- A key of the right length can always be set, and setting it is a mutation of that key only.
  pub set_lem :
      (d : Dictionary) (key : Bytes) (bits : Key) (v : Cell)
      → IsDictionary d
      → key_bits key d.width ≡ ok bits
      → IsMutation d key bits (some v) (set crypto d key v)
  set_lem d key bits v valid key_ok =
      let (fits, found, prior, others) =
        insert_lem d.width d.root bits v valid.width (length-key_bits key d.width key_ok) in
      let (c, made) = serialize_ok crypto (insert d.root bits v).0 d.width fits valid.narrow in
      let after : Dictionary = record d {
        root = some (insert d.root bits v).0;
        root_cell = some c;
      } in
      let computed : set crypto d key v ≡ (after, ok (insert d.root bits v).1) =
        set_is d key bits v c key_ok made in
      rw computed (record {
        dictionary = record { narrow = valid.narrow; width = fits; committed = (c, made, refl) };
        same_width = refl;
        returned = ap ok prior;
        found =
            lookup_key_lem after key key_ok ∙ ap ok (at_root (insert d.root bits v).0 bits ∙ found);
        others = λ other other_bits other_ok ne.
            lookup_key_lem after other other_ok
            ∙ ap ok (
                at_root (insert d.root bits v).0 other_bits
                ∙ others other_bits (length-key_bits other d.width other_ok) ne)
            ∙ sym (lookup_key_lem d other other_ok);
      })

  delete_is :
      (d : Dictionary) (key : Bytes) (bits : Key) (c : Option Cell)
      → key_bits key d.width ≡ ok bits
      → IsCommitted (remove d.root bits).0 c
      → delete crypto d key
        ≡ (record d { root = (remove d.root bits).0; root_cell = c }, ok (remove d.root bits).1)
  unfolding delete
  delete_is d key bits c key_ok committed = elim (Option-cases (remove d.root bits).0) [
    | inl emptied ↦
        let c_is : c ≡ none = subst (λ o. IsCommitted o c) emptied committed in
        rw (delete, key_ok, emptied, c_is) refl
    | inr (n, left) ↦
        let (cell, made, c_is) = subst (λ o. IsCommitted o c) left committed in
        rw (delete, key_ok, left, made, c_is) refl
  ]

  commit :
      (o : Option Node) (w : ℕ) → HasRootWidth w o → w ≤ 1023 → (c : Option Cell) × IsCommitted o c
  commit none w h le = (none, refl)
  commit (some n) w h le = let (c, made) = serialize_ok crypto n w h le in (some c, (c, made, refl))

  -- A key of the right length can always be deleted, and deleting it is a mutation of that key only.
  pub delete_lem :
      (d : Dictionary) (key : Bytes) (bits : Key)
      → IsDictionary d
      → key_bits key d.width ≡ ok bits
      → IsMutation d key bits none (delete crypto d key)
  delete_lem d key bits valid key_ok =
      let (fits, gone, prior, others) =
        remove_lem d.width d.root bits valid.width (length-key_bits key d.width key_ok) in
      let (c, committed) = commit (remove d.root bits).0 d.width fits valid.narrow in
      let after : Dictionary = record d { root = (remove d.root bits).0; root_cell = c } in
      let computed : delete crypto d key ≡ (after, ok (remove d.root bits).1) =
        delete_is d key bits c key_ok committed in
      rw computed (record {
        dictionary = record { narrow = valid.narrow; width = fits; committed = committed };
        same_width = refl;
        returned = ap ok prior;
        found = lookup_key_lem after key key_ok ∙ ap ok gone;
        others = λ other other_bits other_ok ne.
            lookup_key_lem after other other_ok
            ∙ ap ok (others other_bits (length-key_bits other d.width other_ok) ne)
            ∙ sym (lookup_key_lem d other other_ok);
      })

  pub new-IsDictionary : (w : ℕ) {d : Dictionary} → new_dictionary w ≡ ok d → IsDictionary d
  unfolding new_dictionary
  new-IsDictionary w {d} h =
      let d_is : record { width = w; root = none; root_cell = none } ≡ d = ground arith in
      rw (← d_is) (record { narrow = ground arith; width = tt; committed = refl })
