-- ===== src/Execution/Dictionary/Lookup.antt =====
-- What a lookup finds below a branch, a fork and a node whose prefix was extended.
use the_open_network_x.Prelude.{
  suc, ◌<◌, ◌≡◌, ◌≢◌, refl, sym, ap, subst, ◌∙◌, ◌++◌, append_assoc, Bool, true, false, not, none,
  some, [], ◌∷◌, length, length-append, ltb, lt→ltb, arith, Bool-cases, ◌⊎◌, inl, inr,
  if◌then◌else◌,
}
use the_open_network_x.StateModel.Cell.{Cell}
use the_open_network_x.Execution.Dictionary.{
  Key, Node, leaf, branch, same_key, starts_with, bit_at, get, fork, prepend,
}
use the_open_network_x.Execution.Dictionary.Bits.{
  same_bit_self, Differs, key_split, same_key_self, same_key-eq, same_key_under, same_key_fork,
  starts_with_prefix, starts_with_fork, bit_at_mid, drop_mid,
}

longer : (p : Key) (b : Bool) (r : Key) → ltb (length p) (length (p ++ b ∷ r)) ≡ true
longer p b r = lt→ltb (length p) (length (p ++ b ∷ r)) (omega (arith, length-append p (b ∷ r)))

pub get-branch_under :
    (p : Key) (z o : Node) (b : Bool) (r : Key)
    → get (branch p z o) (p ++ b ∷ r) ≡ (if b then get o r else get z r)
unfolding get
get-branch_under p z o b r =
    rw (starts_with_prefix p (b ∷ r), longer p b r, bit_at_mid p b r, drop_mid p b r) refl

pub get-branch_apart :
    (p : Key) (z o : Node) (bits : Key) → Differs p bits → get (branch p z o) bits ≡ none
unfolding get
get-branch_apart p z o bits (c, a, p', r, p_is, bits_is) =
    let apart : starts_with bits p ≡ false = rw (p_is, bits_is) (starts_with_fork c a p' r) in
    rw apart refl

get-branch_cons :
    (x : Bool) (p : Key) (z o : Node) (r : Key)
    → get (branch (x ∷ p) z o) (x ∷ r) ≡ get (branch p z o) r
unfolding get starts_with bit_at
get-branch_cons x p z o r =
    let shift : ltb (suc (length p)) (suc (length r)) ≡ ltb (length p) (length r) = ground arith in
    rw (same_bit_self x, shift) refl

pub get-prepend_under :
    (n : Node) (c : Key) (b : Bool) (r : Key) → get (prepend c b n) (c ++ b ∷ r) ≡ get n r
unfolding prepend get same_key
get-prepend_under (leaf s v) c b r = rw (same_key_under c (b ∷ s) (b ∷ r), same_bit_self b) refl
get-prepend_under (branch p z o) [] b r = get-branch_cons b p z o r
get-prepend_under (branch p z o) (x ∷ c) b r =
    get-branch_cons x (c ++ b ∷ p) z o (c ++ b ∷ r) ∙ get-prepend_under (branch p z o) c b r

pub get-prepend_apart :
    (n : Node) (c : Key) (b : Bool) (bits : Key) → Differs c bits → get (prepend c b n) bits ≡ none
unfolding prepend get
get-prepend_apart (leaf s v) c b bits (d, a, c', r, c_is, bits_is) =
    let apart : same_key (c ++ b ∷ s) bits ≡ false =
      rw (c_is, bits_is, append_assoc d (a ∷ c') (b ∷ s)) (same_key_fork d a (c' ++ b ∷ s) r) in
    rw apart refl
get-prepend_apart (branch p z o) c b bits (d, a, c', r, c_is, bits_is) =
    get-branch_apart (c ++ b ∷ p) z o bits
      (d, a, c' ++ b ∷ p, r, rw c_is (append_assoc d (a ∷ c') (b ∷ p)), bits_is)

pub get-prepend_fork :
    (n : Node) (c : Key) (b : Bool) (r : Key) → get (prepend c b n) (c ++ not b ∷ r) ≡ none
unfolding prepend get
get-prepend_fork (leaf s v) c b r = rw (same_key_fork c b s r) refl
get-prepend_fork (branch p z o) c b r =
    get-branch_apart (c ++ b ∷ p) z o (c ++ not b ∷ r) (c, b, p, r, refl, refl)

pub get-fork_old :
    (c : Key) (a : Bool) (old new : Node) (r : Key)
    → get (fork c a old new) (c ++ a ∷ r) ≡ get old r
unfolding fork
get-fork_old c true old new r = get-branch_under c new old true r
get-fork_old c false old new r = get-branch_under c old new false r

pub get-fork_new :
    (c : Key) (a : Bool) (old new : Node) (r : Key)
    → get (fork c a old new) (c ++ not a ∷ r) ≡ get new r
unfolding fork
get-fork_new c true old new r = get-branch_under c new old false r
get-fork_new c false old new r = get-branch_under c old new true r

pub get-fork_apart :
    (c : Key) (a : Bool) (old new : Node) (bits : Key)
    → Differs c bits
    → get (fork c a old new) bits ≡ none
unfolding fork
get-fork_apart c true old new bits d = get-branch_apart c new old bits d
get-fork_apart c false old new bits d = get-branch_apart c old new bits d

Bool-either : (a b : Bool) → (b ≡ a) ⊎ (b ≡ not a)
Bool-either true true = inl refl
Bool-either true false = inr refl
Bool-either false true = inr refl
Bool-either false false = inl refl

pub get-leaf_self : (s : Key) (v : Cell) → get (leaf s v) s ≡ some v
unfolding get
get-leaf_self s v = rw (same_key_self s) refl

pub get-leaf_ne : (s : Key) (v : Cell) (bits : Key) → s ≢ bits → get (leaf s v) bits ≡ none
unfolding get
get-leaf_ne s v bits ne = elim (Bool-cases (same_key s bits)) [
  | inl hit ↦ absurd (ne (same_key-eq s bits hit))
  | inr miss ↦ rw miss refl
]

-- A fork finds what the old node found, but for the key of the new leaf.
pub get-fork :
    (c : Key) (a : Bool) (old : Node) (r : Key) (v : Cell) (other : Key)
    → length c < length other
    → other ≢ c ++ not a ∷ r
    → get (fork c a old (leaf r v)) other ≡ get (prepend c a old) other
get-fork c a old r v other h ne = elim (key_split c other h) [
  | inl (b, t, other_is) ↦ elim (Bool-either a b) [
    | inl old_side ↦
        let at : other ≡ c ++ a ∷ t = subst (λ x. other ≡ c ++ x ∷ t) old_side other_is in
        rw at (get-fork_old c a old (leaf r v) t ∙ sym (get-prepend_under old c a t))
    | inr new_side ↦
        let at : other ≡ c ++ not a ∷ t = subst (λ x. other ≡ c ++ x ∷ t) new_side other_is in
        let t_ne : t ≢ r = λ e. ne (at ∙ ap (λ x. c ++ not a ∷ x) e) in
        rw at (
          get-fork_new c a old (leaf r v) t
          ∙ get-leaf_ne r v t (λ e. t_ne (sym e))
          ∙ sym (get-prepend_fork old c a t))
  ]
  | inr d ↦ get-fork_apart c a old (leaf r v) other d ∙ sym (get-prepend_apart old c a other d)
]
