-- ===== src/Execution/Dictionary/Mutation.antt =====
-- Insertion changes the value of their key only, and keeps the width of all keys.
use the_open_network_x.Prelude.{
  ℕ, suc, ◌+◌, ◌≡◌, ◌≢◌, refl, sym, ap, subst, ◌∙◌, ◌++◌, Bool, true, false, not, Option, none,
  some, ◌∷◌, length, length-append, take-append, ltb, ◌==◌, ==_refl, arith, inl, inr, if◌then◌else◌,
}
use the_open_network_x.StateModel.Cell.{Cell}
use the_open_network_x.Execution.Dictionary.{
  Key, Node, leaf, branch, get, fork, insert_node, prepend,
}
use the_open_network_x.Execution.Dictionary.Bits.{
  key_compare, key_split, common_fork, common_prefix, common_self, bit_at_mid, drop_mid,
}
use the_open_network_x.Execution.Dictionary.Lookup.{
  get-branch_under, get-branch_apart, get-fork_new, get-fork, get-leaf_self, get-leaf_ne,
  get-prepend_fork,
}

-- Every key below the node has the given width.
abbrev pub HasWidth : ℕ → Node → Type 0
HasWidth w (leaf s v) = length s ≡ w
HasWidth w (branch p z o) = (k : ℕ) × (w ≡ length p + suc k) × HasWidth k z × HasWidth k o

pub length_mid : (c : Key) (a : Bool) (r : Key) → length (c ++ a ∷ r) ≡ length c + suc (length r)
length_mid c a r = length-append c (a ∷ r)

pub HasWidth-prepend :
    (c : Key) (b : Bool) (n : Node) (k : ℕ)
    → HasWidth k n
    → HasWidth (length c + suc k) (prepend c b n)
unfolding prepend
HasWidth-prepend c b (leaf s v) k h = omega (arith, length_mid c b s, h)
HasWidth-prepend c b (branch p z o) k (j, k_is, hz, ho) =
    (j, omega (arith, length_mid c b p, k_is), hz, ho)

HasWidth-fork :
    (c : Key) (a : Bool) (old new : Node) (k : ℕ)
    → HasWidth k old
    → HasWidth k new
    → HasWidth (length c + suc k) (fork c a old new)
unfolding fork
HasWidth-fork c true old new k ho hn = (k, refl, hn, ho)
HasWidth-fork c false old new k ho hn = (k, refl, ho, hn)

-- What an insertion has to do.
pub record IsInserted (w : ℕ) (n : Node) (bits : Key) (v : Cell) (result : Node × Option Cell)
    : Type 0 where
  pub width : HasWidth w result.0
  pub found : get result.0 bits ≡ some v
  pub prior : result.1 ≡ get n bits
  pub others : (other : Key) → length other ≡ w → other ≢ bits → get result.0 other ≡ get n other

insert_node-leaf_fork :
    (c : Key) (a : Bool) (s r : Key) (prior v : Cell)
    → insert_node (leaf (c ++ a ∷ s) prior) (c ++ not a ∷ r) v
      ≡ (fork c a (leaf s prior) (leaf r v), none)
unfolding insert_node
insert_node-leaf_fork c a s r prior v =
    let short : (length c == length (c ++ a ∷ s)) ≡ false =
      let l = length_mid c a s in ground arith in
    rw
      (
        common_fork c a s r,
        short,
        take-append c (a ∷ s),
        bit_at_mid c a s,
        drop_mid c a s,
        drop_mid c (not a) r,
      )
      refl

insert_node-leaf_same :
    (s : Key) (prior v : Cell) → insert_node (leaf s prior) s v ≡ (leaf s v, some prior)
unfolding insert_node
insert_node-leaf_same s prior v = rw (common_self s, ==_refl (length s)) refl

insert_node-branch_fork :
    (c : Key) (a : Bool) (p r : Key) (z o : Node) (v : Cell)
    → insert_node (branch (c ++ a ∷ p) z o) (c ++ not a ∷ r) v
      ≡ (fork c a (branch p z o) (leaf r v), none)
unfolding insert_node
insert_node-branch_fork c a p r z o v =
    let short : ltb (length c) (length (c ++ a ∷ p)) ≡ true =
      let l = length_mid c a p in ground arith in
    rw
      (
        common_fork c a p r,
        short,
        take-append c (a ∷ p),
        bit_at_mid c a p,
        drop_mid c a p,
        drop_mid c (not a) r,
      )
      refl

insert_node-branch_under :
    (p : Key) (z o : Node) (b : Bool) (r : Key) (v : Cell)
    → insert_node (branch p z o) (p ++ b ∷ r) v ≡ (
        if b
        then (branch p z (insert_node o r v).0, (insert_node o r v).1)
        else (branch p (insert_node z r v).0 o, (insert_node z r v).1))
unfolding insert_node
insert_node-branch_under p z o b r v =
    let whole : ltb (length p) (length p) ≡ false = ground arith in
    rw (common_prefix p b r, whole, bit_at_mid p b r, drop_mid p b r) refl

-- Where the new key leaves the old node.
forked :
    (w : ℕ) (c : Key) (a : Bool) (old : Node) (r : Key) (v : Cell)
    → HasWidth w (prepend c a old)
    → HasWidth (length r) old
    → length (c ++ not a ∷ r) ≡ w
    → IsInserted w (prepend c a old) (c ++ not a ∷ r) v (fork c a old (leaf r v), none)
forked w c a old r v whole below len =
    let w_is : length c + suc (length r) ≡ w = omega (arith, length_mid c (not a) r, len) in
    record {
      width =
          subst (λ k. HasWidth k (fork c a old (leaf r v))) w_is
            (HasWidth-fork c a old (leaf r v) (length r) below refl);
      found = get-fork_new c a old (leaf r v) r ∙ get-leaf_self r v;
      prior = sym (get-prepend_fork old c a r);
      others = λ other l ne. get-fork c a old r v other (omega (arith, l, w_is)) ne;
    }

-- A key below a branch is one behind its prefix, on one side.
side :
    (p : Key) (z o : Node) (w k : ℕ) (z' o' : Node) (b : Bool) (r : Key)
    → w ≡ length p + suc k
    → ((t : Key) → length t ≡ k → (b ≡ false → t ≢ r) → get z' t ≡ get z t)
    → ((t : Key) → length t ≡ k → (b ≡ true → t ≢ r) → get o' t ≡ get o t)
    → (other : Key) → length other ≡ w
    → other ≢ p ++ b ∷ r
    → get (branch p z' o') other ≡ get (branch p z o) other
side p z o w k z' o' b r w_is hz ho other l ne = elim (key_split p other (omega (arith, l, w_is))) [
  | inl (true, t, other_is) ↦
      let t_len : length t ≡ k = omega (arith, ap length other_is, length_mid p true t, l, w_is) in
      rw other_is (
        get-branch_under p z' o' true t
        ∙ ho t t_len (λ b_is e. ne (other_is ∙ rw (b_is, e) refl))
        ∙ sym (get-branch_under p z o true t))
  | inl (false, t, other_is) ↦
      let t_len : length t ≡ k = omega (arith, ap length other_is, length_mid p false t, l, w_is) in
      rw other_is (
        get-branch_under p z' o' false t
        ∙ hz t t_len (λ b_is e. ne (other_is ∙ rw (b_is, e) refl))
        ∙ sym (get-branch_under p z o false t))
  | inr d ↦ get-branch_apart p z' o' other d ∙ sym (get-branch_apart p z o other d)
]

leaf_forked :
    (w : ℕ) (c : Key) (a : Bool) (s r : Key) (prior v : Cell)
    → length (c ++ a ∷ s) ≡ w
    → length (c ++ not a ∷ r) ≡ w
    → IsInserted w
        (leaf (c ++ a ∷ s) prior)
        (c ++ not a ∷ r)
        v
        (insert_node (leaf (c ++ a ∷ s) prior) (c ++ not a ∷ r) v)
unfolding prepend
leaf_forked w c a s r prior v h len =
    subst (IsInserted w (leaf (c ++ a ∷ s) prior) (c ++ not a ∷ r) v)
      (sym (insert_node-leaf_fork c a s r prior v))
      (forked w c a (leaf s prior) r v h
        (omega (arith, length_mid c a s, length_mid c (not a) r, h, len)) len)

branch_forked :
    (w : ℕ) (c : Key) (a : Bool) (p r : Key) (z o : Node) (v : Cell)
    → HasWidth w (branch (c ++ a ∷ p) z o)
    → length (c ++ not a ∷ r) ≡ w
    → IsInserted w
        (branch (c ++ a ∷ p) z o)
        (c ++ not a ∷ r)
        v
        (insert_node (branch (c ++ a ∷ p) z o) (c ++ not a ∷ r) v)
unfolding prepend
branch_forked w c a p r z o v (k, w_is, hz, ho) len =
    subst (IsInserted w (branch (c ++ a ∷ p) z o) (c ++ not a ∷ r) v)
      (sym (insert_node-branch_fork c a p r z o v))
      (forked w c a (branch p z o) r v (k, w_is, hz, ho)
        (k, omega (arith, length_mid c a p, length_mid c (not a) r, w_is, len), hz, ho) len)

branch_under :
    (w : ℕ) (p : Key) (z o : Node) (k : ℕ) (b : Bool) (r : Key) (v : Cell)
    → w ≡ length p + suc k
    → HasWidth k z
    → HasWidth k o
    → IsInserted k (if b then o else z) r v (insert_node (if b then o else z) r v)
    → IsInserted w (branch p z o) (p ++ b ∷ r) v (insert_node (branch p z o) (p ++ b ∷ r) v)
branch_under w p z o k true r v w_is hz ho i =
    let below = insert_node o r v in
    subst (IsInserted w (branch p z o) (p ++ true ∷ r) v)
      (sym (insert_node-branch_under p z o true r v))
      (record {
        width = (k, w_is, hz, i.width);
        found = get-branch_under p z below.0 true r ∙ i.found;
        prior = i.prior ∙ sym (get-branch_under p z o true r);
        others =
            side p z o w k z below.0 true r w_is (λ t l ne. refl)
              (λ t l ne. i.others t l (ne refl));
      })
branch_under w p z o k false r v w_is hz ho i =
    let below = insert_node z r v in
    subst (IsInserted w (branch p z o) (p ++ false ∷ r) v)
      (sym (insert_node-branch_under p z o false r v))
      (record {
        width = (k, w_is, i.width, ho);
        found = get-branch_under p below.0 o false r ∙ i.found;
        prior = i.prior ∙ sym (get-branch_under p z o false r);
        others =
            side p z o w k below.0 o false r w_is (λ t l ne. i.others t l (ne refl))
              (λ t l ne. refl);
      })

-- An insertion into a node whose keys have one width: the key then has the new value, every other
-- key of that width has what it had, the returned value is what the key had, and the width stays.
pub insert_node_lem :
    (n : Node) (w : ℕ) (bits : Key) (v : Cell)
    → HasWidth w n
    → length bits ≡ w
    → IsInserted w n bits v (insert_node n bits v)
insert_node_lem (leaf s prior) w bits v h len = elim (key_compare s bits (h ∙ sym len)) [
  | inl same ↦
      subst (λ x. IsInserted w (leaf s prior) x v (insert_node (leaf s prior) x v)) same
        (subst (IsInserted w (leaf s prior) s v) (sym (insert_node-leaf_same s prior v)) (record {
          width = h;
          found = get-leaf_self s v;
          prior = sym (get-leaf_self s prior);
          others = λ other l ne.
              get-leaf_ne s v other (λ e. ne (sym e))
              ∙ sym (get-leaf_ne s prior other (λ e. ne (sym e)));
        }))
  | inr (c, a, s', r, s_is, bits_is) ↦
      let h' : length (c ++ a ∷ s') ≡ w = subst (λ x. length x ≡ w) s_is h in
      let len' : length (c ++ not a ∷ r) ≡ w = subst (λ x. length x ≡ w) bits_is len in
      rw (s_is, bits_is) (leaf_forked w c a s' r prior v h' len')
]
insert_node_lem (branch p z o) w bits v (k, w_is, hz, ho) len =
    elim (key_split p bits (omega (arith, w_is, len))) [
      | inl (true, r, bits_is) ↦
          let r_len : length r ≡ k =
            omega (arith, ap length bits_is, length_mid p true r, len, w_is) in
          rw bits_is (branch_under w p z o k true r v w_is hz ho (insert_node_lem o k r v ho r_len))
      | inl (false, r, bits_is) ↦
          let r_len : length r ≡ k =
            omega (arith, ap length bits_is, length_mid p false r, len, w_is) in
          rw bits_is
            (branch_under w p z o k false r v w_is hz ho (insert_node_lem z k r v hz r_len))
      | inr (c, a, p', r, p_is, bits_is) ↦
          let h' : HasWidth w (branch (c ++ a ∷ p') z o) =
            subst (λ x. HasWidth w (branch x z o)) p_is (k, w_is, hz, ho) in
          let len' : length (c ++ not a ∷ r) ≡ w = subst (λ x. length x ≡ w) bits_is len in
          rw (p_is, bits_is) (branch_forked w c a p' r z o v h' len')
    ]
