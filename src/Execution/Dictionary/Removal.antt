-- ===== src/Execution/Dictionary/Removal.antt =====
-- Removal takes the value of its key only, and keeps the width of all keys.
use the_open_network_x.Prelude.{
  ℕ, suc, ◌+◌, ◌≡◌, ◌≢◌, refl, sym, ap, subst, ◌∙◌, ◌++◌, Bool, true, false, Option, none, some,
  ◌∷◌, length, leb, arith, Bool-cases, inl, inr, if◌then◌else◌,
}
use the_open_network_x.StateModel.Cell.{Cell}
use the_open_network_x.Execution.Dictionary.{
  Key, Node, leaf, branch, same_key, starts_with, get, get_root, keep_zero, keep_one, remove_node,
}
use the_open_network_x.Execution.Dictionary.Bits.{
  Differs, key_split, same_key-eq, starts_with_prefix, starts_with_fork, bit_at_mid, drop_mid,
}
use the_open_network_x.Execution.Dictionary.Lookup.{
  get-branch_under, get-branch_apart, get-leaf_ne, get-prepend_under, get-prepend_fork,
  get-prepend_apart,
}
use the_open_network_x.Execution.Dictionary.Mutation.{HasWidth, HasWidth-prepend, length_mid}

abbrev pub HasRootWidth : ℕ → Option Node → Type 0
HasRootWidth w none = Unit {0}
HasRootWidth w (some n) = HasWidth w n

-- What a removal has to do.
pub record IsRemoved (w : ℕ) (n : Node) (bits : Key) (result : Option Node × Option Cell)
    : Type 0 where
  pub width : HasRootWidth w result.0
  pub gone : get_root result.0 bits ≡ none
  pub prior : result.1 ≡ get n bits
  pub others :
      (other : Key) → length other ≡ w → other ≢ bits → get_root result.0 other ≡ get n other

get-keep_zero :
    (p : Key) (z : Node) (m : Option Node) (t : Key)
    → (get (keep_zero p z m) (p ++ true ∷ t) ≡ get_root m t)
      × (get (keep_zero p z m) (p ++ false ∷ t) ≡ get z t)
unfolding keep_zero get_root
get-keep_zero p z (some child) t =
    (get-branch_under p z child true t, get-branch_under p z child false t)
get-keep_zero p z none t = (get-prepend_fork z p false t, get-prepend_under z p false t)

get-keep_one :
    (p : Key) (m : Option Node) (o : Node) (t : Key)
    → (get (keep_one p m o) (p ++ false ∷ t) ≡ get_root m t)
      × (get (keep_one p m o) (p ++ true ∷ t) ≡ get o t)
unfolding keep_one get_root
get-keep_one p (some child) o t =
    (get-branch_under p child o false t, get-branch_under p child o true t)
get-keep_one p none o t = (get-prepend_fork o p true t, get-prepend_under o p true t)

get-keep_apart :
    (p : Key) (z o : Node) (m : Option Node) (bits : Key)
    → Differs p bits
    → (get (keep_zero p z m) bits ≡ none) × (get (keep_one p m o) bits ≡ none)
unfolding keep_zero keep_one
get-keep_apart p z o (some child) bits d =
    (get-branch_apart p z child bits d, get-branch_apart p child o bits d)
get-keep_apart p z o none bits d =
    (get-prepend_apart z p false bits d, get-prepend_apart o p true bits d)

HasWidth-keep_zero :
    (p : Key) (z : Node) (m : Option Node) (w k : ℕ)
    → w ≡ length p + suc k
    → HasWidth k z
    → HasRootWidth k m
    → HasWidth w (keep_zero p z m)
unfolding keep_zero
HasWidth-keep_zero p z (some child) w k w_is hz hm = (k, w_is, hz, hm)
HasWidth-keep_zero p z none w k w_is hz hm = rw w_is (HasWidth-prepend p false z k hz)

HasWidth-keep_one :
    (p : Key) (m : Option Node) (o : Node) (w k : ℕ)
    → w ≡ length p + suc k
    → HasRootWidth k m
    → HasWidth k o
    → HasWidth w (keep_one p m o)
unfolding keep_one
HasWidth-keep_one p (some child) o w k w_is hm ho = (k, w_is, hm, ho)
HasWidth-keep_one p none o w k w_is hm ho = rw w_is (HasWidth-prepend p true o k ho)

remove_node-branch_under :
    (p : Key) (z o : Node) (b : Bool) (r : Key)
    → remove_node (branch p z o) (p ++ b ∷ r) ≡ (
        if b
        then (some (keep_zero p z (remove_node o r).0), (remove_node o r).1)
        else (some (keep_one p (remove_node z r).0 o), (remove_node z r).1))
unfolding remove_node
remove_node-branch_under p z o b r =
    let long : leb (length (p ++ b ∷ r)) (length p) ≡ false =
      let l = length_mid p b r in ground arith in
    rw (starts_with_prefix p (b ∷ r), long, bit_at_mid p b r, drop_mid p b r) refl

remove_node-branch_apart :
    (p : Key) (z o : Node) (bits : Key)
    → Differs p bits
    → remove_node (branch p z o) bits ≡ (some (branch p z o), none)
unfolding remove_node
remove_node-branch_apart p z o bits (c, a, p', r, p_is, bits_is) =
    let apart : starts_with bits p ≡ false = rw (p_is, bits_is) (starts_with_fork c a p' r) in
    rw apart refl

under_one :
    (w : ℕ) (p : Key) (z o : Node) (k : ℕ) (r : Key)
    → w ≡ length p + suc k
    → HasWidth k z
    → IsRemoved k o r (remove_node o r)
    → IsRemoved w
        (branch p z o)
        (p ++ true ∷ r)
        (some (keep_zero p z (remove_node o r).0), (remove_node o r).1)
unfolding get_root
under_one w p z o k r w_is hz i =
    let m = (remove_node o r).0 in
    record {
      width = HasWidth-keep_zero p z m w k w_is hz i.width;
      gone = (get-keep_zero p z m r).0 ∙ i.gone;
      prior = i.prior ∙ sym (get-branch_under p z o true r);
      others = λ other l ne. elim (key_split p other (omega (arith, l, w_is))) [
        | inl (true, t, other_is) ↦
            let t_len : length t ≡ k =
              omega (arith, ap length other_is, length_mid p true t, l, w_is) in
            rw other_is (
              (get-keep_zero p z m t).0
              ∙ i.others t t_len (λ e. ne (other_is ∙ rw e refl))
              ∙ sym (get-branch_under p z o true t))
        | inl (false, t, other_is) ↦
            rw other_is ((get-keep_zero p z m t).1 ∙ sym (get-branch_under p z o false t))
        | inr d ↦ (get-keep_apart p z o m other d).0 ∙ sym (get-branch_apart p z o other d)
      ];
    }

under_zero :
    (w : ℕ) (p : Key) (z o : Node) (k : ℕ) (r : Key)
    → w ≡ length p + suc k
    → HasWidth k o
    → IsRemoved k z r (remove_node z r)
    → IsRemoved w
        (branch p z o)
        (p ++ false ∷ r)
        (some (keep_one p (remove_node z r).0 o), (remove_node z r).1)
unfolding get_root
under_zero w p z o k r w_is ho i =
    let m = (remove_node z r).0 in
    record {
      width = HasWidth-keep_one p m o w k w_is i.width ho;
      gone = (get-keep_one p m o r).0 ∙ i.gone;
      prior = i.prior ∙ sym (get-branch_under p z o false r);
      others = λ other l ne. elim (key_split p other (omega (arith, l, w_is))) [
        | inl (false, t, other_is) ↦
            let t_len : length t ≡ k =
              omega (arith, ap length other_is, length_mid p false t, l, w_is) in
            rw other_is (
              (get-keep_one p m o t).0
              ∙ i.others t t_len (λ e. ne (other_is ∙ rw e refl))
              ∙ sym (get-branch_under p z o false t))
        | inl (true, t, other_is) ↦
            rw other_is ((get-keep_one p m o t).1 ∙ sym (get-branch_under p z o true t))
        | inr d ↦ (get-keep_apart p z o m other d).1 ∙ sym (get-branch_apart p z o other d)
      ];
    }

unchanged :
    (n : Node) (w : ℕ) (bits : Key)
    → HasWidth w n
    → get n bits ≡ none
    → IsRemoved w n bits (some n, none)
unfolding get_root
unchanged n w bits h out = record {
  width = h;
  gone = out;
  prior = sym out;
  others = λ other l ne. refl;
}

-- A removal from a node whose keys have one width: the key has no value then, every other key of
-- that width has what it had, the returned value is what the key had, and the width stays.
pub remove_node_lem :
    (n : Node) (w : ℕ) (bits : Key)
    → HasWidth w n
    → length bits ≡ w
    → IsRemoved w n bits (remove_node n bits)
unfolding remove_node get_root get
remove_node_lem (leaf s v) w bits h len = elim (Bool-cases (same_key s bits)) [
  | inl hit ↦
      let s_is = same_key-eq s bits hit in
      rw hit (record {
        width = tt;
        gone = refl;
        prior = rw hit refl;
        others = λ other l ne. sym (get-leaf_ne s v other (λ e. ne (sym e ∙ s_is)));
      })
  | inr miss ↦ rw miss (unchanged (leaf s v) w bits h (rw miss refl))
]
remove_node_lem (branch p z o) w bits (k, w_is, hz, ho) len =
    elim (key_split p bits (omega (arith, w_is, len))) [
      | inl (true, r, bits_is) ↦
          let r_len : length r ≡ k =
            omega (arith, ap length bits_is, length_mid p true r, len, w_is) in
          rw bits_is (
            subst (IsRemoved w (branch p z o) (p ++ true ∷ r))
              (sym (remove_node-branch_under p z o true r))
              (under_one w p z o k r w_is hz (remove_node_lem o k r ho r_len)))
      | inl (false, r, bits_is) ↦
          let r_len : length r ≡ k =
            omega (arith, ap length bits_is, length_mid p false r, len, w_is) in
          rw bits_is (
            subst (IsRemoved w (branch p z o) (p ++ false ∷ r))
              (sym (remove_node-branch_under p z o false r))
              (under_zero w p z o k r w_is ho (remove_node_lem z k r hz r_len)))
      | inr d ↦
          subst (IsRemoved w (branch p z o) bits) (sym (remove_node-branch_apart p z o bits d))
            (unchanged (branch p z o) w bits (k, w_is, hz, ho) (get-branch_apart p z o bits d))
    ]
