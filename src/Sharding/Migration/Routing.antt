-- ===== src/Sharding/Migration/Routing.antt =====
-- Where the accounts and the messages of a shard go, by whether one of its children owns them.
use the_open_network_x.Prelude.{
  ◌≡◌, refl, ◌∙◌, ◌++◌, append_assoc, append-nil, Bool, true, false, not, ◌&&◌, ◌||◌, Option, none,
  List, [], ◌∷◌, All, ok, is_ok, if◌then◌else◌, arith, Bool-cases, inl, inr,
}
use mathlib.Core.List.{Perm, perm_middle}
use mathlib.Core.List.Perm
use the_open_network_x.Prelude.Ord.{same, bytes_ord}
use the_open_network_x.Prelude.Int.{int_ord}
use the_open_network_x.Prelude.BTreeMap.{lookup, insert, lookup-insert_self, lookup-insert_ne}
use the_open_network_x.Prelude.BTreeMap.Sorted.{IsSorted, insert-IsSorted, lookup-Above, All-insert}
use the_open_network_x.Prelude.BTreeMap.Extend.{or_else}
use the_open_network_x.DataStructures.Address.{AccountId}
use the_open_network_x.DataStructures.Shard.{
  ShardIdent, contains_account, validate_account_id, validate_full_address,
}
use the_open_network_x.DataStructures.Message.{Message, validate_dest_shard}
use the_open_network_x.StateModel.Account.{AccountState}
use the_open_network_x.Sharding.Migration.{
  Accounts, owns, check_accounts, check_messages, route_accounts, route_messages,
}

abbrev pub Owns : ShardIdent → AccountId × AccountState → Type 0
Owns shard entry = owns shard entry.0 ≡ ok true

abbrev pub Receives : ShardIdent → Message → Type 0
Receives shard message = is_ok (validate_dest_shard message shard) ≡ true

pub check_accounts-All :
    (shard : ShardIdent) (m : Accounts) → check_accounts shard m ≡ ok tt → All (Owns shard) m
unfolding check_accounts
check_accounts-All shard [] h = tt
check_accounts-All shard ((account, state) ∷ m) h = ground (arith, h, check_accounts-All shard m)

pub All-check_accounts :
    (shard : ShardIdent) (m : Accounts) → All (Owns shard) m → check_accounts shard m ≡ ok tt
unfolding check_accounts
All-check_accounts shard [] a = refl
All-check_accounts shard ((account, state) ∷ m) a =
    rw (check_accounts, a.0) (All-check_accounts shard m a.1)

pub check_messages-All :
    (shard : ShardIdent) (ms : List Message)
    → check_messages shard ms ≡ ok tt
    → All (Receives shard) ms
unfolding check_messages
check_messages-All shard [] h = tt
check_messages-All shard (m ∷ ms) h = ground (arith, h, check_messages-All shard ms)

pub All-check_messages :
    (shard : ShardIdent) (ms : List Message)
    → All (Receives shard) ms
    → check_messages shard ms ≡ ok tt
unfolding check_messages
All-check_messages shard [] a = refl
All-check_messages shard (m ∷ ms) a = rw (check_messages, a.0) (All-check_messages shard ms a.1)

-- A shard receives the messages of its workchain to the accounts that it owns.
pub validate_dest_shard_lem :
    (m : Message) (shard : ShardIdent) (inside : Bool)
    → contains_account shard m.dest_address.account_id ≡ ok inside
    → is_ok (validate_dest_shard m shard)
      ≡ (same shard.workchain_id m.dest_address.workchain_id && inside)
unfolding validate_dest_shard validate_full_address validate_account_id
validate_dest_shard_lem m shard inside h = ground (arith, h)

-- The accounts of a list that pass a test, put into a map.
abbrev pub kept : (AccountId → Bool) → Accounts → Accounts → Accounts
kept f [] acc = acc
kept f ((account, state) ∷ m) acc = kept f m (if f account then insert account state acc else acc)

abbrev pub keep : Bool → Option AccountState → Option AccountState
keep true state = state
keep false state = none

module _ (f : AccountId → Bool) where
  pub kept-IsSorted : (m acc : Accounts) → IsSorted acc → IsSorted (kept f m acc)
  kept-IsSorted [] acc s = s
  kept-IsSorted ((account, state) ∷ m) acc s = elim (Bool-cases (f account)) [
    | inl yes_f ↦
        kept-IsSorted m (if f account then insert account state acc else acc)
          (rw yes_f (insert-IsSorted account state acc s))
    | inr no_f ↦ kept-IsSorted m (if f account then insert account state acc else acc) (rw no_f s)
  ]

  pub lookup-kept :
      (k : AccountId) (m acc : Accounts)
      → IsSorted m
      → lookup k (kept f m acc) ≡ or_else (keep (f k) (lookup k m)) (lookup k acc)
  unfolding lookup
  lookup-kept k [] acc s = ground arith
  lookup-kept k ((account, state) ∷ m) acc s = ground (
    arith,
    lookup-kept k m (if f account then insert account state acc else acc) s.1,
    bytes_ord.cmp_eq k account,
    bytes_ord.cmp_self k,
    lookup-Above account m s.0,
    lookup-insert_self account state acc,
    lookup-insert_ne k account state acc,
  )

  -- What holds of the entries that pass the test holds of the map.
  pub All-kept :
      (P Q : AccountId × AccountState → Type 0)
      → ((entry : AccountId × AccountState) → P entry → f entry.0 ≡ true → Q entry)
      → (m acc : Accounts) → All P m
      → All Q acc
      → All Q (kept f m acc)
  All-kept P Q imp [] acc a b = b
  All-kept P Q imp ((account, state) ∷ m) acc a b = elim (Bool-cases (f account)) [
    | inl yes_f ↦
        All-kept P Q imp m (if f account then insert account state acc else acc) a.1
          (rw yes_f (All-insert Q account state acc (imp (account, state) a.0 yes_f) b))
    | inr no_f ↦
        All-kept P Q imp m (if f account then insert account state acc else acc) a.1 (rw no_f b)
  ]

  pub route_accounts_lem :
      (left_shard : ShardIdent)
      → ((account : AccountId) → owns left_shard account ≡ ok (f account))
      → (m left right : Accounts)
      → route_accounts left_shard m left right
        ≡ ok (kept f m left, kept (λ account. not (f account)) m right)
  unfolding route_accounts
  route_accounts_lem left_shard h [] left right = refl
  route_accounts_lem left_shard h ((account, state) ∷ m) left right =
      elim (Bool-cases (f account)) [
        | inl yes_f ↦
            rw (route_accounts, h account, yes_f)
              (route_accounts_lem left_shard h m (insert account state left) right)
        | inr no_f ↦
            rw (route_accounts, h account, no_f)
              (route_accounts_lem left_shard h m left (insert account state right))
      ]

-- The messages of a list that pass a test, in their order.
abbrev pub chosen : (Message → Bool) → List Message → List Message
chosen g [] = []
chosen g (m ∷ ms) = if g m then m ∷ chosen g ms else chosen g ms

module _ (g : Message → Bool) where
  pub All-chosen :
      (P Q : Message → Type 0)
      → ((m : Message) → P m → g m ≡ true → Q m)
      → (ms : List Message) → All P ms
      → All Q (chosen g ms)
  All-chosen P Q imp [] a = tt
  All-chosen P Q imp (m ∷ ms) a = elim (Bool-cases (g m)) [
    | inl yes_g ↦ rw yes_g (imp m a.0 yes_g, All-chosen P Q imp ms a.1)
    | inr no_g ↦ rw no_g (All-chosen P Q imp ms a.1)
  ]

  -- The chosen ones and the others are all of them.
  pub chosen-perm : (ms : List Message) → Perm (chosen g ms ++ chosen (λ m. not (g m)) ms) ms
  chosen-perm [] = Perm.refl []
  chosen-perm (m ∷ ms) = elim (Bool-cases (g m)) [
    | inl yes_g ↦ rw yes_g (Perm.cons m (chosen-perm ms))
    | inr no_g ↦ rw no_g (
        Perm.trans (perm_middle (chosen g ms) (chosen (λ m'. not (g m')) ms))
          (Perm.cons m (chosen-perm ms)))
  ]

  pub route_messages_lem :
      (left_shard right_shard : ShardIdent)
      → ((m : Message) → is_ok (validate_dest_shard m left_shard) ≡ g m)
      → (ms left right : List Message)
      → All (λ m. (g m || is_ok (validate_dest_shard m right_shard)) ≡ true) ms
      → route_messages left_shard right_shard ms left right
        ≡ ok (left ++ chosen g ms, right ++ chosen (λ m. not (g m)) ms)
  unfolding route_messages
  route_messages_lem left_shard right_shard h [] left right a =
      rw (append-nil left, append-nil right) refl
  route_messages_lem left_shard right_shard h (m ∷ ms) left right a = elim (Bool-cases (g m)) [
    | inl yes_g ↦
        let rest = route_messages_lem left_shard right_shard h ms (left ++ m ∷ []) right a.1 in
        rw (route_messages, h m, yes_g) (rest ∙ rw (append_assoc left (m ∷ []) (chosen g ms)) refl)
    | inr no_g ↦
        let in_right : is_ok (validate_dest_shard m right_shard) ≡ true =
          ground (arith, a.0, no_g) in
        let rest = route_messages_lem left_shard right_shard h ms left (right ++ m ∷ []) a.1 in
        rw (route_messages, h m, no_g, in_right)
          (rest ∙ rw (append_assoc right (m ∷ []) (chosen (λ m'. not (g m')) ms)) refl)
  ]
