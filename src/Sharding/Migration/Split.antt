-- ===== src/Sharding/Migration/Split.antt =====
-- A split divides the state of a shard among its children.

use the_open_network_x.Prelude.{
  ℕ, ◌+◌, ◌*◌, ◌^◌, ◌<◌, ◌≡◌, refl, ap, ◌∙◌, Bool, true, not, ◌&&◌, ◌||◌, some, List, [], ◌∷◌, All,
  All-imp, take, ok, is_ok, ◌==◌, arith,
}
use the_open_network_x.Prelude.Ord.{same, bytes_ord}
use the_open_network_x.Prelude.Int.{int_ord}
use the_open_network_x.Prelude.Words.{from_be}
use the_open_network_x.Prelude.BTreeMap.Sorted.{IsSorted}
use the_open_network_x.Prelude.Sort.{sort_by, All-sort_by}
use the_open_network_x.Primitives.Hash.{Crypto}
use the_open_network_x.DataStructures.Address.{AccountId}
use the_open_network_x.DataStructures.Shard.{ShardIdent}
use the_open_network_x.DataStructures.Message.{Message, validate_dest_shard}
use the_open_network_x.StateModel.Account.{AccountState}
use the_open_network_x.Sharding.Tree.{child_0, child_1}
use the_open_network_x.Sharding.Tree.Partition.{
  IsSplit, place, split_leaf_lem, contains_account-child_0, contains_account-child_1,
  contains_account-parent,
}
use the_open_network_x.Sharding.Migration.{
  ShardState, owns, validate_ownership, sort_messages, divide, split_shard_state, cmp_messages,
}
use the_open_network_x.Sharding.Migration.Routing.{
  Owns, Receives, check_accounts-All, All-check_accounts, check_messages-All, All-check_messages,
  validate_dest_shard_lem, kept, kept-IsSorted, All-kept, route_accounts_lem, chosen, All-chosen,
  route_messages_lem,
}

-- The first eight bytes of an account are a `u64`.
abbrev pub HasBits : AccountId → Type 0
HasBits account = from_be (take 8 account) < 2 ^ 64

-- A state of a shard: its map is in order, and every account and every message belongs to the shard.
pub record IsShardState (p : ShardState) : Type 0 where
  pub sorted : IsSorted p.accounts
  pub have_bits : All (λ e. HasBits e.0) p.accounts
  pub dests_have_bits : All (λ m. HasBits m.dest_address.account_id) p.pending_messages
  pub owned : validate_ownership p ≡ ok tt

validate_ownership-All :
    (p : ShardState)
    → validate_ownership p ≡ ok tt
    → All (Owns p.shard) p.accounts × All (Receives p.shard) p.pending_messages
unfolding validate_ownership
validate_ownership-All p h = (
  check_accounts-All p.shard p.accounts (ground (arith, h)),
  check_messages-All p.shard p.pending_messages (ground (arith, h)),
)

All-validate_ownership :
    (p : ShardState)
    → All (Owns p.shard) p.accounts
    → All (Receives p.shard) p.pending_messages
    → validate_ownership p ≡ ok tt
unfolding validate_ownership
All-validate_ownership p a b =
    rw (validate_ownership, All-check_accounts p.shard p.accounts a)
      (All-check_messages p.shard p.pending_messages b)

-- Both of two predicates.
All-both :
    {A : Type 0} (P Q : A → Type 0) (xs : List A) → All P xs → All Q xs → All (λ x. P x × Q x) xs
All-both P Q [] a b = tt
All-both P Q (x ∷ xs) a b = ((a.0, b.0), All-both P Q xs a.1 b.1)

module _ (crypto : Crypto) (p : ShardState) (len q : ℕ) (split : IsSplit p.shard len q) where
  abbrev pub left_shard : ShardIdent
  left_shard = child_0 p.shard len

  abbrev pub right_shard : ShardIdent
  right_shard = child_1 p.shard len

  -- Whether an account belongs to the left child, and whether a message goes there.
  abbrev pub goes_left : AccountId → Bool
  goes_left account = 2 * q == place p.shard len q split account

  abbrev pub sent_left : Message → Bool
  sent_left m =
      same p.shard.workchain_id m.dest_address.workchain_id && goes_left m.dest_address.account_id

  abbrev pub left_state : ShardState
  left_state = record {
    shard = left_shard;
    accounts = kept goes_left p.accounts [];
    pending_messages = sort_messages crypto (chosen sent_left p.pending_messages);
  }

  abbrev pub right_state : ShardState
  right_state = record {
    shard = right_shard;
    accounts = kept (λ account. not (goes_left account)) p.accounts [];
    pending_messages = sort_messages crypto (chosen (λ m. not (sent_left m)) p.pending_messages);
  }

  owns-left : (account : AccountId) → owns left_shard account ≡ ok (goes_left account)
  unfolding owns
  owns-left account = rw (contains_account-child_0 p.shard len q split account) refl

  owns-right :
      (account : AccountId)
      → owns right_shard account ≡ ok (2 * q + 1 == place p.shard len q split account)
  unfolding owns
  owns-right account = rw (contains_account-child_1 p.shard len q split account) refl

  receives_left : (m : Message) → is_ok (validate_dest_shard m left_shard) ≡ sent_left m
  unfolding child_0
  receives_left m =
      validate_dest_shard_lem m left_shard (goes_left m.dest_address.account_id)
        (contains_account-child_0 p.shard len q split m.dest_address.account_id)

  -- What the parent owns and the left child does not, the right child owns.
  right_rest :
      (account : AccountId)
      → HasBits account
      → owns p.shard account ≡ ok true
      → not (goes_left account) ≡ true
      → owns right_shard account ≡ ok true
  unfolding owns
  right_rest account bits owned outside =
      let both = contains_account-parent p.shard len q split account bits in
      let right = contains_account-child_1 p.shard len q split account in
      ground (arith, both, right, owned, outside)

  reaches_a_child :
      (m : Message)
      → HasBits m.dest_address.account_id
      → Receives p.shard m
      → (sent_left m || is_ok (validate_dest_shard m right_shard)) ≡ true
  unfolding child_1
  reaches_a_child m bits received =
      let account = m.dest_address.account_id in
      let whole =
        validate_dest_shard_lem m p.shard
          ((2 * q == place p.shard len q split account)
            || (2 * q + 1 == place p.shard len q split account))
          (contains_account-parent p.shard len q split account bits) in
      let right =
        validate_dest_shard_lem m right_shard (2 * q + 1 == place p.shard len q split account)
          (contains_account-child_1 p.shard len q split account) in
      ground (arith, whole, right, received)

  sent_right :
      (m : Message)
      → HasBits m.dest_address.account_id × Receives p.shard m
      → not (sent_left m) ≡ true
      → Receives right_shard m
  sent_right m b outside = let either = reaches_a_child m b.0 b.1 in ground (arith, either, outside)

  divide-is :
      All (λ m. HasBits m.dest_address.account_id × Receives p.shard m) p.pending_messages
      → divide crypto p left_shard right_shard ≡ ok (left_state, right_state)
  unfolding divide
  divide-is dests =
      rw
        (
          route_accounts_lem goes_left left_shard owns-left p.accounts [] [],
          route_messages_lem sent_left left_shard right_shard receives_left p.pending_messages [] []
              (All-imp (λ m b. reaches_a_child m b.0 b.1) p.pending_messages dests),
        )
        refl

  module _ (h : IsShardState p) where
    owned_accounts : All (λ e. HasBits e.0 × Owns p.shard e) p.accounts
    owned_accounts =
        All-both (λ e. HasBits e.0) (Owns p.shard) p.accounts h.have_bits
          (validate_ownership-All p h.owned).0

    owned_messages :
        All (λ m. HasBits m.dest_address.account_id × Receives p.shard m) p.pending_messages
    owned_messages =
        All-both (λ m. HasBits m.dest_address.account_id) (Receives p.shard) p.pending_messages
          h.dests_have_bits (validate_ownership-All p h.owned).1

    -- Accounts and messages that pass a test and then belong to a child are a state of that child.
    child-IsShardState :
        (child : ShardIdent) (f : AccountId → Bool) (g : Message → Bool)
        → ((e : AccountId × AccountState)
            → HasBits e.0 × Owns p.shard e
            → f e.0 ≡ true
            → Owns child e)
        → ((m : Message)
            → HasBits m.dest_address.account_id × Receives p.shard m
            → g m ≡ true
            → Receives child m)
        → IsShardState (record {
          shard = child;
          accounts = kept f p.accounts [];
          pending_messages = sort_messages crypto (chosen g p.pending_messages);
        })
    unfolding sort_messages
    child-IsShardState child f g owns_it receives_it = record {
      sorted = kept-IsSorted f p.accounts [] tt;
      have_bits =
          All-kept f (λ e. HasBits e.0) (λ e. HasBits e.0) (λ e b pass. b) p.accounts [] h.have_bits
            tt;
      dests_have_bits =
          All-sort_by (cmp_messages crypto) (λ m. HasBits m.dest_address.account_id)
            (chosen g p.pending_messages)
            (All-chosen g (λ m. HasBits m.dest_address.account_id)
              (λ m. HasBits m.dest_address.account_id) (λ m b pass. b) p.pending_messages
              h.dests_have_bits);
      owned =
          All-validate_ownership
            (record {
              shard = child;
              accounts = kept f p.accounts [];
              pending_messages = sort_by (cmp_messages crypto) (chosen g p.pending_messages);
            })
            (All-kept f (λ e. HasBits e.0 × Owns p.shard e) (Owns child) owns_it p.accounts []
              owned_accounts tt)
            (All-sort_by (cmp_messages crypto) (Receives child) (chosen g p.pending_messages) (
              All-chosen g (λ m. HasBits m.dest_address.account_id × Receives p.shard m)
                (Receives child) receives_it p.pending_messages owned_messages));
    }

    pub left-IsShardState : IsShardState left_state
    left-IsShardState =
        child-IsShardState left_shard goes_left sent_left (λ e b pass. owns-left e.0 ∙ ap ok pass)
          (λ m b pass. receives_left m ∙ pass)

    pub right-IsShardState : IsShardState right_state
    right-IsShardState =
        child-IsShardState right_shard (λ account. not (goes_left account)) (λ m. not (sent_left m))
          (λ e b pass. right_rest e.0 b.0 b.1 pass) sent_right

    pub split_shard_state-is : split_shard_state crypto p ≡ some (ok (left_state, right_state))
    unfolding split_shard_state
    split_shard_state-is =
        rw (split_shard_state, h.owned, split_leaf_lem p.shard len q split 0 0)
          (ap some (divide-is owned_messages))
