-- ===== src/StateModel/Account/Laws.antt =====
-- The codec of an account state, and the transitions of an account.
use the_open_network_x.Prelude.{
  ℕ, suc, ◌+◌, ◌^◌, ◌≤◌, ◌<◌, ◌≡◌, refl, sym, ap, ◌∙◌, min, ◌++◌, false, length, length-append,
  take-append_at, drop-append_at, append_assoc, ok, arith, ltb,
}
use the_open_network_x.Prelude.Int.{ℤ, pos, negsuc}
use the_open_network_x.Prelude.Words.{u128_max}
use the_open_network_x.Primitives.Error.{Bytes}
use the_open_network_x.Primitives.Uint
use the_open_network_x.Primitives.Uint.Laws.{decode_exact-encode, length-encode}
use the_open_network_x.StateModel.Account.{
  AccountState, ActiveAccount, FrozenAccount, uninitialized_state, active_state, frozen_state,
  destroyed_state, from_u8, account_to_bytes, account_from_bytes, active_from_bytes,
  frozen_from_bytes, state_from_bytes, read_uint,
}

-- The moves of an account in its life, each at a logical time.
pub data Transition : AccountState → ℕ → AccountState → Type 0 where
  stay : (lt : ℕ) → Transition uninitialized_state lt uninitialized_state
  deploy : (b : ActiveAccount) → Transition uninitialized_state b.last_trans_lt (active_state b)
  update :
      (a b : ActiveAccount)
      → a.last_trans_lt < b.last_trans_lt
      → Transition (active_state a) b.last_trans_lt (active_state b)
  freeze :
      (a : ActiveAccount) (b : FrozenAccount)
      → a.last_trans_lt < b.last_trans_lt
      → Transition (active_state a) b.last_trans_lt (frozen_state b)
  thaw :
      (a : FrozenAccount) (b : ActiveAccount)
      → a.last_trans_lt < b.last_trans_lt
      → Transition (frozen_state a) b.last_trans_lt (active_state b)
  charge :
      (a b : FrozenAccount)
      → a.last_trans_lt < b.last_trans_lt
      → Transition (frozen_state a) b.last_trans_lt (frozen_state b)
  destroy_active : (a : ActiveAccount) (lt : ℕ) → Transition (active_state a) lt destroyed_state
  destroy_frozen : (a : FrozenAccount) (lt : ℕ) → Transition (frozen_state a) lt destroyed_state

-- What the difference of the balances is, where the next state has one.
abbrev pub IsBalanced : ℕ → ℤ → AccountState → Type 0
IsBalanced before (pos n) (active_state b) = b.balance_nanos ≡ min (before + n) u128_max
IsBalanced before (pos n) (frozen_state b) = b.balance_nanos ≡ min (before + n) u128_max
IsBalanced before (pos n) _ = Unit {0}
IsBalanced before (negsuc n) (active_state b) = b.balance_nanos + suc n ≡ before
IsBalanced before (negsuc n) (frozen_state b) = b.balance_nanos + suc n ≡ before
IsBalanced before (negsuc n) _ = suc n ≤ before

-- The hashes have 32 bytes and the numbers fit their types.
abbrev pub IsAccount : AccountState → Type 0
IsAccount uninitialized_state = Unit {0}
IsAccount (active_state a) =
    (a.balance_nanos < 256 ^ 16)
    × (a.last_trans_lt < 256 ^ 8)
    × (length a.code_hash ≡ 32)
    × (length a.data_hash ≡ 32)
    × (a.storage_stat.cell_count < 256 ^ 4)
    × (a.storage_stat.byte_count < 256 ^ 8)
IsAccount (frozen_state f) =
    (f.balance_nanos < 256 ^ 16) × (f.last_trans_lt < 256 ^ 8) × (length f.storage_hash ≡ 32)
IsAccount destroyed_state = Unit {0}

read_back :
    (n v : ℕ) (rest : Bytes) → v < 256 ^ n → read_uint n (Uint.encode n v ++ rest) ≡ ok (v, rest)
read_back n v rest fits = rw ((decode_exact-encode n v rest fits).1) refl

frozen_back :
    (f : FrozenAccount) (rest : Bytes)
    → IsAccount (frozen_state f)
    → frozen_from_bytes (
        Uint.encode 16 f.balance_nanos
        ++ (Uint.encode 8 f.last_trans_lt ++ (f.storage_hash ++ rest)))
      ≡ ok (frozen_state f, 57)
unfolding frozen_from_bytes
frozen_back f rest valid =
    let long : ltb (length (f.storage_hash ++ rest)) 32 ≡ false =
      let l = length-append f.storage_hash rest in ground (arith, l, valid.2) in
    rw
      (
        read_back 16 f.balance_nanos (Uint.encode 8 f.last_trans_lt ++ (f.storage_hash ++ rest))
            valid.0,
        read_back 8 f.last_trans_lt (f.storage_hash ++ rest) valid.1,
        long,
        take-append_at 32 f.storage_hash rest valid.2,
      )
      refl

length_frozen :
    (f : FrozenAccount)
    → IsAccount (frozen_state f)
    → length (account_to_bytes (frozen_state f)) ≡ 57
unfolding account_to_bytes
length_frozen f valid = omega (
  arith,
  length-append (Uint.encode 16 f.balance_nanos) (Uint.encode 8 f.last_trans_lt ++ f.storage_hash),
  length-append (Uint.encode 8 f.last_trans_lt) f.storage_hash,
  length-encode 16 f.balance_nanos,
  length-encode 8 f.last_trans_lt,
  valid.2,
)

active_back :
    (a : ActiveAccount) (rest : Bytes)
    → IsAccount (active_state a)
    → active_from_bytes (
        Uint.encode 16 a.balance_nanos
        ++ (Uint.encode 8 a.last_trans_lt
            ++ (a.code_hash
                ++ (a.data_hash
                    ++ (Uint.encode 4 a.storage_stat.cell_count
                        ++ (Uint.encode 8 a.storage_stat.byte_count ++ rest))))))
      ≡ ok (active_state a, 101)
unfolding active_from_bytes
active_back a rest valid =
    let counts =
      Uint.encode 4 a.storage_stat.cell_count
      ++ (Uint.encode 8 a.storage_stat.byte_count ++ rest) in
    let hashes = a.code_hash ++ (a.data_hash ++ counts) in
    let long : ltb (length hashes) 64 ≡ false =
      let l = length-append a.code_hash (a.data_hash ++ counts) in
      let m = length-append a.data_hash counts in ground (arith, l, m, valid.2, valid.3) in
    rw
      (
        read_back 16 a.balance_nanos (Uint.encode 8 a.last_trans_lt ++ hashes) valid.0,
        read_back 8 a.last_trans_lt hashes valid.1,
        long,
        take-append_at 32 a.code_hash (a.data_hash ++ counts) valid.2,
        drop-append_at 32 a.code_hash (a.data_hash ++ counts) valid.2,
        take-append_at 32 a.data_hash counts valid.3,
        drop-append_at 32 a.data_hash counts valid.3,
        read_back 4 a.storage_stat.cell_count (Uint.encode 8 a.storage_stat.byte_count ++ rest)
            valid.4,
        read_back 8 a.storage_stat.byte_count rest valid.5,
      )
      refl

length_active :
    (a : ActiveAccount)
    → IsAccount (active_state a)
    → length (account_to_bytes (active_state a)) ≡ 101
unfolding account_to_bytes
length_active a valid =
    let stat = Uint.encode 4 a.storage_stat.cell_count ++ Uint.encode 8 a.storage_stat.byte_count in
    omega (
      arith,
      length-append (Uint.encode 16 a.balance_nanos)
          (Uint.encode 8 a.last_trans_lt ++ (a.code_hash ++ (a.data_hash ++ stat))),
      length-append (Uint.encode 8 a.last_trans_lt) (a.code_hash ++ (a.data_hash ++ stat)),
      length-append a.code_hash (a.data_hash ++ stat),
      length-append a.data_hash stat,
      length-append (Uint.encode 4 a.storage_stat.cell_count)
          (Uint.encode 8 a.storage_stat.byte_count),
      length-encode 16 a.balance_nanos,
      length-encode 8 a.last_trans_lt,
      length-encode 4 a.storage_stat.cell_count,
      length-encode 8 a.storage_stat.byte_count,
      valid,
    )

-- Reading the encoding of an account state, with any bytes behind it, gives the state and the length of its encoding.
pub account_from_bytes-to_bytes :
    (s : AccountState) (rest : Bytes)
    → IsAccount s
    → account_from_bytes (account_to_bytes s ++ rest) ≡ ok (s, length (account_to_bytes s))
unfolding account_from_bytes account_to_bytes state_from_bytes from_u8
account_from_bytes-to_bytes uninitialized_state rest valid = refl
account_from_bytes-to_bytes destroyed_state rest valid = refl
account_from_bytes-to_bytes (frozen_state f) rest valid =
    let e = Uint.encode 16 f.balance_nanos in
    let l = Uint.encode 8 f.last_trans_lt in
    let nested : e ++ (l ++ f.storage_hash) ++ rest ≡ e ++ (l ++ (f.storage_hash ++ rest)) =
      simp (append_assoc) in
    ap frozen_from_bytes nested
    ∙ frozen_back f rest valid
    ∙ ap (λ n. ok (frozen_state f, n)) (sym (length_frozen f valid))
account_from_bytes-to_bytes (active_state a) rest valid =
    let e = Uint.encode 16 a.balance_nanos in
    let l = Uint.encode 8 a.last_trans_lt in
    let c = Uint.encode 4 a.storage_stat.cell_count in
    let b = Uint.encode 8 a.storage_stat.byte_count in
    let nested : e ++ (l ++ (a.code_hash ++ (a.data_hash ++ (c ++ b)))) ++ rest
        ≡ e ++ (l ++ (a.code_hash ++ (a.data_hash ++ (c ++ (b ++ rest))))) =
      simp (append_assoc) in
    ap active_from_bytes nested
    ∙ active_back a rest valid
    ∙ ap (λ n. ok (active_state a, n)) (sym (length_active a valid))
