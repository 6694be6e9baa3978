-- ===== src/Transactions/Admission.antt =====
-- crates/protocol/onx-transactions/src/admission.rs. `AccountType` is that of onx-state-model.
use the_open_network_x.Prelude.{
  ℕ, ◌≤◌, ◌<◌, ◌≡◌, ◌↔◌, refl, ap, Bool, true, false, not, ◌&&◌, ◌||◌, List, [], ◌∷◌, null, Result,
  ok, err, ◌>>◌, require, ltb, ◌==◌, if◌then◌else◌, arith, Result-cases, inl, inr,
}
use the_open_network_x.StateModel.Account.{AccountType}
use the_open_network_x.DataStructures.Message.{MessageType, Message, tag}
use the_open_network_x.Transactions.Error.{
  TransactionsError, wrong_message_type, non_zero_external_value, unsorted_extra_currencies,
  duplicate_currency_id, tentative_signature_invalid, tentative_gas_limit_exceeded,
  internal_source_not_active,
}

abbrev pub max_tentative_gas : ℕ
max_tentative_gas = 10_000

abbrev pub is_active : AccountType → Bool
is_active AccountType.active = true
is_active _ = false

pub record TentativeExecutionOutcome : Type 0 where
  pub signature_valid : Bool
  pub gas_used : ℕ

-- `windows(2)`: each entry with the next.
unfoldable pub validate_extra_currencies_sorted : List (ℕ × ℕ) → Result TransactionsError (Unit {0})
validate_extra_currencies_sorted [] = ok tt
validate_extra_currencies_sorted (a ∷ []) = ok tt
validate_extra_currencies_sorted (a ∷ b ∷ rest) =
    let later = validate_extra_currencies_sorted (b ∷ rest) in
    if a.0 == b.0
    then err (duplicate_currency_id a.0)
    else if ltb b.0 a.0
    then err unsorted_extra_currencies
    else later

-- The derived equality of message types is that of their tags.
abbrev pub has_type : Message → MessageType → Bool
has_type message t = tag message.msg_type == tag t

unfoldable pub validate_message_shape : Message → Result TransactionsError (Unit {0})
validate_message_shape message = do
  validate_extra_currencies_sorted message.extra_currencies
  require
      (not (
        has_type message MessageType.external_inbound
        && (not (message.amount_nanos == 0) || not (null message.extra_currencies))))
      non_zero_external_value
  ok tt

unfoldable pub admit_internal : Message → AccountType → Result TransactionsError (Unit {0})
admit_internal message source_account_type = do
  require (has_type message MessageType.internal)
      (wrong_message_type MessageType.internal message.msg_type)
  validate_message_shape message
  require (is_active source_account_type) internal_source_not_active
  ok tt

unfoldable pub admit_external_inbound :
    Message → TentativeExecutionOutcome → Result TransactionsError (Unit {0})
admit_external_inbound message outcome = do
  require (has_type message MessageType.external_inbound)
      (wrong_message_type MessageType.external_inbound message.msg_type)
  validate_message_shape message
  require outcome.signature_valid tentative_signature_invalid
  require (not (ltb max_tentative_gas outcome.gas_used))
      (tentative_gas_limit_exceeded outcome.gas_used max_tentative_gas)
  ok tt

unfoldable pub admit_external_outbound : Message → Result TransactionsError (Unit {0})
admit_external_outbound message = do
  require (has_type message MessageType.external_outbound)
      (wrong_message_type MessageType.external_outbound message.msg_type)
  validate_message_shape message

-- Each identifier is below the next.
abbrev pub IsAscending : List (ℕ × ℕ) → Type 0
IsAscending [] = Unit {0}
IsAscending (a ∷ []) = Unit {0}
IsAscending (a ∷ b ∷ rest) = (a.0 < b.0) × IsAscending (b ∷ rest)

pub validate_sorted_lem :
    (pairs : List (ℕ × ℕ)) → (validate_extra_currencies_sorted pairs ≡ ok tt) ↔ IsAscending pairs
unfolding validate_extra_currencies_sorted
validate_sorted_lem [] = (λ h. tt, λ a. refl)
validate_sorted_lem (a ∷ []) = (λ h. tt, λ a. refl)
validate_sorted_lem (a ∷ b ∷ rest) =
    let later = validate_sorted_lem (b ∷ rest) in
    (
      λ h. (ground arith, later.0 (ground arith)),
      λ asc. let tail = later.1 asc.1 in ground (arith, tail),
    )

validate-nil : validate_extra_currencies_sorted [] ≡ ok tt
unfolding validate_extra_currencies_sorted
validate-nil = refl

abbrev pub IsAdmissible : Message → TentativeExecutionOutcome → Type 0
IsAdmissible message outcome =
    (message.msg_type ≡ MessageType.external_inbound)
    × (message.amount_nanos ≡ 0)
    × (message.extra_currencies ≡ [])
    × (outcome.signature_valid ≡ true)
    × (outcome.gas_used ≤ max_tentative_gas)

-- An external message is admitted exactly if it is of the inbound type, carries no value and no
-- other currency, its tentative run had a valid signature and used at most 10,000 gas.
pub admit_external_inbound_lem :
    (message : Message) (outcome : TentativeExecutionOutcome)
    → (admit_external_inbound message outcome ≡ ok tt) ↔ IsAdmissible message outcome
unfolding admit_external_inbound validate_message_shape
admit_external_inbound_lem message outcome =
    elim (Result-cases (validate_extra_currencies_sorted message.extra_currencies)) [
      | inl (u, sorted) ↦ (λ h. ground arith, λ a. ground arith)
      | inr (x, unsorted) ↦ (
        λ h. absurd (ground arith),
        λ a. absurd (ground (arith, ap validate_extra_currencies_sorted a.2, validate-nil)),
      )
    ]

-- An internal message is admitted exactly if it is of the internal type, its currencies ascend
-- strictly and the account that sent it is active.
pub admit_internal_lem :
    (message : Message) (source : AccountType)
    → (admit_internal message source ≡ ok tt) ↔ (
        (message.msg_type ≡ MessageType.internal)
        × IsAscending message.extra_currencies
        × (source ≡ AccountType.active))
unfolding admit_internal validate_message_shape
admit_internal_lem message source =
    let sorted_iff = validate_sorted_lem message.extra_currencies in
    elim (Result-cases (validate_extra_currencies_sorted message.extra_currencies)) [
      | inl (u, sorted) ↦
          (λ h. (ground arith, sorted_iff.0 sorted, ground arith), λ a. ground arith)
      | inr (x, unsorted) ↦ (
        λ h. absurd (ground arith),
        λ a. absurd (let again = sorted_iff.1 a.1 in ground (arith, again)),
      )
    ]
