-- ===== src/DataStructures/Message/Laws.antt =====
-- Round trip of messages.
use the_open_network_x.Prelude.{
  ℕ, ◌+◌, ◌*◌, ◌^◌, ◌<◌, ◌≡◌, refl, ◌++◌, append_assoc, List, [], ◌∷◌, All, false, length,
  length-append, ok, arith, ltb,
}
use the_open_network_x.Prelude.Words.{from_be}
use the_open_network_x.Primitives.Error.{Bytes}
use the_open_network_x.Primitives.Uint
use the_open_network_x.Primitives.Uint.Laws.{length-encode}
use the_open_network_x.DataStructures.Address.{address_to_bytes, address_from_bytes}
use the_open_network_x.DataStructures.Shard.Laws.{
  IsAddress, length-address, address_from_bytes-to_bytes,
}
use the_open_network_x.DataStructures.Cursor.{field-append, field-uint, field-uint256_last}
use the_open_network_x.DataStructures.Message.{
  MessageType, Message, from_tag, tag, fixed_length, pairs_to_bytes, pairs_from_bytes,
  message_to_bytes, head_from_bytes, message_from_bytes,
}

pub record IsMessage (m : Message) : Type 0 where
  pub src_is : IsAddress m.src_address
  pub dest_is : IsAddress m.dest_address
  pub amount_fits : m.amount_nanos < 256 ^ 16
  pub count_fits : length m.extra_currencies < 256 ^ 4
  pub pairs_fit : All (λ p. (p.0 < 256 ^ 4) × (p.1 < 256 ^ 16)) m.extra_currencies
  pub created_lt_fits : m.created_lt < 256 ^ 8
  pub body_fits : length m.body_cell_hash ≡ 32

length-pairs : (ps : List (ℕ × ℕ)) → length (pairs_to_bytes ps) ≡ length ps * 20
unfolding pairs_to_bytes
length-pairs [] = refl
length-pairs ((c, v) ∷ ps) = omega (
  arith,
  length-append (Uint.encode 4 c) (Uint.encode 16 v ++ pairs_to_bytes ps),
  length-append (Uint.encode 16 v) (pairs_to_bytes ps),
  length-encode 4 c,
  length-encode 16 v,
  length-pairs ps,
)

pairs_from_bytes-to_bytes :
    (ps : List (ℕ × ℕ)) (rest : Bytes)
    → All (λ p. (p.0 < 256 ^ 4) × (p.1 < 256 ^ 16)) ps
    → pairs_from_bytes (length ps) (pairs_to_bytes ps ++ rest) ≡ ok (ps, rest)
unfolding pairs_from_bytes pairs_to_bytes
pairs_from_bytes-to_bytes [] rest f = refl
pairs_from_bytes-to_bytes ((c, v) ∷ ps) rest f =
    rw
      (
        append_assoc (Uint.encode 4 c) (Uint.encode 16 v ++ pairs_to_bytes ps) rest,
        append_assoc (Uint.encode 16 v) (pairs_to_bytes ps) rest,
        field-uint 4 c _ f.0.0,
        field-uint 16 v _ f.0.1,
        pairs_from_bytes-to_bytes ps rest f.1,
      )
      refl

from_tag-tag : (t : MessageType) → from_tag (from_be (tag t ∷ [])) ≡ ok t
unfolding from_tag from_be
from_tag-tag MessageType.internal = refl
from_tag-tag MessageType.external_inbound = refl
from_tag-tag MessageType.external_outbound = refl

-- What stands behind the count.
abbrev tail_of : Message → Bytes
tail_of m = pairs_to_bytes m.extra_currencies ++ (Uint.encode 8 m.created_lt ++ m.body_cell_hash)

head_lem :
    (m : Message)
    → IsMessage m
    → head_from_bytes (message_to_bytes m)
      ≡ ok (
        (m.msg_type, m.src_address, m.dest_address, m.amount_nanos, length m.extra_currencies),
        tail_of m,
      )
unfolding head_from_bytes message_to_bytes
head_lem m v =
    rw
      (
        field-append 1 (λ byte. from_tag (from_be byte)) (tag m.msg_type ∷ []) _ refl
            (from_tag-tag m.msg_type),
        field-append 36 address_from_bytes (address_to_bytes m.src_address) _
            (length-address m.src_address v.src_is)
            (address_from_bytes-to_bytes m.src_address v.src_is),
        field-append 36 address_from_bytes (address_to_bytes m.dest_address) _
            (length-address m.dest_address v.dest_is)
            (address_from_bytes-to_bytes m.dest_address v.dest_is),
        field-uint 16 m.amount_nanos _ v.amount_fits,
        field-uint 4 (length m.extra_currencies) _ v.count_fits,
      )
      refl

length_on : (a n : ℕ) (xs ys : Bytes) → length xs ≡ a → length ys ≡ n → length (xs ++ ys) ≡ a + n
length_on a n xs ys h k = omega (arith, length-append xs ys, h, k)

length-message :
    (m : Message)
    → IsMessage m
    → length (message_to_bytes m) ≡ fixed_length + length m.extra_currencies * 20
unfolding message_to_bytes
length-message m v =
    let body = length_on 8 32 _ _ (length-encode 8 m.created_lt) v.body_fits in
    let n = length m.extra_currencies * 20 in
    let behind = length_on n 40 _ _ (length-pairs m.extra_currencies) body in
    let counted = length_on 4 (n + 40) _ _ (length-encode 4 (length m.extra_currencies)) behind in
    let amount = length_on 16 (4 + (n + 40)) _ _ (length-encode 16 m.amount_nanos) counted in
    let dest =
      length_on 36 (16 + (4 + (n + 40))) _ _ (length-address m.dest_address v.dest_is) amount in
    let src =
      length_on 36 (36 + (16 + (4 + (n + 40)))) _ _ (length-address m.src_address v.src_is) dest in
    let all = length_on 1 (36 + (36 + (16 + (4 + (n + 40))))) (tag m.msg_type ∷ []) _ refl src in
    omega (arith, all)

exact_tests : (a n : ℕ) → a ≡ fixed_length + n → (ltb a fixed_length ≡ false) × (ltb a a ≡ false)
exact_tests a n h = (ground arith, ground arith)

-- Decoding the encoding of a message whose fields fit their types gives it back.
pub message_from_bytes-to_bytes :
    (m : Message) → IsMessage m → message_from_bytes (message_to_bytes m) ≡ ok m
unfolding message_from_bytes
message_from_bytes-to_bytes m v =
    let total = fixed_length + length m.extra_currencies * 20 in
    let (long, exact) = exact_tests total (length m.extra_currencies * 20) refl in
    rw
      (
        head_lem m v,
        length-message m v,
        long,
        exact,
        pairs_from_bytes-to_bytes m.extra_currencies _ v.pairs_fit,
        field-uint 8 m.created_lt _ v.created_lt_fits,
        field-uint256_last m.body_cell_hash v.body_fits,
      )
      refl
