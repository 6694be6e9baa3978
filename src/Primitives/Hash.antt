-- ===== src/Primitives/Hash.antt =====
-- crates/protocol/onx-primitives/src/hash.rs: domain tags and domain-separated SHA-256.
use the_open_network_x.Prelude.{
  ℕ, zero, suc, ◌++◌, ◌-◌, ◌≤◌, ◌≡◌, refl, [], ◌∷◌, Result, ok, err, length, length-append, ◌==◌,
  if◌then◌else◌, Bool, arith, ap,
}
use the_open_network_x.Primitives.Error.{PrimitiveError, invalid_domain_tag, Bytes}

-- The libraries `sha2` and `ed25519_dalek`, as functions on byte strings.
pub record Crypto : Type 0 where
  pub sha256 : Bytes → Bytes
  -- `VerifyingKey::from_bytes(bytes).is_ok()`
  pub is_canonical_key : Bytes → Bool
  -- `key.verify_strict(message, signature).is_ok()`
  pub verify_strict : Bytes → Bytes → Bytes → Bool

abbrev pub DomainTag : Type 0
DomainTag = Bytes

-- A buffer of n zeros.
abbrev pub zeros : ℕ → Bytes
zeros zero = []
zeros (suc n) = 0 ∷ zeros n

-- The loop copies the text into a buffer of 32 zeros. The assertion that the text has at most 32
-- bytes is evaluated when the constant is compiled.
unfoldable pub from_ascii : Bytes → DomainTag
from_ascii tag = tag ++ zeros (32 - length tag)

unfoldable pub decode_exact : Bytes → Result PrimitiveError DomainTag
decode_exact bytes = if length bytes == 32 then ok bytes else err invalid_domain_tag

-- "ONX_BLK_HDR_V1", "ONX_TX_BODY_V1" and "ONX_VALIDATOR_SIGN_V1".
abbrev pub block_header_v1 : DomainTag
block_header_v1 = from_ascii (
    0x4f ∷ 0x4e ∷ 0x58 ∷ 0x5f ∷ 0x42 ∷ 0x4c ∷ 0x4b ∷ 0x5f ∷ 0x48 ∷ 0x44 ∷ 0x52 ∷ 0x5f ∷ 0x56 ∷ 0x31
    ∷ [])

abbrev pub tx_body_v1 : DomainTag
tx_body_v1 = from_ascii (
    0x4f ∷ 0x4e ∷ 0x58 ∷ 0x5f ∷ 0x54 ∷ 0x58 ∷ 0x5f ∷ 0x42 ∷ 0x4f ∷ 0x44 ∷ 0x59 ∷ 0x5f ∷ 0x56 ∷ 0x31
    ∷ [])

abbrev pub validator_sign_v1 : DomainTag
validator_sign_v1 = from_ascii (
    0x4f ∷ 0x4e ∷ 0x58 ∷ 0x5f ∷ 0x56 ∷ 0x41 ∷ 0x4c ∷ 0x49 ∷ 0x44 ∷ 0x41 ∷ 0x54 ∷ 0x4f ∷ 0x52 ∷ 0x5f
    ∷ 0x53 ∷ 0x49 ∷ 0x47 ∷ 0x4e ∷ 0x5f ∷ 0x56 ∷ 0x31 ∷ [])

module _ (crypto : Crypto) where
  -- The hasher is fed the tag and then the bytes.
  unfoldable pub domain_hash : DomainTag → Bytes → Bytes
  domain_hash tag bytes = crypto.sha256 (tag ++ bytes)

pub length-from_ascii : (tag : Bytes) → length tag ≤ 32 → length (from_ascii tag) ≡ 32
unfolding from_ascii
length-from_ascii tag h =
    omega (arith, length-append tag (zeros (32 - length tag)), length-zeros (32 - length tag))
  where
    length-zeros : (n : ℕ) → length (zeros n) ≡ n
    length-zeros zero = refl
    length-zeros (suc n) = ap suc (length-zeros n)
