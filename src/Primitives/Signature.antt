-- ===== src/Primitives/Signature.antt =====
-- crates/protocol/onx-primitives/src/signature.rs: the decoders of keys and signatures, and
-- verification under a domain tag. A key and a signature are the bytes that encode them; a secret
-- key and signing belong to the library.
use the_open_network_x.Prelude.{◌++◌, Result, ok, err, ◌>>=◌, if◌then◌else◌}
use the_open_network_x.Primitives.Error.{
  PrimitiveError, non_canonical_encoding, signature_verification_failed, Bytes, check_length,
}
use the_open_network_x.Primitives.Hash.{Crypto, DomainTag}

abbrev pub PublicKey : Type 0
PublicKey = Bytes

abbrev pub Signature : Type 0
Signature = Bytes

unfoldable pub domain_separated_message : DomainTag → Bytes → Bytes
domain_separated_message tag message = tag ++ message

module _ (crypto : Crypto) where
  unfoldable pub decode_public_key : Bytes → Result PrimitiveError PublicKey
  unfolding check_length
  decode_public_key bytes = do
    buf ← check_length 32 bytes
    if crypto.is_canonical_key buf then ok buf else err non_canonical_encoding

  unfoldable pub verify :
      PublicKey → DomainTag → Bytes → Signature → Result PrimitiveError (Unit {0})
  unfolding domain_separated_message
  verify key tag message signature =
      if crypto.verify_strict key (domain_separated_message tag message) signature
      then ok tt
      else err signature_verification_failed

unfoldable pub decode_signature : Bytes → Result PrimitiveError Signature
unfolding check_length
decode_signature bytes = do buf ← check_length 64 bytes; ok buf
