-- ===== src/Execution/Instructions/Hashes.antt =====
-- crates/protocol/onx-execution/src/interpreter.rs, the arms 0x60 to 0x62: hashes and signatures.
use the_open_network_x.Prelude.{Bool, false, ◌&&◌, [], ◌∷◌, length, Result, ok, is_ok, ◌==◌}
use the_open_network_x.Prelude.Ord.{bytes_ord}
use the_open_network_x.Primitives.Error.{Bytes, PrimitiveError}
use the_open_network_x.Primitives.Hash.{Crypto, DomainTag, from_ascii, tx_body_v1, domain_hash}
use the_open_network_x.Primitives.Signature.{
  PublicKey, Signature, decode_public_key, decode_signature, verify,
}
use the_open_network_x.StateModel.Cell.{cell_hash}
use the_open_network_x.Execution.Types.{integer, type_mismatch}
use the_open_network_x.Execution.Machine.{
  Exec, ◌>>=◌, ◌>>◌, check, consume_gas, pop_bytes, pop_integer, pop_cell, push,
}
use the_open_network_x.Execution.Instructions.Bytes.{flag}
use the_open_network_x.Execution.Instructions.Arithmetic.{push_i128}

pub data CryptoOp : Type 0 where
  hashbytes hashcell chksignu : CryptoOp

-- "ONX_EXEC_HASH_V1"
abbrev pub exec_hash_tag : DomainTag
exec_hash_tag = from_ascii (
    0x4f ∷ 0x4e ∷ 0x58 ∷ 0x5f ∷ 0x45 ∷ 0x58 ∷ 0x45 ∷ 0x43 ∷ 0x5f ∷ 0x48 ∷ 0x41 ∷ 0x53 ∷ 0x48 ∷ 0x5f
    ∷ 0x56 ∷ 0x31 ∷ [])

module _ (crypto : Crypto) where
  -- Both decode, and the signature verifies.
  abbrev pub decoded_verify :
      Bytes → Result PrimitiveError PublicKey → Result PrimitiveError Signature → Bool
  decoded_verify hash (ok key) (ok sig) = is_ok (verify crypto key tx_body_v1 hash sig)
  decoded_verify hash _ _ = false

  unfoldable pub crypto_instruction : CryptoOp → Exec (Unit {0})
  crypto_instruction CryptoOp.hashbytes = do
    consume_gas 200
    bytes ← pop_bytes
    push (integer (domain_hash crypto exec_hash_tag bytes))
  crypto_instruction CryptoOp.hashcell = do
    consume_gas 200
    cell ← pop_cell
    push (integer (cell_hash crypto cell))
  crypto_instruction CryptoOp.chksignu = do
    consume_gas 4000
    hash ← pop_integer
    sig_bytes ← pop_bytes
    pubkey_bytes ← pop_bytes
    check (length pubkey_bytes == 32 && length sig_bytes == 64) type_mismatch
    push_i128 (
        flag (
          decoded_verify hash (decode_public_key crypto pubkey_bytes) (decode_signature sig_bytes)))
