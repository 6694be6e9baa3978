-- ===== src/Networking/Error.antt =====
-- crates/node/onx-networking/src/lib.rs: the errors.
pub data NetworkError : Type 0 where
  truncated_packet abstract_address_mismatch decryption_failed invalid_signature expired_timestamp :
      NetworkError
  zero_channel_abuse malformed_rldp_frame payload_digest_mismatch rldp_timeout dht_record_expired :
      NetworkError
  dht_malformed_record dht_unknown_record_kind dht_rpc_failed : NetworkError
