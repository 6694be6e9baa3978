-- ===== src/DataStructures/Examples.antt =====
-- The encodings at concrete values.
use the_open_network_x.Prelude.{◌≡◌, refl, [], ◌∷◌, ok, arith}
use the_open_network_x.Prelude.Int.{pos, negsuc}
use the_open_network_x.Primitives.Hash.{zeros}
use the_open_network_x.DataStructures.Address.{FullAddress, address_to_bytes, address_from_bytes}
use the_open_network_x.DataStructures.Shard.{ShardIdent, validate}
use the_open_network_x.DataStructures.Shard.Laws.{address_from_bytes-to_bytes}
use the_open_network_x.DataStructures.Message.{
  MessageType, Message, message_to_bytes, message_from_bytes,
}
use the_open_network_x.DataStructures.Message.Laws.{message_from_bytes-to_bytes}
use the_open_network_x.DataStructures.Block.{
  BlockHeader, block_header_magic, header_to_bytes, header_from_bytes, is_zero_hash,
  is_merge_result,
}
use the_open_network_x.DataStructures.Block.Laws.{header_from_bytes-to_bytes}

abbrev account : FullAddress
account = record { workchain_id = negsuc 0; account_id = zeros 32 }

address_from_bytes-to_bytes_example : address_from_bytes (address_to_bytes account) ≡ ok account
address_from_bytes-to_bytes_example = address_from_bytes-to_bytes account (omega arith, refl)

-- The shard of the accounts that begin with the bit 1.
abbrev upper_half : ShardIdent
upper_half = record { workchain_id = pos 0; shard_prefix_ident = 0xc000_0000_0000_0000 }

abbrev transfer : Message
transfer = record {
  msg_type = MessageType.internal;
  src_address = account;
  dest_address = account;
  amount_nanos = 1_000;
  extra_currencies = (7, 5) ∷ [];
  created_lt = 12;
  body_cell_hash = zeros 32;
}

message_from_bytes-to_bytes_example : message_from_bytes (message_to_bytes transfer) ≡ ok transfer
message_from_bytes-to_bytes_example = message_from_bytes-to_bytes transfer (record {
  src_is = (omega arith, refl);
  dest_is = (omega arith, refl);
  amount_fits = omega arith;
  count_fits = omega arith;
  pairs_fit = ((omega arith, omega arith), tt);
  created_lt_fits = omega arith;
  body_fits = refl;
})

abbrev header : BlockHeader
header = record {
  magic_constructor = block_header_magic;
  shard = upper_half;
  seq_no = 3;
  flags = 0;
  gen_utime = 100;
  start_lt = 10;
  end_lt = 20;
  prev_key_block = 1;
  prev_ref_hash = zeros 32;
  prev_ref_hash_2 = zeros 32;
  master_ref_hash = zeros 32;
  state_root_hash = zeros 32;
  in_msg_root_hash = zeros 32;
  out_msg_root_hash = zeros 32;
}

header_from_bytes-to_bytes_example : header_from_bytes (header_to_bytes header) ≡ ok header
unfolding validate is_zero_hash is_merge_result
header_from_bytes-to_bytes_example = header_from_bytes-to_bytes header (record {
  magic_is = refl;
  shard_is = (omega arith, omega arith, refl);
  seq_no_fits = omega arith;
  flags_fits = omega arith;
  gen_utime_fits = omega arith;
  start_lt_fits = omega arith;
  end_lt_fits = omega arith;
  prev_key_block_fits = omega arith;
  prev_fits = refl;
  prev_2_fits = refl;
  master_fits = refl;
  state_fits = refl;
  in_fits = refl;
  out_fits = refl;
  parents = refl;
})
