-- ===== src/Networking/Rldp/Start.antt =====
-- The receiver that the first frame of a transfer sets up.
use the_open_network_x.Prelude.{
  ℕ, ◌*◌, ◌≤◌, ◌≡◌, refl, ap, inl, inr, false, [], length, ok, ltb, ◌==◌, ==→eq, ==_refl, arith,
  Bool-cases,
}
use the_open_network_x.Prelude.Ord.{nat_ord, bytes_ord}
use the_open_network_x.Primitives.Error.{Bytes}
use the_open_network_x.Primitives.Hash.{Crypto}
use the_open_network_x.Primitives.FixedBytes.{Uint256}
use the_open_network_x.Networking.Rldp.Frame.{max_transfer_size, validate_dimensions}
use the_open_network_x.Networking.Rldp.Sender.{frame_at}
use the_open_network_x.Networking.Rldp.Receiver.{RldpReceiver, from_frame}
use the_open_network_x.Networking.Rldp.Chunks.{ceil_div-covers}
use the_open_network_x.Networking.Rldp.Loop.{count, frame_of, IsTransfer, IsPartial}

module _ (crypto : Crypto) (id : Uint256) (payload : Bytes) (size : ℕ)
    (transfer : IsTransfer crypto id payload size) where
  abbrev pub started : RldpReceiver
  started = record {
    transfer_id = id;
    digest = crypto.sha256 payload;
    total_size = length payload;
    chunk_size = size;
    chunk_count = count crypto id payload size;
    chunks = [];
    ack_seq = 0;
  }

  count_positive : 1 ≤ count crypto id payload size
  count_positive = elim (Bool-cases (count crypto id payload size == 0)) [
    | inl empty ↦
        let none_at_all = ==→eq (count crypto id payload size) 0 empty in
        let covered = ceil_div-covers (length payload) size transfer.some_size in
        let product : count crypto id payload size * size ≡ 0 * size =
          ap (λ c. c * size) none_at_all in
        let some_payload = transfer.some_payload in
        absurd (omega (arith, covered, product, some_payload))
    | inr some_count ↦ ground (arith, some_count)
  ]

  pub from_frame-frame_of :
      (seq : ℕ) → from_frame (frame_of crypto id payload size seq) ≡ ok started
  unfolding from_frame frame_at validate_dimensions
  from_frame-frame_of seq =
      let some_size : (size == 0) ≡ false = let h = transfer.some_size in ground (arith, h) in
      let some_payload : (length payload == 0) ≡ false =
        let h = transfer.some_payload in ground (arith, h) in
      let fits : ltb max_transfer_size (length payload) ≡ false =
        let h = transfer.payload_fits in ground (arith, h) in
      let some_count : (count crypto id payload size == 0) ≡ false =
        let h = count_positive in ground (arith, h) in
      rw
        (
          from_frame,
          some_size,
          some_payload,
          fits,
          some_count,
          ==_refl (count crypto id payload size),
        )
        refl

  pub started-IsPartial : IsPartial crypto id payload size started
  started-IsPartial = record {
    id_is = refl;
    digest_is = refl;
    total_is = refl;
    size_is = refl;
    count_is = refl;
    sorted = tt;
    held = tt;
    waiting = count_positive;
  }
