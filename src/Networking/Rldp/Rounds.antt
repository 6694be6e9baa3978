-- ===== src/Networking/Rldp/Rounds.antt =====
-- The rounds of the receiving loop, by what a packet is.
use the_open_network_x.Prelude.{
  ◌≡◌, refl, ap, ◌∙◌, inl, inr, Option, none, some, Option-cases, List, [], ◌∷◌, ok, err,
  Result-cases,
}
use the_open_network_x.Prelude.Ord.{nat_ord, bytes_ord}
use the_open_network_x.Primitives.Error.{Bytes}
use the_open_network_x.Primitives.Hash.{Crypto}
use the_open_network_x.Networking.Error.{NetworkError}
use the_open_network_x.Networking.Rldp.Frame.{RldpDataFrame, RldpAckFrame, frame_decode}
use the_open_network_x.Networking.Rldp.Receiver.{
  RldpReceiver, from_frame, ack, ingest, recv_loop, recv_rldp,
}

module _ (crypto : Crypto) (r : RldpReceiver) (packet : Bytes) (packets : List Bytes) where
  pub recv_loop_junk :
      (e : NetworkError)
      → frame_decode packet ≡ err e
      → recv_loop crypto r (packet ∷ packets) ≡ recv_loop crypto r packets
  unfolding recv_loop
  recv_loop_junk e junk = rw (recv_loop, junk) refl

  pub recv_loop_done :
      (frame : RldpDataFrame) (payload : Bytes) (next : RldpReceiver)
      → frame_decode packet ≡ ok frame
      → ingest crypto r frame ≡ (ok (some payload), next)
      → recv_loop crypto r (packet ∷ packets) ≡ ok (some payload, (ack next).0 ∷ [])
  unfolding recv_loop
  recv_loop_done frame payload next decoded done =
      rw (recv_loop, decoded, ap (λ x. x.0) done, ap (λ x. x.1) done) refl

  pub recv_loop_waits :
      (frame : RldpDataFrame) (next : RldpReceiver) (found : Option Bytes)
      (acks : List RldpAckFrame)
      → frame_decode packet ≡ ok frame
      → ingest crypto r frame ≡ (ok none, next)
      → recv_loop crypto (ack next).1 packets ≡ ok (found, acks)
      → recv_loop crypto r (packet ∷ packets) ≡ ok (found, (ack next).0 ∷ acks)
  unfolding recv_loop
  recv_loop_waits frame next found acks decoded waits later =
      rw (recv_loop, decoded, ap (λ x. x.0) waits, ap (λ x. x.1) waits, later) refl

  -- The first packet sets the receiver up.
  pub recv_rldp-recv_loop :
      (frame : RldpDataFrame)
      → frame_decode packet ≡ ok frame
      → from_frame frame ≡ ok r
      → recv_rldp crypto (packet ∷ packets) ≡ recv_loop crypto r (packet ∷ packets)
  unfolding recv_rldp recv_loop
  recv_rldp-recv_loop frame decoded start = elim (Result-cases (ingest crypto r frame).0) [
    | inl (found, got) ↦ elim (Option-cases found) [
      | inl empty ↦
          let waits = got ∙ ap (λ f. ok f) empty in
          rw (recv_rldp, recv_loop, decoded, start, waits) refl
      | inr (payload, full) ↦
          let done = got ∙ ap (λ f. ok f) full in
          rw (recv_rldp, recv_loop, decoded, start, done) refl
    ]
    | inr (e, failed) ↦ rw (recv_rldp, recv_loop, decoded, start, failed) refl
  ]
