-- ===== src/Networking/Rldp/Transfer.antt =====
-- A receiver of the packets of a sender returns the payload as soon as every chunk has come, whatever is lost, repeated,
-- reordered or mixed in.
use the_open_network_x.Prelude.{ℕ, ◌≡◌, ◌⊎◌, some, get_elem?, ok, err}
use the_open_network_x.Prelude.Ord.{nat_ord, bytes_ord}
use the_open_network_x.Primitives.Error.{Bytes}
use the_open_network_x.Primitives.Hash.{Crypto}
use the_open_network_x.Primitives.FixedBytes.{Uint256}
use the_open_network_x.Networking.Error.{NetworkError}
use the_open_network_x.Networking.Rldp.Frame.{RldpDataFrame, frame_decode}
use the_open_network_x.Networking.Rldp.Sender.{RldpConfig, RldpSender, sender_new}

module _ (crypto : Crypto) (id : Uint256) (payload : Bytes) (config : RldpConfig)
    (sender : RldpSender) (made : sender_new crypto id payload config ≡ ok sender) where
  -- A packet that is no frame, or a frame of the sender.
  abbrev pub IsOf : Bytes → Type 0
  IsOf p =
      ((e : NetworkError) × (frame_decode p ≡ err e))
      ⊎ ((i : ℕ) × (f : RldpDataFrame) × (get_elem? sender.frames i ≡ some f)
          × (frame_decode p ≡ ok f))
