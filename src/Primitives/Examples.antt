-- ===== src/Primitives/Examples.antt =====
-- The primitive theorems at concrete inputs.
use the_open_network_x.Prelude.{ℕ, ◌≡◌, refl, [], ◌∷◌, length, arith}
use the_open_network_x.Prelude.Words.{from_be}
use the_open_network_x.Primitives.Error.{check_length}
use the_open_network_x.Primitives.Uint
use the_open_network_x.Primitives.Uint.Laws.{encode-decode_exact}
use the_open_network_x.Primitives.BoundedBytes.{BoundedBytes}

encode-decode_exact_example : (length {A = ℕ} (2 ∷ 1 ∷ []) ≡ 2) × (Uint.encode 2 513 ≡ 2 ∷ 1 ∷ [])
unfolding Uint.decode_exact check_length from_be
encode-decode_exact_example =
    encode-decode_exact 2 (2 ∷ 1 ∷ []) {v = 513} (omega arith, (omega arith, tt)) refl

abbrev two_bytes : BoundedBytes
two_bytes = record { payload = 9 ∷ 8 ∷ []; max_len = 16 }
