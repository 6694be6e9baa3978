-- ===== src/DataStructures/Cursor.antt =====
-- The decoders of crates/protocol/onx-data-structures keep an offset and decode the slice of a
-- field at it. Here a cursor holds the bytes from the offset on; the length has been checked before, so no
-- slice is out of range.
use the_open_network_x.Prelude.{
  ℕ, append-nil, ◌^◌, ◌<◌, ◌≡◌, refl, ◌++◌, [], take, drop, length, take-append_at, drop-append_at,
  Result, ok, ◌>>=◌, map_err,
}
use the_open_network_x.Primitives.Error.{Bytes}
use the_open_network_x.Primitives.FixedBytes.{Uint256}
use the_open_network_x.Primitives.FixedBytes
use the_open_network_x.Primitives.Uint
use the_open_network_x.Primitives.Uint.Laws.{length-encode, decode_exact-encode, check_length_ok}
use the_open_network_x.DataStructures.Error.{DataStructureError, primitive}

module _ {A : Type 0} where
  unfoldable pub field :
      ℕ → (Bytes → Result DataStructureError A) → Bytes → Result DataStructureError (A × Bytes)
  field n decode cursor = do value ← decode (take n cursor); ok (value, drop n cursor)

-- The decoders of the integers and hashes, with `?` turning their errors.
unfoldable pub uint : ℕ → Bytes → Result DataStructureError ℕ
uint n bytes = map_err primitive (Uint.decode_exact n bytes)

unfoldable pub uint256 : Bytes → Result DataStructureError Uint256
uint256 bytes = map_err primitive (FixedBytes.decode_exact 32 bytes)

module _ {A : Type 0} where
  -- A field in front of the rest is decoded, and the rest is left.
  pub field-append :
      (n : ℕ) (decode : Bytes → Result DataStructureError A) (xs rest : Bytes) {v : A}
      → length xs ≡ n
      → decode xs ≡ ok v
      → field n decode (xs ++ rest) ≡ ok (v, rest)
  unfolding field
  field-append n decode xs rest h d =
      rw (take-append_at n xs rest h, drop-append_at n xs rest h, d) refl

pub field-uint :
    (n v : ℕ) (rest : Bytes)
    → v < 256 ^ n
    → field n (uint n) (Uint.encode n v ++ rest) ≡ ok (v, rest)
unfolding uint
field-uint n v rest h =
    field-append n (uint n) (Uint.encode n v) rest (length-encode n v)
      (rw ((decode_exact-encode n v [] h).0) refl)

pub uint256_lem : (hash : Bytes) → length hash ≡ 32 → uint256 hash ≡ ok hash
unfolding uint256 FixedBytes.decode_exact
uint256_lem hash h = rw (check_length_ok 32 hash h) refl

pub field-uint256 :
    (hash rest : Bytes) → length hash ≡ 32 → field 32 uint256 (hash ++ rest) ≡ ok (hash, rest)
field-uint256 hash rest h = field-append 32 uint256 hash rest h (uint256_lem hash h)

pub field-uint256_last : (hash : Bytes) → length hash ≡ 32 → field 32 uint256 hash ≡ ok (hash, [])
field-uint256_last hash h = rw append-nil at (field-uint256 hash [] h)
