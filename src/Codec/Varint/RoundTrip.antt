-- ===== src/Codec/Varint/RoundTrip.antt =====
-- codec/varint.rs: the two decoders on what the encoder wrote.
use hotaru_mqtt.Base.{
  ℕ, zero, suc, ◌+◌, ◌*◌, ◌/◌, ◌%◌, ◌^◌, ◌≤◌, ◌<◌, ◌≡◌, ◌++◌, some, arith, length, ap, Bytes, ok,
}
use native.Mathlib.Nat.{div-add-mod}
use hotaru_mqtt.Codec.Varint.{
  encode_remaining_length, slice_length_loop, decode_remaining_length_from_slice, read_length_loop,
  read_remaining_length,
}
use hotaru_mqtt.Codec.Varint.Groups.{groups, encode_remaining_length-groups}

split_group : (v m r : ℕ) → r + v * m ≡ (r + v % 128 * m) + v / 128 * (m * 128)
split_group v m r = omega (arith, ap (λ (t : ℕ). t * m) (div-add-mod v 128))

slice_length_loop-groups :
    (k v i r m : ℕ) (rest : Bytes)
    → v < 128 ^ suc k
    → i + k ≤ 3
    → slice_length_loop (groups k v ++ rest) i r m ≡ ok (some (r + v * m, i + length (groups k v)))
unfolding slice_length_loop groups
slice_length_loop-groups zero v i r m rest h hi = ground arith
slice_length_loop-groups (suc k) v i r m rest h hi = ground (
  arith,
  split_group v m r,
  slice_length_loop-groups k (v / 128) (i + 1) (r + v % 128 * m) (m * 128) rest (omega arith),
)

read_length_loop-groups :
    (k v i r m : ℕ) (rest : Bytes)
    → v < 128 ^ suc k
    → i + k ≡ 3
    → read_length_loop (suc k) i r m (groups k v ++ rest) ≡ ok (r + v * m, rest)
unfolding read_length_loop groups
read_length_loop-groups zero v i r m rest h hi = ground arith
read_length_loop-groups (suc k) v i r m rest h hi = ground (
  arith,
  split_group v m r,
  read_length_loop-groups k (v / 128) (i + 1) (r + v % 128 * m) (m * 128) rest (omega arith),
)

-- The slice decoder reads back the encoding of every length that four bytes can carry, and counts
-- its bytes, whatever follows.
pub decode-encode_remaining_length :
    (v : ℕ) (rest : Bytes)
    → v < 128 ^ 4
    → decode_remaining_length_from_slice (encode_remaining_length v ++ rest)
      ≡ ok (some (v, length (encode_remaining_length v)))
unfolding decode_remaining_length_from_slice
decode-encode_remaining_length v rest h =
    rw (encode_remaining_length-groups v h)
      (ground (arith, slice_length_loop-groups 3 v 0 0 1 rest (omega arith) (omega arith)))

-- The stream decoder reads back the encoding of every length that four bytes can carry, and
-- leaves what follows on the wire.
pub read-encode_remaining_length :
    (v : ℕ) (rest : Bytes)
    → v < 128 ^ 4
    → read_remaining_length (encode_remaining_length v ++ rest) ≡ ok (v, rest)
unfolding read_remaining_length
read-encode_remaining_length v rest h =
    rw (encode_remaining_length-groups v h)
      (ground (arith, read_length_loop-groups 3 v 0 0 1 rest (omega arith) (omega arith)))
