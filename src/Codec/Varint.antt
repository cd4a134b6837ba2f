-- ===== src/Codec/Varint.antt =====
-- codec/varint.rs: the remaining length, seven bits to a byte. `usize` values stay below 2 ^ 28
-- on the way in, so `usize` is ℕ. A reader is the list of the bytes that it will deliver before
-- its end.
pub mod Groups
pub mod RoundTrip
pub mod Agreement
use Prim.Native.Nat.{bit_or}
use mathlib.Core.Logic.{dite}
use mathlib.Core.WellFounded.{Acc, WellFounded}
use native.Mathlib.Decide.{dec_lt}
use hotaru_mqtt.Base.{
  ℕ, zero, suc, ◌+◌, ◌*◌, ◌/◌, ◌%◌, ◌<◌, List, [], ◌∷◌, ◌++◌, Option, none, some, not, arith, ltb,
  ◌==◌, if◌then◌else◌, length, take, drop, Bytes, u8, low_bits, has_bit, Outcome, ok, err, panic,
  ◌>>=◌, ◌>>◌, fail_if,
}
use hotaru_mqtt.Error.{MqttError, CodecError}

acc_below : (k n : ℕ) → n < k → Acc ◌<◌ n
acc_below zero n h = absurd (omega arith)
acc_below (suc k) n h = Acc.intro n (λ m hm. acc_below k m (omega arith))

pub lt_wf : WellFounded ◌<◌
unfolding acc_below
lt_wf = record { apply = λ n. acc_below (suc n) n (omega arith) }

-- `reader.read_exact(&mut buf)` for a buffer of `n` bytes; the end of the wire is an I/O error.
unfoldable pub read_exact : ℕ → Bytes → Outcome MqttError (Bytes × Bytes)
read_exact n wire = if ltb (length wire) n then err MqttError.io else ok (take n wire, drop n wire)

-- The `for i in 0..4` of `read_remaining_length`, with the rounds left; the code after it is
-- `unreachable!()`.
unfoldable pub read_length_loop : ℕ → ℕ → ℕ → ℕ → Bytes → Outcome MqttError (ℕ × Bytes)
read_length_loop zero i result multiplier wire = panic
read_length_loop (suc rounds) i result multiplier [] = err MqttError.io
read_length_loop (suc rounds) i result multiplier (byte ∷ wire) =
    let result' = result + low_bits byte 7 * multiplier in
    let rest = read_length_loop rounds (i + 1) result' (multiplier * 128) wire in
    if not (has_bit byte 7)
    then ok (result', wire)
    else if i == 3
    then err (MqttError.codec CodecError.malformed_length)
    else rest

unfoldable pub read_remaining_length : Bytes → Outcome MqttError (ℕ × Bytes)
unfolding read_length_loop
read_remaining_length wire = read_length_loop 4 0 0 1 wire

-- The loop over `data.iter().enumerate()`, with what the iterator has not reached.
unfoldable pub slice_length_loop : Bytes → ℕ → ℕ → ℕ → Outcome MqttError (Option (ℕ × ℕ))
slice_length_loop [] i result multiplier = ok none
slice_length_loop (byte ∷ rest) i result multiplier =
    let result' = result + low_bits byte 7 * multiplier in
    let more = slice_length_loop rest (i + 1) result' (multiplier * 128) in
    if not (has_bit byte 7)
    then ok (some (result', i + 1))
    else if ltb i 3
    then more
    else err (MqttError.codec CodecError.malformed_length)

unfoldable pub decode_remaining_length_from_slice : Bytes → Outcome MqttError (Option (ℕ × ℕ))
unfolding slice_length_loop
decode_remaining_length_from_slice bytes = slice_length_loop bytes 0 0 1

div_shrinks : (value : ℕ) → 0 < value / 128 → value / 128 < value
div_shrinks value h = omega arith

-- The `loop` of `encode_remaining_length`: `value /= 128` is tested before the push, and again to
-- leave.
encode_length_loop : (value : ℕ) → Acc ◌<◌ value → Bytes → Bytes
encode_length_loop value (Acc.intro _ smaller) out =
    let byte = u8 (value % 128) in
    dite (dec_lt 0 (value / 128))
      (λ more.
        encode_length_loop (value / 128) (smaller _ (div_shrinks value more))
          (out ++ (bit_or byte 0x80 ∷ [])))
      (λ _. out ++ (byte ∷ []))

pub encode_remaining_length : ℕ → Bytes
unfolding encode_length_loop lt_wf dec_lt
encode_remaining_length value = encode_length_loop value (lt_wf.apply value) []
