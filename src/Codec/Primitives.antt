-- ===== src/Codec/Primitives.antt =====
-- codec/primitives.rs: length-prefixed readers over a body and a cursor, and the writers. A reader
-- returns its value with the new cursor. `std::str::from_utf8` is the parameter `valid_utf8`.
pub mod RoundTrip
pub mod Bounds
use hotaru_mqtt.Base.{
  ℕ, ◌+◌, ◌-◌, ◌++◌, Bool, not, ◌&&◌, ltb, if◌then◌else◌, length, take, drop, get_elem?, Bytes, u16,
  to_be_bytes, from_be_bytes, Outcome, ok, panic, ◌>>=◌, ◌>>◌, fail_if, or_panic,
}
use hotaru_mqtt.Error.{MqttError, CodecError}

-- `body[i]` and `body[from..to]`, which panic out of bounds.
unfoldable pub index : Bytes → ℕ → Outcome MqttError ℕ
index body i = or_panic (get_elem? body i)

unfoldable pub slice : Bytes → ℕ → ℕ → Outcome MqttError Bytes
slice body from to =
    if not (ltb to from) && not (ltb (length body) to)
    then ok (take (to - from) (drop from body))
    else panic

abbrev pub eof : MqttError
eof = MqttError.codec CodecError.unexpected_eof

unfoldable pub read_u16 : Bytes → ℕ → Outcome MqttError (ℕ × ℕ)
read_u16 body cursor = do
  fail_if (ltb (length body) (cursor + 2)) eof
  hi ← index body cursor
  lo ← index body (cursor + 1)
  ok (from_be_bytes hi lo, cursor + 2)

module _ (valid_utf8 : Bytes → Bool) where
  unfoldable pub read_arc_str : Bytes → ℕ → Outcome MqttError (Bytes × ℕ)
  read_arc_str body cursor = do
    (len, start) ← read_u16 body cursor
    fail_if (ltb (length body) (start + len)) eof
    bytes ← slice body start (start + len)
    fail_if (not (valid_utf8 bytes)) (MqttError.codec CodecError.invalid_utf8)
    ok (bytes, start + len)

unfoldable pub read_bytes : Bytes → ℕ → Outcome MqttError (Bytes × ℕ)
read_bytes body cursor = do
  (len, start) ← read_u16 body cursor
  fail_if (ltb (length body) (start + len)) eof
  bytes ← slice body start (start + len)
  ok (bytes, start + len)

-- `b.len() as u16`, big-endian, and the bytes.
abbrev pub prefixed : Bytes → Bytes
prefixed b = to_be_bytes (u16 (length b)) ++ b

unfoldable pub write_arc_str : Bytes → Bytes → Bytes
write_arc_str out s = out ++ prefixed s

unfoldable pub write_bytes : Bytes → Bytes → Bytes
write_bytes out b = out ++ prefixed b
