-- ===== src/Codec/Decode.antt =====
-- codec/decode.rs: the parsers of packet bodies. `valid_utf8` is `std::str::from_utf8`. The loops
-- over a body run on fuel, one round for each byte of the body; running out is a `panic` here.
pub mod Safety
pub mod Flags
pub mod Connect
pub mod Lists
pub mod Publish
use hotaru_mqtt.Base.{
  ℕ, zero, suc, ◌+◌, List, [], ◌∷◌, ◌++◌, Bool, true, false, not, ◌||◌, Option, none, some, ltb,
  ◌==◌, if◌then◌else◌, length, str_eq, Bytes, shr, low_bits, has_bit, from_be_bytes, Outcome, ok,
  panic, ◌>>=◌, ◌>>◌, fail_if, ok_or,
}
use hotaru_mqtt.Error.{MqttError, CodecError, Violation}
use hotaru_mqtt.Request.Qos.{Qos, at_most_once}
use hotaru_mqtt.Request.Qos
use hotaru_mqtt.Request.SubackCode.{SubackCode}
use hotaru_mqtt.Request.SubackCode
use hotaru_mqtt.Packet.{Packet, TopicSubscription, WillPacket}
use hotaru_mqtt.Packet.PacketType.{PacketType}
use hotaru_mqtt.Packet.ConnackReturnCode
use hotaru_mqtt.Codec.Primitives.{index, slice, eof, read_u16, read_arc_str, read_bytes}

abbrev pub codec_err : CodecError → MqttError
codec_err = MqttError.codec

abbrev pub mqtt_name : Bytes
mqtt_name = b'M' ∷ b'Q' ∷ b'T' ∷ b'T' ∷ []

unfoldable pub require_empty_body : ℕ → Outcome MqttError (Unit {0})
require_empty_body remaining =
    fail_if (not (remaining == 0)) (codec_err (CodecError.payload_too_long remaining 0))

-- `if test { Some(read(..)?) } else { None }`
unfoldable pub read_if {ℓ} :
    {A : Type ℓ} → Bool → Outcome MqttError (A × ℕ) → ℕ → Outcome MqttError (Option A × ℕ)
read_if true r cursor = do (a, after) ← r; ok (some a, after)
read_if false r cursor = ok (none, cursor)

unfoldable pub parse_connack : Bytes → Outcome MqttError Packet
parse_connack body = do
  fail_if (ltb (length body) 2) eof
  b0 ← index body 0
  b1 ← index body 1
  code ← ok_or (ConnackReturnCode.try_from b1) (codec_err (CodecError.invalid_packet_type b1))
  ok (Packet.connack (record { session_present = has_bit b0 0; return_code = code }))

-- The arms of `match packet_type`.
unfoldable pub ack_packet : PacketType → ℕ → Packet
ack_packet PacketType.puback id = Packet.puback id
ack_packet PacketType.pubrec id = Packet.pubrec id
ack_packet PacketType.pubrel id = Packet.pubrel id
ack_packet _ id = Packet.pubcomp id

unfoldable pub expected_flags : PacketType → ℕ
expected_flags PacketType.pubrel = 0x02
expected_flags _ = 0x00

unfoldable pub parse_ack_packet : ℕ → PacketType → ℕ → Bytes → Outcome MqttError Packet
unfolding ack_packet expected_flags
parse_ack_packet first type remaining body = do
  fail_if (not (remaining == 2)) (codec_err (CodecError.payload_too_long remaining 2))
  fail_if (not (low_bits first 4 == expected_flags type)) (codec_err CodecError.reserved_flag_set)
  b0 ← index body 0
  b1 ← index body 1
  ok (ack_packet type (from_be_bytes b0 b1))

-- `body[2..].iter().map(..).collect::<Result<Vec<_>, _>>()`
unfoldable pub suback_codes : Bytes → Outcome MqttError (List SubackCode)
suback_codes [] = ok []
suback_codes (b ∷ rest) = do
  code ← ok_or (SubackCode.from_u8 b) (codec_err (CodecError.invalid_packet_type b))
  codes ← suback_codes rest
  ok (code ∷ codes)

unfoldable pub parse_suback : Bytes → Outcome MqttError Packet
parse_suback body = do
  fail_if (ltb (length body) 3) eof
  b0 ← index body 0
  b1 ← index body 1
  tail ← slice body 2 (length body)
  codes ← suback_codes tail
  ok (Packet.suback (record { packet_id = from_be_bytes b0 b1; return_codes = codes }))

unfoldable pub parse_unsuback : ℕ → Bytes → Outcome MqttError Packet
parse_unsuback remaining body = do
  fail_if (not (remaining == 2)) (codec_err (CodecError.payload_too_long remaining 2))
  b0 ← index body 0
  b1 ← index body 1
  ok (Packet.unsuback (from_be_bytes b0 b1))

module _ (valid_utf8 : Bytes → Bool) where
  -- The `Some` arm of `let will = if ...`.
  unfoldable pub read_will : ℕ → Bytes → ℕ → Outcome MqttError (WillPacket × ℕ)
  read_will flags body cursor = do
    (topic, c1) ← read_arc_str valid_utf8 body cursor
    (payload, c2) ← read_bytes body c1
    qos ←
        ok_or (Qos.from_u8 (low_bits (shr flags 3) 2))
          (codec_err (CodecError.qos_invalid (low_bits (shr flags 3) 2)))
    ok (record { topic = topic; payload = payload; qos = qos; retain = has_bit flags 5 }, c2)

  -- What follows the keep-alive.
  unfoldable pub parse_connect_payload : ℕ → ℕ → Bytes → Outcome MqttError Packet
  parse_connect_payload flags keep_alive body = do
    (client_id, c1) ← read_arc_str valid_utf8 body 10
    (will, c2) ← read_if (has_bit flags 2) (read_will flags body c1) c1
    (username, c3) ← read_if (has_bit flags 7) (read_arc_str valid_utf8 body c2) c2
    (password, c4) ← read_if (has_bit flags 6) (read_bytes body c3) c3
    ok (
        Packet.connect (record {
          client_id = client_id;
          clean_session = has_bit flags 1;
          keep_alive = keep_alive;
          username = username;
          password = password;
          will = will;
        }))

  unfoldable pub parse_connect : Bytes → Outcome MqttError Packet
  parse_connect body = do
    fail_if (ltb (length body) 10) eof
    b0 ← index body 0
    b1 ← index body 1
    name ← slice body 2 6
    fail_if (not (from_be_bytes b0 b1 == 4) || not (str_eq name mqtt_name))
        (MqttError.protocol Violation.invalid_protocol_name)
    level ← index body 6
    fail_if (not (level == 0x04)) (MqttError.protocol (Violation.unsupported_protocol_level level))
    flags ← index body 7
    b8 ← index body 8
    b9 ← index body 9
    parse_connect_payload flags (from_be_bytes b8 b9) body

  unfoldable pub parse_publish : ℕ → Bytes → Outcome MqttError Packet
  parse_publish first body = do
    fail_if (ltb (length body) 2) eof
    let raw_flags = low_bits first 4
    fail_if (not (shr raw_flags 4 == 0)) (codec_err CodecError.reserved_flag_set)
    let qos_bits = low_bits (shr raw_flags 1) 2
    qos ← ok_or (Qos.from_u8 qos_bits) (codec_err (CodecError.qos_invalid qos_bits))
    (topic, c1) ← read_arc_str valid_utf8 body 0
    (packet_id, c2) ← read_if (not (Qos.eq qos at_most_once)) (read_u16 body c1) c1
    payload ← slice body c2 (length body)
    ok (
        Packet.publish (record {
          topic = topic;
          payload = payload;
          dup = has_bit raw_flags 3;
          qos = qos;
          retain = has_bit raw_flags 0;
          packet_id = packet_id;
        }))

  -- One round of the `while` of `parse_subscribe`.
  unfoldable pub read_subscription : Bytes → ℕ → Outcome MqttError (TopicSubscription × ℕ)
  read_subscription body cursor = do
    (topic, c1) ← read_arc_str valid_utf8 body cursor
    fail_if (not (ltb c1 (length body))) eof
    qos_bits ← index body c1
    qos ← ok_or (Qos.from_u8 qos_bits) (codec_err (CodecError.qos_invalid qos_bits))
    ok (record { topic = topic; qos = qos }, c1 + 1)

  -- `while cursor < body.len() { .. push(..) }`
  unfoldable pub subscription_loop :
      ℕ → Bytes → ℕ → List TopicSubscription → Outcome MqttError (List TopicSubscription)
  subscription_loop zero body cursor out = panic
  subscription_loop (suc fuel) body cursor out =
      let round = (do
        (s, next) ← read_subscription body cursor
        subscription_loop fuel body next (out ++ (s ∷ []))) in
      if ltb cursor (length body) then round else ok out

  unfoldable pub parse_subscribe : Bytes → Outcome MqttError Packet
  parse_subscribe body = do
    fail_if (ltb (length body) 5) eof
    (packet_id, c1) ← read_u16 body 0
    subscriptions ← subscription_loop (length body) body c1 []
    ok (Packet.subscribe (record { packet_id = packet_id; subscriptions = subscriptions }))

  unfoldable pub topic_loop : ℕ → Bytes → ℕ → List Bytes → Outcome MqttError (List Bytes)
  topic_loop zero body cursor out = panic
  topic_loop (suc fuel) body cursor out =
      let round = (do
        (topic, next) ← read_arc_str valid_utf8 body cursor
        topic_loop fuel body next (out ++ (topic ∷ []))) in
      if ltb cursor (length body) then round else ok out

  unfoldable pub parse_unsubscribe : Bytes → Outcome MqttError Packet
  parse_unsubscribe body = do
    fail_if (ltb (length body) 4) eof
    (packet_id, c1) ← read_u16 body 0
    topics ← topic_loop (length body) body c1 []
    ok (Packet.unsubscribe (record { packet_id = packet_id; topics = topics }))

  unfoldable pub parse_packet : ℕ → PacketType → ℕ → Bytes → Outcome MqttError Packet
  parse_packet first PacketType.connect remaining body = parse_connect body
  parse_packet first PacketType.connack remaining body = parse_connack body
  parse_packet first PacketType.publish remaining body = parse_publish first body
  parse_packet first PacketType.puback remaining body =
      parse_ack_packet first PacketType.puback remaining body
  parse_packet first PacketType.pubrec remaining body =
      parse_ack_packet first PacketType.pubrec remaining body
  parse_packet first PacketType.pubrel remaining body =
      parse_ack_packet first PacketType.pubrel remaining body
  parse_packet first PacketType.pubcomp remaining body =
      parse_ack_packet first PacketType.pubcomp remaining body
  parse_packet first PacketType.subscribe remaining body = parse_subscribe body
  parse_packet first PacketType.suback remaining body = parse_suback body
  parse_packet first PacketType.unsubscribe remaining body = parse_unsubscribe body
  parse_packet first PacketType.unsuback remaining body = parse_unsuback remaining body
  parse_packet first PacketType.pingreq remaining body = do
    require_empty_body remaining
    ok Packet.pingreq
  parse_packet first PacketType.pingresp remaining body = do
    require_empty_body remaining
    ok Packet.pingresp
  parse_packet first PacketType.disconnect remaining body = do
    require_empty_body remaining
    ok Packet.disconnect
