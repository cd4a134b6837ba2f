-- ===== src/Codec/Encode.antt =====
-- codec/encode.rs: the bodies of the packets and their frames.
use Prim.Native.Nat.{bit_and, bit_or}
use hotaru_mqtt.Base.{
  ℕ, ◌*◌, List, [], ◌∷◌, ◌++◌, Bool, true, false, Option, none, some, ltb, ◌==◌, if◌then◌else◌,
  length, Bytes, u8, to_be_bytes, Outcome, ok, err, ◌>>=◌, ◌>>◌, fail_if,
}
use hotaru_mqtt.Error.{CodecError}
use hotaru_mqtt.Request.{PacketId}
use hotaru_mqtt.Request.Qos.{Qos, at_most_once}
use hotaru_mqtt.Request.Qos
use hotaru_mqtt.Request.SubackCode.{SubackCode}
use hotaru_mqtt.Request.SubackCode
use hotaru_mqtt.Packet.{
  WillPacket, ConnectPacket, ConnackPacket, PublishPacket, TopicSubscription, SubscribePacket,
  SubackPacket, UnsubscribePacket, mqtt_spec_max_packet_size,
}
use hotaru_mqtt.Packet.PacketType
use hotaru_mqtt.Packet.ConnackReturnCode
use hotaru_mqtt.Codec.Varint.{encode_remaining_length}
use hotaru_mqtt.Codec.Primitives.{write_arc_str, write_bytes}

-- `(PacketType::X as u8) << 4`
abbrev pub type_byte : PacketType.PacketType → ℕ
type_byte t = u8 (PacketType.as_u8 t * 16)

-- `let mut buf = vec![first]; buf.extend(encode_remaining_length(body.len())); buf.extend(body);`
unfoldable pub framed : ℕ → Bytes → Bytes
framed first body = first ∷ (encode_remaining_length (length body) ++ body)

-- `if test { flags |= flag }`
abbrev pub set_flag : Bool → ℕ → ℕ → ℕ
set_flag test flag flags = if test then bit_or flags flag else flags

-- The `if let Some(will)` of the flags byte.
unfoldable pub will_flags : Qos → Bool → ℕ → ℕ
will_flags qos retain flags =
    set_flag retain 0x20 (bit_or (bit_or flags 0x04) (bit_and (u8 (Qos.as_u8 qos * 8)) 0x18))

abbrev pub is_some {ℓ} : {A : Type ℓ} → Option A → Bool
is_some none = false
is_some (some a) = true

unfoldable pub connect_flags : Bool → Option WillPacket → Bool → Bool → ℕ
unfolding will_flags
connect_flags clean none user pass = set_flag pass 0x40 (set_flag user 0x80 (set_flag clean 0x02 0))
connect_flags clean (some w) user pass =
    set_flag pass 0x40 (set_flag user 0x80 (will_flags w.qos w.retain (set_flag clean 0x02 0)))

unfoldable pub write_will : Bytes → Option WillPacket → Bytes
write_will out none = out
write_will out (some w) = write_bytes (write_arc_str out w.topic) w.payload

unfoldable pub write_username : Bytes → Option Bytes → Bytes
write_username out none = out
write_username out (some name) = write_arc_str out name

unfoldable pub write_password : Bytes → Option Bytes → Bytes
write_password out none = out
write_password out (some word) = write_bytes out word

-- The bytes up to and with the keep-alive.
unfoldable pub connect_header : ConnectPacket → Bytes
connect_header c =
    0x00
    ∷ 0x04
    ∷ b'M'
    ∷ b'Q'
    ∷ b'T'
    ∷ b'T'
    ∷ 0x04
    ∷ connect_flags c.clean_session c.will (is_some c.username) (is_some c.password)
    ∷ to_be_bytes c.keep_alive

unfoldable pub connect_body : ConnectPacket → Bytes
connect_body c =
    write_password
      (write_username (write_will (write_arc_str (connect_header c) c.client_id) c.will) c.username)
      c.password

unfoldable pub encode_connect : ConnectPacket → Bytes
encode_connect c = framed (type_byte PacketType.connect) (connect_body c)

unfoldable pub encode_connack : ConnackPacket → Bytes
encode_connack ack =
    type_byte PacketType.connack
    ∷ 0x02
    ∷ (if ack.session_present then 0x01 else 0x00)
    ∷ ConnackReturnCode.as_u8 ack.return_code
    ∷ []

unfoldable pub checked_id : Option PacketId → Outcome CodecError (Option PacketId)
checked_id none = err CodecError.missing_packet_id
checked_id (some id) = if id == 0 then err CodecError.zero_packet_id else ok (some id)

unfoldable pub validate_publish_for_encode : PublishPacket → Outcome CodecError (Option PacketId)
validate_publish_for_encode p =
    if ltb 65535 (length p.topic)
    then err (CodecError.topic_too_long (length p.topic) 65535)
    else if Qos.eq p.qos at_most_once
    then ok none
    else checked_id p.packet_id

unfoldable pub pack_flags : Bool → Bool → Qos → ℕ
pack_flags dup retain qos =
    bit_or (set_flag retain 0x01 (set_flag dup 0x08 0)) (bit_and (u8 (Qos.as_u8 qos * 2)) 0x06)

unfoldable pub pack_publish_flags : PublishPacket → ℕ
pack_publish_flags p = pack_flags p.dup p.retain p.qos

-- `if let Some(packet_id)`, big-endian.
abbrev pub id_bytes : Option PacketId → Bytes
id_bytes none = []
id_bytes (some id) = to_be_bytes id

unfoldable pub publish_body : PublishPacket → Option PacketId → Bytes
publish_body p id = write_arc_str [] p.topic ++ (id_bytes id ++ p.payload)

-- What follows the validation.
unfoldable pub encode_validated : PublishPacket → Option PacketId → Outcome CodecError Bytes
encode_validated p id = do
  let body = publish_body p id
  fail_if (ltb mqtt_spec_max_packet_size (length body))
      (CodecError.body_too_long (length body) mqtt_spec_max_packet_size)
  ok (framed (bit_or (type_byte PacketType.publish) (pack_publish_flags p)) body)

unfoldable pub encode_publish : PublishPacket → Outcome CodecError Bytes
unfolding encode_validated
encode_publish p = validate_publish_for_encode p >>= λ id. encode_validated p id

-- The `for` loops over the entries of a packet.
unfoldable pub write_subscriptions : Bytes → List TopicSubscription → Bytes
write_subscriptions out [] = out
write_subscriptions out (s ∷ rest) =
    write_subscriptions (write_arc_str out s.topic ++ (Qos.as_u8 s.qos ∷ [])) rest

unfoldable pub write_codes : Bytes → List SubackCode → Bytes
write_codes out [] = out
write_codes out (c ∷ rest) = write_codes (out ++ (SubackCode.as_u8 c ∷ [])) rest

unfoldable pub write_topics : Bytes → List Bytes → Bytes
write_topics out [] = out
write_topics out (t ∷ rest) = write_topics (write_arc_str out t) rest

unfoldable pub encode_subscribe : SubscribePacket → Bytes
encode_subscribe s =
    framed (bit_or (type_byte PacketType.subscribe) 0x02)
      (write_subscriptions (to_be_bytes s.packet_id) s.subscriptions)

unfoldable pub encode_suback : SubackPacket → Bytes
encode_suback s =
    framed (type_byte PacketType.suback) (write_codes (to_be_bytes s.packet_id) s.return_codes)

unfoldable pub encode_unsubscribe : UnsubscribePacket → Bytes
encode_unsubscribe u =
    framed (bit_or (type_byte PacketType.unsubscribe) 0x02)
      (write_topics (to_be_bytes u.packet_id) u.topics)
