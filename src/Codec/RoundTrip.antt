-- ===== src/Codec/RoundTrip.antt =====
-- codec/mod.rs: the decoders on what `encode_packet` writes.
use hotaru_mqtt.Base.{
  ℕ, ◌^◌, ◌≤◌, ◌<◌, ◌≡◌, refl, sym, ap, [], ◌∷◌, ◌++◌, Bool, true, false, Option, none, some, arith,
  le→ltb, if◌then◌else◌, has_bit, low_bits, length, Bytes, u8, shr, to_be_bytes,
  from_be_bytes-to_be_bytes, ok,
}
use hotaru_mqtt.Request.Qos.{Qos, at_most_once, at_least_once, exactly_once, eq}
use hotaru_mqtt.Packet.{Packet, PublishPacket, ConnackPacket, mqtt_spec_max_packet_size}
use hotaru_mqtt.Packet.PacketType.{PacketType, try_from, as_u8}
use hotaru_mqtt.Packet.ConnackReturnCode
use hotaru_mqtt.Codec.Varint.Groups.{encode_two, encode_zero}
use hotaru_mqtt.Codec.Primitives.{index}
use hotaru_mqtt.Codec.Encode.{
  framed, encode_connect, encode_connack, encode_publish, encode_subscribe, encode_suback,
  encode_unsubscribe, checked_id, validate_publish_for_encode, pack_publish_flags, publish_body,
}
use hotaru_mqtt.Codec.Decode.{
  parse_packet, parse_connack, parse_ack_packet, parse_unsuback, require_empty_body,
}
use hotaru_mqtt.Codec.Decode.Flags.{publish_byte, publish_byte_fields}
use hotaru_mqtt.Codec.Decode.Connect.{parse_connect-connect_body}
use hotaru_mqtt.Codec.Decode.Publish.{parse_publish-publish_body}
use hotaru_mqtt.Codec.Decode.Lists.{
  parse_subscribe-write_subscriptions, parse_suback-write_codes, parse_unsubscribe-write_topics,
}
use hotaru_mqtt.Codec.Frame.{read_packet, decode_packet_from_bytes, encode_packet, ack_bytes}
use hotaru_mqtt.Codec.Framing.{read_packet-framed, decode_packet_from_bytes-framed}
use hotaru_mqtt.Codec.WellFormed.{IsWellFormed, IdMatches, body_of}

-- The type and the first byte of a packet.
abbrev type_of : Packet → PacketType
type_of (Packet.connect c) = PacketType.connect
type_of (Packet.connack a) = PacketType.connack
type_of (Packet.publish p) = PacketType.publish
type_of (Packet.puback id) = PacketType.puback
type_of (Packet.pubrec id) = PacketType.pubrec
type_of (Packet.pubrel id) = PacketType.pubrel
type_of (Packet.pubcomp id) = PacketType.pubcomp
type_of (Packet.subscribe s) = PacketType.subscribe
type_of (Packet.suback s) = PacketType.suback
type_of (Packet.unsubscribe u) = PacketType.unsubscribe
type_of (Packet.unsuback id) = PacketType.unsuback
type_of Packet.pingreq = PacketType.pingreq
type_of Packet.pingresp = PacketType.pingresp
type_of Packet.disconnect = PacketType.disconnect

first_of : Packet → ℕ
first_of (Packet.connect c) = 0x10
first_of (Packet.connack a) = 0x20
first_of (Packet.publish p) = publish_byte p.dup p.retain p.qos
first_of (Packet.puback id) = 0x40
first_of (Packet.pubrec id) = 0x50
first_of (Packet.pubrel id) = 0x62
first_of (Packet.pubcomp id) = 0x70
first_of (Packet.subscribe s) = 0x82
first_of (Packet.suback s) = 0x90
first_of (Packet.unsubscribe u) = 0xA2
first_of (Packet.unsuback id) = 0xB0
first_of Packet.pingreq = 0xC0
first_of Packet.pingresp = 0xD0
first_of Packet.disconnect = 0xE0

first_of_typed : (p : Packet) → try_from (shr (first_of p) 4) ≡ some (type_of p)
unfolding first_of try_from
first_of_typed (Packet.publish p) = (publish_byte_fields p.dup p.retain p.qos).0
first_of_typed _ = refl

framed_ack : (first id : ℕ) → ack_bytes first id ≡ framed first (to_be_bytes id)
unfolding framed
framed_ack first id = let e : u8 (low_bits id 8) ≡ u8 id = omega arith in rw (encode_two, e)

framed_empty : (first : ℕ) → framed first [] ≡ first ∷ 0 ∷ []
unfolding framed
framed_empty first = rw encode_zero

validated_id :
    (q : Qos) (id : Option ℕ)
    → IdMatches q id
    → (if eq q at_most_once then ok none else checked_id id) ≡ ok id
unfolding eq checked_id
validated_id at_most_once none v = refl
validated_id at_most_once (some id) v = absurd v
validated_id at_least_once none v = absurd v
validated_id at_least_once (some id) v = ground arith
validated_id exactly_once none v = absurd v
validated_id exactly_once (some id) v = ground arith

validate_publish_lem :
    (p : PublishPacket)
    → length p.topic < 65536
    → IdMatches p.qos p.packet_id
    → validate_publish_for_encode p ≡ ok p.packet_id
unfolding validate_publish_for_encode
validate_publish_lem p h v =
    rw (le→ltb 65535 (length p.topic) (omega arith)) (validated_id p.qos p.packet_id v)

encode_publish_lem :
    (p : PublishPacket)
    → length p.topic < 65536
    → IdMatches p.qos p.packet_id
    → length (publish_body p p.packet_id) < 128 ^ 4
    → encode_publish p
      ≡ ok (framed (publish_byte p.dup p.retain p.qos) (publish_body p p.packet_id))
unfolding encode_publish pack_publish_flags
encode_publish_lem p h v short = rw (
  validate_publish_lem p h v,
  le→ltb mqtt_spec_max_packet_size (length (publish_body p p.packet_id)) (omega arith),
)

session_bit : (b : Bool) → has_bit (if b then 1 else 0) 0 ≡ b
session_bit true = refl
session_bit false = refl

module _ (valid_utf8 : Bytes → Bool) where
  encode_packet-framed :
      (p : Packet)
      → IsWellFormed valid_utf8 p
      → length (body_of p) < 128 ^ 4
      → encode_packet p ≡ ok (framed (first_of p) (body_of p))
  unfolding encode_packet first_of body_of
  encode_packet-framed (Packet.connect c) v h = unfold encode_connect as_u8 in refl
  encode_packet-framed (Packet.connack a) v h = unfold encode_connack framed as_u8 in rw encode_two
  encode_packet-framed (Packet.publish p) v h = encode_publish_lem p v.0.1 v.1 h
  encode_packet-framed (Packet.puback id) v h = ap ok (framed_ack 0x40 id)
  encode_packet-framed (Packet.pubrec id) v h = ap ok (framed_ack 0x50 id)
  encode_packet-framed (Packet.pubrel id) v h = ap ok (framed_ack 0x62 id)
  encode_packet-framed (Packet.pubcomp id) v h = ap ok (framed_ack 0x70 id)
  encode_packet-framed (Packet.subscribe s) v h = unfold encode_subscribe as_u8 in refl
  encode_packet-framed (Packet.suback s) v h = unfold encode_suback as_u8 in refl
  encode_packet-framed (Packet.unsubscribe u) v h = unfold encode_unsubscribe as_u8 in refl
  encode_packet-framed (Packet.unsuback id) v h = ap ok (framed_ack 0xB0 id)
  encode_packet-framed Packet.pingreq v h = ap ok (sym (framed_empty 0xC0))
  encode_packet-framed Packet.pingresp v h = ap ok (sym (framed_empty 0xD0))
  encode_packet-framed Packet.disconnect v h = ap ok (sym (framed_empty 0xE0))

  parse_connack_lem :
      (a : ConnackPacket) → parse_connack (body_of (Packet.connack a)) ≡ ok (Packet.connack a)
  unfolding parse_connack index body_of
  parse_connack_lem a =
      rw (ConnackReturnCode.try_from-as_u8 a.return_code, session_bit a.session_present)

  parse_packet-body_of :
      (p : Packet)
      → IsWellFormed valid_utf8 p
      → parse_packet valid_utf8 (first_of p) (type_of p) (length (body_of p)) (body_of p) ≡ ok p
  unfolding parse_packet first_of body_of
  parse_packet-body_of (Packet.connect c) v = parse_connect-connect_body valid_utf8 c v
  parse_packet-body_of (Packet.connack a) v = parse_connack_lem a
  parse_packet-body_of (Packet.publish p) v = parse_publish-publish_body valid_utf8 p v.0 v.1
  parse_packet-body_of (Packet.puback id) v =
      unfold parse_ack_packet index in rw (from_be_bytes-to_be_bytes id v)
  parse_packet-body_of (Packet.pubrec id) v =
      unfold parse_ack_packet index in rw (from_be_bytes-to_be_bytes id v)
  parse_packet-body_of (Packet.pubrel id) v =
      unfold parse_ack_packet index in rw (from_be_bytes-to_be_bytes id v)
  parse_packet-body_of (Packet.pubcomp id) v =
      unfold parse_ack_packet index in rw (from_be_bytes-to_be_bytes id v)
  parse_packet-body_of (Packet.subscribe s) v =
      parse_subscribe-write_subscriptions valid_utf8 s v.0 v.1 v.2
  parse_packet-body_of (Packet.suback s) v = parse_suback-write_codes s v.0 v.1
  parse_packet-body_of (Packet.unsubscribe u) v =
      parse_unsubscribe-write_topics valid_utf8 u v.0 v.1 v.2
  parse_packet-body_of (Packet.unsuback id) v =
      unfold parse_unsuback index in rw (from_be_bytes-to_be_bytes id v)
  parse_packet-body_of Packet.pingreq v = unfold require_empty_body in refl
  parse_packet-body_of Packet.pingresp v = unfold require_empty_body in refl
  parse_packet-body_of Packet.disconnect v = unfold require_empty_body in refl

  -- A packet that the wire format can carry, with a body within the cap and the limit of the
  -- specification, encodes; its bytes, whatever follows them, decode to the same packet and leave
  -- what follows, from a buffer and from a stream.
  pub decode-encode_packet :
      (p : Packet) (rest : Bytes) (max_size : ℕ)
      → IsWellFormed valid_utf8 p
      → length (body_of p) ≤ max_size
      → length (body_of p) ≤ mqtt_spec_max_packet_size
      → (bytes : Bytes) × (encode_packet p ≡ ok bytes)
        × (decode_packet_from_bytes valid_utf8 (bytes ++ rest) max_size ≡ ok (some p, rest))
        × (read_packet valid_utf8 (bytes ++ rest) max_size ≡ ok (p, rest))
  decode-encode_packet p rest max_size v within spec =
      let body = body_of p in
      let short : length body < 128 ^ 4 = omega arith in
      let typed = first_of_typed p in
      let parsed = parse_packet-body_of p v in
      (
        framed (first_of p) body,
        encode_packet-framed p v short,
        rw (
          decode_packet_from_bytes-framed valid_utf8 (first_of p) (type_of p) typed body rest
              max_size within short,
          parsed,
        ),
        rw (
          read_packet-framed valid_utf8 (first_of p) (type_of p) typed body rest max_size within
              short,
          parsed,
        ),
      )
