-- ===== src/Codec/Frame.antt =====
-- codec/mod.rs: whole packets. A reader is the list of the bytes that it will deliver before its
-- end; a writer is the list of the bytes written, and does not fail. A `BytesMut` is the list of
-- the bytes that it holds; it is returned when the call succeeds, and an error keeps none of it.
use Prim.Native.Nat.{bit_or}
use hotaru_mqtt.Base.{
  ℕ, ◌+◌, [], ◌∷◌, ◌++◌, Option, none, some, ltb, if◌then◌else◌, length, take, drop, Bytes, u8, u16,
  shr, low_bits, to_be_bytes, Outcome, ok, panic, ◌>>=◌, ◌>>◌, fail_if, ok_or, map_err, Bool,
}
use hotaru_mqtt.Error.{MqttError, CodecError, Violation}
use hotaru_mqtt.Request.{PacketId}
use hotaru_mqtt.Packet.{Packet, PublishPacket, mqtt_spec_max_packet_size}
use hotaru_mqtt.Packet.PacketType
use hotaru_mqtt.Safety
use hotaru_mqtt.Safety.{max_packet_size}
use hotaru_mqtt.Codec.Varint.{
  read_exact, read_remaining_length, decode_remaining_length_from_slice, encode_remaining_length,
}
use hotaru_mqtt.Codec.Primitives.{index, slice}
use hotaru_mqtt.Codec.Encode.{
  encode_connect, encode_connack, encode_publish, encode_subscribe, encode_suback,
  encode_unsubscribe, validate_publish_for_encode, pack_publish_flags, type_byte, id_bytes,
}
use hotaru_mqtt.Codec.Decode.{parse_packet}

-- `BytesMut::split_to` of the bytes crate, which is documented to panic past the end.
unfoldable pub split_to : ℕ → Bytes → Outcome MqttError (Bytes × Bytes)
split_to n buf = if ltb (length buf) n then panic else ok (take n buf, drop n buf)

abbrev pub too_large : ℕ → ℕ → MqttError
too_large len max = MqttError.protocol (Violation.packet_too_large len max)

module _ (valid_utf8 : Bytes → Bool) where
  unfoldable pub read_packet : Bytes → ℕ → Outcome MqttError (Packet × Bytes)
  read_packet wire max_size = do
    (header, w1) ← read_exact 1 wire
    first ← index header 0
    let raw_type = shr first 4
    type ←
        ok_or (PacketType.try_from raw_type)
          (MqttError.codec (CodecError.invalid_packet_type raw_type))
    (remaining, w2) ← read_remaining_length w1
    fail_if (ltb max_size remaining) (too_large remaining max_size)
    (body, w3) ← read_exact remaining w2
    packet ← parse_packet valid_utf8 first type remaining body
    ok (packet, w3)

  -- What follows the remaining length, once it is known.
  unfoldable pub split_packet :
      Bytes → ℕ → PacketType.PacketType → ℕ → ℕ → ℕ → Outcome MqttError (Option Packet × Bytes)
  split_packet buf first type remaining rl_bytes max_size = do
    fail_if (ltb max_size remaining) (too_large remaining max_size)
    let header_len = 1 + rl_bytes
    let total = header_len + remaining
    let whole = (do
      (packet_bytes, left) ← split_to total buf
      body ← slice packet_bytes header_len (length packet_bytes)
      packet ← parse_packet valid_utf8 first type remaining body
      ok (some packet, left))
    if ltb (length buf) total then ok (none, buf) else whole

  unfoldable pub decode_packet_from_bytes : Bytes → ℕ → Outcome MqttError (Option Packet × Bytes)
  decode_packet_from_bytes buf max_size =
      let framed_part = (do
        first ← index buf 0
        let raw_type = shr first 4
        type ←
            ok_or (PacketType.try_from raw_type)
              (MqttError.codec (CodecError.invalid_packet_type raw_type))
        rest ← slice buf 1 (length buf)
        found ← decode_remaining_length_from_slice rest
        elim found [
          | none ↦ ok (none, buf)
          | some (remaining, rl_bytes) ↦ split_packet buf first type remaining rl_bytes max_size
        ]) in
      if ltb (length buf) 2 then ok (none, buf) else framed_part

-- The acknowledgements, `vec![first, 0x02, (*id >> 8) as u8, (*id & 0xFF) as u8]`.
abbrev pub ack_bytes : ℕ → PacketId → Bytes
ack_bytes first id = first ∷ 0x02 ∷ u8 (shr id 8) ∷ u8 (low_bits id 8) ∷ []

unfoldable pub encode_packet : Packet → Outcome CodecError Bytes
encode_packet (Packet.connect c) = ok (encode_connect c)
encode_packet (Packet.connack c) = ok (encode_connack c)
encode_packet (Packet.publish p) = encode_publish p
encode_packet (Packet.puback id) = ok (ack_bytes 0x40 id)
encode_packet (Packet.pubrec id) = ok (ack_bytes 0x50 id)
encode_packet (Packet.pubrel id) = ok (ack_bytes 0x62 id)
encode_packet (Packet.pubcomp id) = ok (ack_bytes 0x70 id)
encode_packet (Packet.subscribe s) = ok (encode_subscribe s)
encode_packet (Packet.suback s) = ok (encode_suback s)
encode_packet (Packet.unsubscribe u) = ok (encode_unsubscribe u)
encode_packet (Packet.unsuback id) = ok (ack_bytes 0xB0 id)
encode_packet Packet.pingreq = ok (0xC0 ∷ 0x00 ∷ [])
encode_packet Packet.pingresp = ok (0xD0 ∷ 0x00 ∷ [])
encode_packet Packet.disconnect = ok (0xE0 ∷ 0x00 ∷ [])

-- The bytes on the wire after the call.
unfoldable pub write_packet : Bytes → Packet → Outcome MqttError Bytes
write_packet wire packet = do buf ← map_err MqttError.codec (encode_packet packet); ok (wire ++ buf)

unfoldable pub id_len : Option PacketId → ℕ
id_len none = 0
id_len (some id) = 2

-- What follows the validation.
unfoldable pub write_validated : Bytes → PublishPacket → Option PacketId → Outcome MqttError Bytes
write_validated wire p id = do
  let var_header_len = 2 + length p.topic + id_len id
  let body_len = var_header_len + length p.payload
  fail_if (ltb mqtt_spec_max_packet_size body_len)
      (MqttError.codec (CodecError.body_too_long body_len mqtt_spec_max_packet_size))
  let header =
      bit_or (type_byte PacketType.publish) (pack_publish_flags p)
      ∷ (((encode_remaining_length body_len ++ to_be_bytes (u16 (length p.topic))) ++ p.topic)
          ++ id_bytes id)
  ok ((wire ++ header) ++ p.payload)

unfoldable pub write_publish_packet : Bytes → PublishPacket → Outcome MqttError Bytes
unfolding write_validated
write_publish_packet wire p =
    map_err MqttError.codec (validate_publish_for_encode p) >>= λ id. write_validated wire p id

-- `Message for Packet`: `encode` behind what the buffer holds, and `decode` under the default cap.
unfoldable pub encode : Packet → Bytes → Outcome MqttError Bytes
encode p buf = do bytes ← map_err MqttError.codec (encode_packet p); ok (buf ++ bytes)

unfoldable pub decode : (Bytes → Bool) → Bytes → Outcome MqttError (Option Packet × Bytes)
decode valid_utf8 buf = decode_packet_from_bytes valid_utf8 buf (max_packet_size Safety.new)
