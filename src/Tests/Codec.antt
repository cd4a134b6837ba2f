-- ===== src/Tests/Codec.antt =====
-- The theorems on the codec at concrete packets.
use hotaru_mqtt.Base.{
  ◌≤◌, ◌≡◌, ◌≢◌, refl, [], ◌∷◌, ◌++◌, some, arith, length, All, Bytes, IsByte, ok, panic, ◌>>=◌,
  map_err,
}
use hotaru_mqtt.Error.{MqttError}
use hotaru_mqtt.Packet.{Packet, mqtt_spec_max_packet_size}
use hotaru_mqtt.Safety
use hotaru_mqtt.Safety.{
  Builds, max_packet_size, max_packet_size-le, with_max_packet_size, default, packet_size,
}
use hotaru_mqtt.Request.Qos.{from_u8, eq}
use hotaru_mqtt.Packet.PacketType.{try_from}
use hotaru_mqtt.Codec.Typed.{IsTyped}
use hotaru_mqtt.Codec.Typed.Frames.{decoded-IsTyped}
use hotaru_mqtt.Codec.Primitives.{index, slice, read_u16, read_arc_str}
use hotaru_mqtt.Codec.Decode.{read_if, parse_packet, parse_publish}
use hotaru_mqtt.Codec.Varint.{
  slice_length_loop, decode_remaining_length_from_slice, read_remaining_length,
}
use hotaru_mqtt.Codec.Varint.Agreement.{LengthAgrees, remaining_length_agree}
use hotaru_mqtt.Codec.Primitives.{write_arc_str}
use hotaru_mqtt.Codec.Encode.{publish_body, encode_publish}
use hotaru_mqtt.Codec.Frame.{
  encode_packet, split_to, split_packet, decode_packet_from_bytes, read_packet,
  write_publish_packet,
}
use hotaru_mqtt.Codec.WellFormed.{body_of}
use hotaru_mqtt.Codec.RoundTrip.{decode-encode_packet}
use hotaru_mqtt.Codec.Agreement.{
  PacketAgrees, decoders_agree, decode_packet_from_bytes-ne-panic,
  write_publish_packet-encode_publish,
}
use hotaru_mqtt.DashMap.{nat_key, str_key}
use hotaru_mqtt.Tests.Data.{ascii, hello, hello_bytes}

hello_len : length (body_of (Packet.publish hello)) ≡ 9
unfolding body_of publish_body write_arc_str
hello_len = refl

decode-encode_packet_example :
    (bytes : Bytes) × (encode_packet (Packet.publish hello) ≡ ok bytes)
    × (decode_packet_from_bytes ascii (bytes ++ (7 ∷ [])) 100
        ≡ ok (some (Packet.publish hello), 7 ∷ []))
    × (read_packet ascii (bytes ++ (7 ∷ [])) 100 ≡ ok (Packet.publish hello, 7 ∷ []))
decode-encode_packet_example =
    decode-encode_packet ascii (Packet.publish hello) (7 ∷ []) 100
      ((refl, omega arith), (omega arith, omega arith)) (omega (arith, hello_len))
      (omega (arith, hello_len))

decoders_agree_example :
    PacketAgrees hello_bytes 100
      (decode_packet_from_bytes ascii hello_bytes 100)
      (read_packet ascii hello_bytes 100)
decoders_agree_example = decoders_agree ascii hello_bytes 100 (omega arith)

decode_packet_from_bytes-ne-panic_example : decode_packet_from_bytes ascii hello_bytes 100 ≢ panic
decode_packet_from_bytes-ne-panic_example = decode_packet_from_bytes-ne-panic ascii hello_bytes 100

write_publish_packet-encode_publish_example :
    write_publish_packet (7 ∷ []) hello
    ≡ (map_err MqttError.codec (encode_publish hello) >>= λ bytes. ok ((7 ∷ []) ++ bytes))
write_publish_packet-encode_publish_example = write_publish_packet-encode_publish (7 ∷ []) hello

max_packet_size-le_example :
    max_packet_size (with_max_packet_size Safety.new 999_999_999) ≤ mqtt_spec_max_packet_size
max_packet_size-le_example = max_packet_size-le (packet_size 999_999_999 default)

hello_typed : All IsByte hello_bytes
hello_typed = ground arith

hello_decoded :
    decode_packet_from_bytes ascii hello_bytes 100 ≡ ok (some (Packet.publish hello), [])
unfolding decode_packet_from_bytes decode_remaining_length_from_slice slice_length_loop split_packet
    split_to parse_packet parse_publish read_arc_str read_u16 read_if slice index from_u8 eq
    try_from
hello_decoded = refl

decoded-IsTyped_example :
    (read_packet ascii hello_bytes 100 ≡ ok (Packet.publish hello, []))
    × IsTyped ascii (Packet.publish hello)
    × All IsByte []
decoded-IsTyped_example =
    decoded-IsTyped ascii hello_bytes 100 (Packet.publish hello) [] hello_typed hello_decoded

remaining_length_agree_example :
    LengthAgrees
      (0x80 ∷ 1 ∷ 5 ∷ [])
      (decode_remaining_length_from_slice (0x80 ∷ 1 ∷ 5 ∷ []))
      (read_remaining_length (0x80 ∷ 1 ∷ 5 ∷ []))
remaining_length_agree_example = remaining_length_agree (0x80 ∷ 1 ∷ 5 ∷ [])
