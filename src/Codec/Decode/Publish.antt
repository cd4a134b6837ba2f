-- ===== src/Codec/Decode/Publish.antt =====
-- `parse_publish` on the body that `encode_publish` writes.
use hotaru_mqtt.Base.{
  ℕ, ◌+◌, ◌≤◌, ◌≡◌, refl, ◌++◌, Bool, not, Option, none, some, arith, le→ltb, length, drop, Bytes,
  ok,
}
use hotaru_mqtt.Request.Qos.{Qos, at_most_once, at_least_once, exactly_once, eq}
use hotaru_mqtt.Packet.{Packet, PublishPacket}
use hotaru_mqtt.Codec.Primitives.{read_u16, write_arc_str, prefixed}
use hotaru_mqtt.Codec.Primitives.RoundTrip.{
  read_arc_str-prefixed, read_u16-to_be_bytes, slice_to_end,
}
use hotaru_mqtt.Codec.Encode.{publish_body, id_bytes}
use hotaru_mqtt.Codec.Decode.{read_if, parse_publish}
use hotaru_mqtt.Codec.Decode.Flags.{publish_byte, publish_byte_fields}
use hotaru_mqtt.Codec.Decode.Connect.{ReadsTo}
use hotaru_mqtt.Codec.WellFormed.{IsStr, IdMatches}

read_id :
    (q : Qos) (id : Option ℕ) (body : Bytes) (c : ℕ) (rest : Bytes)
    → drop c body ≡ id_bytes id ++ rest
    → c ≤ length body
    → IdMatches q id
    → ReadsTo (read_if (not (eq q at_most_once)) (read_u16 body c) c) id body rest
unfolding read_if eq
read_id at_most_once none body c rest h hc v = (c, refl, h, hc)
read_id at_most_once (some id) body c rest h hc v = absurd v
read_id at_least_once none body c rest h hc v = absurd v
read_id at_least_once (some id) body c rest h hc v =
    let (found, next, size) = read_u16-to_be_bytes body c id rest h v.1 in
    (c + 2, rw found, next, size)
read_id exactly_once none body c rest h hc v = absurd v
read_id exactly_once (some id) body c rest h hc v =
    let (found, next, size) = read_u16-to_be_bytes body c id rest h v.1 in
    (c + 2, rw found, next, size)

pub parse_publish-publish_body :
    (valid_utf8 : Bytes → Bool) (p : PublishPacket)
    → IsStr valid_utf8 p.topic
    → IdMatches p.qos p.packet_id
    → parse_publish valid_utf8 (publish_byte p.dup p.retain p.qos) (publish_body p p.packet_id)
      ≡ ok (Packet.publish p)
unfolding parse_publish publish_body write_arc_str
parse_publish-publish_body valid_utf8 p v hid =
    let body = prefixed p.topic ++ (id_bytes p.packet_id ++ p.payload) in
    let (_, low, qos, dup, retain) = publish_byte_fields p.dup p.retain p.qos in
    let (found, after, size) = read_arc_str-prefixed body 0 p.topic _ refl v.1 valid_utf8 v.0 in
    let (c, found1, after1, size1) =
      read_id p.qos p.packet_id body (0 + 2 + length p.topic) p.payload after size hid in
    rw (
      le→ltb (length body) 2 (omega arith),
      low,
      qos,
      found,
      found1,
      slice_to_end body c p.payload after1 size1,
      dup,
      retain,
    )
