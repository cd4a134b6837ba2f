-- ===== src/Codec/Typed/Frames.antt =====
-- codec/mod.rs: the types of the packet that is read from a stream or taken from a buffer.
use hotaru_mqtt.Base.{
  ℕ, zero, suc, ◌+◌, ◌*◌, ◌≡◌, Bool, not, [], ◌∷◌, some, inl, inr, All, Bytes, length, IsByte, ltb,
  ltb→le, ◌==◌, Bool-cases, shr, has_bit, arith, ok,
}
use hotaru_mqtt.Packet.{Packet}
use hotaru_mqtt.Packet.PacketType
use hotaru_mqtt.Packet.PacketType.{PacketType}
use hotaru_mqtt.Codec.Varint.{read_exact, read_length_loop, read_remaining_length}
use hotaru_mqtt.Codec.Primitives.{index}
use hotaru_mqtt.Codec.Decode.{parse_packet, require_empty_body}
use hotaru_mqtt.Codec.Frame.{read_packet, decode_packet_from_bytes}
use hotaru_mqtt.Codec.Agreement.{decoders_agree}
use hotaru_mqtt.Codec.Typed.{IsTyped}
use hotaru_mqtt.Codec.Typed.Rules.{
  Post, Post-bind, Post-ok, Post-check, Post-ok_or, Post-step, take-All, drop-All,
}
use hotaru_mqtt.Codec.Typed.Parsers.{
  parse_connack-Post, parse_ack_packet-Post, parse_unsuback-Post, parse_suback-Post,
  parse_connect-Post, parse_publish-Post,
}
use hotaru_mqtt.Codec.Typed.Lists.{parse_subscribe-Post, parse_unsubscribe-Post}

read_exact-Post :
    (n : ℕ) (wire : Bytes)
    → All IsByte wire
    → Post (λ x. All IsByte x.0 × All IsByte x.1) (read_exact n wire)
unfolding read_exact
read_exact-Post n wire h = elim (Bool-cases (ltb (length wire) n)) [
  | inl e ↦ rw e tt
  | inr e ↦ rw e (take-All IsByte n wire h, drop-All IsByte n wire h)
]

read_length_loop-Post :
    (rounds i result multiplier : ℕ) (wire : Bytes)
    → All IsByte wire
    → Post (λ x. All IsByte x.1) (read_length_loop rounds i result multiplier wire)
unfolding read_length_loop
read_length_loop-Post zero i result multiplier wire h = tt
read_length_loop-Post (suc rounds) i result multiplier [] h = tt
read_length_loop-Post (suc rounds) i result multiplier (byte ∷ wire) (p, h) =
    elim (Bool-cases (not (has_bit byte 7))) [
      | inl e ↦ rw e h
      | inr e ↦ elim (Bool-cases (i == 3)) [
        | inl f ↦ rw (e, f) tt
        | inr f ↦ rw (e, f) (read_length_loop-Post rounds (i + 1) _ (multiplier * 128) wire h)
      ]
    ]

module _ (valid_utf8 : Bytes → Bool) where
  parse_packet-Post :
      (first : ℕ) (t : PacketType) (remaining : ℕ) (body : Bytes)
      → All IsByte body
      → Post (IsTyped valid_utf8) (parse_packet valid_utf8 first t remaining body)
  unfolding parse_packet
  parse_packet-Post first PacketType.connect remaining body h = parse_connect-Post valid_utf8 body h
  parse_packet-Post first PacketType.connack remaining body h = parse_connack-Post valid_utf8 body h
  parse_packet-Post first PacketType.publish remaining body h =
      parse_publish-Post valid_utf8 body h first
  parse_packet-Post first PacketType.puback remaining body h =
      parse_ack_packet-Post valid_utf8 body h first PacketType.puback remaining
  parse_packet-Post first PacketType.pubrec remaining body h =
      parse_ack_packet-Post valid_utf8 body h first PacketType.pubrec remaining
  parse_packet-Post first PacketType.pubrel remaining body h =
      parse_ack_packet-Post valid_utf8 body h first PacketType.pubrel remaining
  parse_packet-Post first PacketType.pubcomp remaining body h =
      parse_ack_packet-Post valid_utf8 body h first PacketType.pubcomp remaining
  parse_packet-Post first PacketType.subscribe remaining body h =
      parse_subscribe-Post valid_utf8 body h
  parse_packet-Post first PacketType.suback remaining body h = parse_suback-Post valid_utf8 body h
  parse_packet-Post first PacketType.unsubscribe remaining body h =
      parse_unsubscribe-Post valid_utf8 body h
  parse_packet-Post first PacketType.unsuback remaining body h =
      parse_unsuback-Post valid_utf8 body h remaining
  parse_packet-Post first PacketType.pingreq remaining body h =
      Post-step (IsTyped valid_utf8) (require_empty_body remaining) _ λ _. tt
  parse_packet-Post first PacketType.pingresp remaining body h =
      Post-step (IsTyped valid_utf8) (require_empty_body remaining) _ λ _. tt
  parse_packet-Post first PacketType.disconnect remaining body h =
      Post-step (IsTyped valid_utf8) (require_empty_body remaining) _ λ _. tt

  -- What is asked of the packet, and of the bytes behind it.
  abbrev Taken : Packet × Bytes → Type 0
  Taken x = IsTyped valid_utf8 x.0 × All IsByte x.1

  read_packet-Post :
      (wire : Bytes) (max_size : ℕ)
      → All IsByte wire
      → Post Taken (read_packet valid_utf8 wire max_size)
  unfolding read_packet read_remaining_length
  read_packet-Post wire max_size h =
      Post-bind (λ x. All IsByte x.0 × All IsByte x.1) Taken _ _ (read_exact-Post 1 wire h)
        λ (header, w1) (_, h1). Post-step Taken (index header 0) _ λ first.
          Post-ok_or Taken (PacketType.try_from (shr first 4)) _ _ λ t.
            Post-bind (λ x. All IsByte x.1) Taken (read_remaining_length w1) _
              (read_length_loop-Post 4 0 0 1 w1 h1)
              λ (remaining, w2) h2. Post-check Taken (ltb max_size remaining) _ _ λ _.
                Post-bind (λ x. All IsByte x.0 × All IsByte x.1) Taken (read_exact remaining w2) _
                  (read_exact-Post remaining w2 h2)
                  λ (body, w3) (hb, h3).
                    Post-bind (IsTyped valid_utf8) Taken _ _
                      (parse_packet-Post first t remaining body hb) λ p v. (v, h3)

  -- The stream path returns the packet that the buffered path returns.
  read_of_decoded :
      (buf : Bytes) (max_size : ℕ) (p : Packet) (rest : Bytes)
      → decode_packet_from_bytes valid_utf8 buf max_size ≡ ok (some p, rest)
      → read_packet valid_utf8 buf max_size ≡ ok (p, rest)
  read_of_decoded buf max_size p rest e = elim (Bool-cases (ltb (length buf) 2)) [
    | inl few ↦ unfold decode_packet_from_bytes in absurd (ground arith)
    | inr many ↦ (rw e at (decoders_agree valid_utf8 buf max_size (ltb→le (length buf) 2 many))).0
  ]

  -- A packet that the buffered decoder takes from a buffer of bytes is the one that the stream
  -- decoder reads, and has the types of packet.rs: its strings are UTF-8, the lengths of its
  -- prefixed fields, its keep-alive and its identifiers are u16, its payload and what is left of
  -- the buffer are bytes, a PUBLISH has an identifier exactly if its qos is not 0, and SUBSCRIBE,
  -- SUBACK and UNSUBSCRIBE have an entry.
  pub decoded-IsTyped :
      (buf : Bytes) (max_size : ℕ) (p : Packet) (rest : Bytes)
      → All IsByte buf
      → decode_packet_from_bytes valid_utf8 buf max_size ≡ ok (some p, rest)
      → (read_packet valid_utf8 buf max_size ≡ ok (p, rest))
        × IsTyped valid_utf8 p
        × All IsByte rest
  decoded-IsTyped buf max_size p rest h e =
      let r = read_of_decoded buf max_size p rest e in
      let (v, k) = Post-ok Taken _ (p, rest) r (read_packet-Post buf max_size h) in (r, v, k)
