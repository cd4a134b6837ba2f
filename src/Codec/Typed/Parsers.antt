-- ===== src/Codec/Typed/Parsers.antt =====
-- codec/decode.rs: the types of a parsed packet, but for SUBSCRIBE and UNSUBSCRIBE.
use hotaru_mqtt.Base.{
  ℕ, ◌+◌, ◌-◌, ◌≡◌, refl, Bool, false, not, ◌||◌, [], ◌∷◌, Option, none, some, All, Bytes, length,
  IsByte, IsU16, from_be_bytes, ltb, ◌==◌, shr, low_bits, has_bit, str_eq, arith, Outcome, ◌>>=◌,
}
use hotaru_mqtt.Error.{MqttError}
use hotaru_mqtt.Request.Qos.{Qos, at_most_once, at_least_once, exactly_once, from_u8}
use hotaru_mqtt.Request.Qos
use hotaru_mqtt.Request.SubackCode
use hotaru_mqtt.Request.SubackCode.{SubackCode}
use hotaru_mqtt.Packet.{Packet, WillPacket}
use hotaru_mqtt.Packet.PacketType.{PacketType}
use hotaru_mqtt.Packet.ConnackReturnCode
use hotaru_mqtt.Codec.Primitives.{index, slice, read_arc_str}
use hotaru_mqtt.Codec.Primitives.RoundTrip.{slice_to_end}
use hotaru_mqtt.Codec.WellFormed.{IsStr, IsWill, IsInhabited, Fits}
use hotaru_mqtt.Codec.Decode.{
  mqtt_name, read_if, parse_connack, parse_ack_packet, ack_packet, expected_flags, suback_codes,
  parse_suback, parse_unsuback, read_will, parse_connect_payload, parse_connect, parse_publish,
}
use hotaru_mqtt.Codec.Typed.{HasId, IsTyped}
use hotaru_mqtt.Codec.Typed.Rules.{Post, Post-bind, Post-check, Post-weaken, Post-ok_or, Post-step}
use hotaru_mqtt.Codec.Typed.Fields.{
  Asked, Asked-Maybe, read_if-Post, be_bytes-IsU16, index-Post, slice-Post, IsSlice, read_u16-Post,
  IsField, read_bytes-Post, read_arc_str-Post,
}

Asked-HasId : (q : Qos) (id : Option ℕ) → Asked (not (Qos.eq q at_most_once)) IsU16 id → HasId q id
unfolding Qos.eq
Asked-HasId at_most_once none h = tt
Asked-HasId at_most_once (some id) h = h
Asked-HasId at_least_once none h = h
Asked-HasId at_least_once (some id) h = h
Asked-HasId exactly_once none h = h
Asked-HasId exactly_once (some id) h = h

module _ (valid_utf8 : Bytes → Bool) (body : Bytes) (typed : All IsByte body) where
  -- Two leading bytes as an identifier.
  first_two :
      (f : ℕ → ℕ → Outcome MqttError Packet)
      → ((a b : ℕ) → IsU16 (from_be_bytes a b) → Post (IsTyped valid_utf8) (f a b))
      → Post (IsTyped valid_utf8) (index body 0 >>= λ a. index body 1 >>= λ b. f a b)
  first_two f k = Post-bind IsByte (IsTyped valid_utf8) _ _ (index-Post body typed 0) λ a p.
      Post-bind IsByte (IsTyped valid_utf8) _ _ (index-Post body typed 1)
        λ b q. k a b (be_bytes-IsU16 a b p q)

  pub parse_connack-Post : Post (IsTyped valid_utf8) (parse_connack body)
  unfolding parse_connack
  parse_connack-Post = Post-check (IsTyped valid_utf8) (ltb (length body) 2) _ _ λ _.
      first_two _
        λ a b _. Post-ok_or (IsTyped valid_utf8) (ConnackReturnCode.try_from b) _ _ λ code. tt

  ack_packet-IsTyped : (t : PacketType) (id : ℕ) → IsU16 id → IsTyped valid_utf8 (ack_packet t id)
  unfolding ack_packet
  ack_packet-IsTyped PacketType.puback id h = h
  ack_packet-IsTyped PacketType.pubrec id h = h
  ack_packet-IsTyped PacketType.pubrel id h = h
  ack_packet-IsTyped _ id h = h

  pub parse_ack_packet-Post :
      (first : ℕ) (t : PacketType) (remaining : ℕ)
      → Post (IsTyped valid_utf8) (parse_ack_packet first t remaining body)
  unfolding parse_ack_packet
  parse_ack_packet-Post first t remaining =
      Post-check (IsTyped valid_utf8) (not (remaining == 2)) _ _ λ _.
        Post-check (IsTyped valid_utf8) (not (low_bits first 4 == expected_flags t)) _ _
          λ _. first_two _ λ a b p. ack_packet-IsTyped t (from_be_bytes a b) p

  pub parse_unsuback-Post :
      (remaining : ℕ) → Post (IsTyped valid_utf8) (parse_unsuback remaining body)
  unfolding parse_unsuback
  parse_unsuback-Post remaining =
      Post-check (IsTyped valid_utf8) (not (remaining == 2)) _ _ λ _. first_two _ λ a b p. p

  -- A list of codes is as long as the bytes that it was read from.
  suback_codes-Post : (tail : Bytes) → IsInhabited tail → Post IsInhabited (suback_codes tail)
  unfolding suback_codes
  suback_codes-Post [] h = absurd h
  suback_codes-Post (b ∷ rest) h =
      Post-ok_or IsInhabited (SubackCode.from_u8 b) _ _
        λ code. Post-step IsInhabited (suback_codes rest) _ λ codes. tt

  -- More than two bytes leave one after them.
  tail-IsInhabited :
      (xs : Bytes) → ltb (length xs) 3 ≡ false → Post IsInhabited (slice xs 2 (length xs))
  tail-IsInhabited [] h = absurd (ground arith)
  tail-IsInhabited (a ∷ []) h = absurd (ground arith)
  tail-IsInhabited (a ∷ b ∷ []) h = absurd (ground arith)
  tail-IsInhabited (a ∷ b ∷ c ∷ rest) h =
      rw (slice_to_end (a ∷ b ∷ c ∷ rest) 2 (c ∷ rest) refl (omega arith)) tt

  pub parse_suback-Post : Post (IsTyped valid_utf8) (parse_suback body)
  unfolding parse_suback
  parse_suback-Post = Post-check (IsTyped valid_utf8) (ltb (length body) 3) _ _ λ long.
      first_two _ λ a b p.
        Post-bind IsInhabited (IsTyped valid_utf8) _ _ (tail-IsInhabited body long) λ tail h.
          Post-bind IsInhabited (IsTyped valid_utf8) _ _ (suback_codes-Post tail h)
            λ codes i. (p, i)

  -- A will, with the typed will of the packet.
  read_will-Post :
      (flags cursor : ℕ)
      → Post (λ x. IsWill valid_utf8 x.0) (read_will valid_utf8 flags body cursor)
  unfolding read_will
  read_will-Post flags cursor =
      let Q : WillPacket × ℕ → Type 0 = λ x. IsWill valid_utf8 x.0 in
      Post-bind (λ x. IsStr valid_utf8 x.0) Q _ _ (read_arc_str-Post body typed valid_utf8 cursor)
        λ (topic, c1) t.
          Post-bind (λ x. IsField body typed x.0) Q _ _ (read_bytes-Post body typed c1)
            λ (payload, c2) (p, fits).
              Post-ok_or Q (from_u8 (low_bits (shr flags 3) 2)) _ _ λ qos. (t, fits)

  read_if-IsStr-Post :
      (b : Bool) (cursor : ℕ)
      → Post
          (λ x. Asked b (IsStr valid_utf8) x.0)
          (read_if b (read_arc_str valid_utf8 body cursor) cursor)
  read_if-IsStr-Post b cursor =
      read_if-Post (IsStr valid_utf8) b _ cursor (read_arc_str-Post body typed valid_utf8 cursor)

  parse_connect_payload-Post :
      (flags keep_alive : ℕ)
      → IsU16 keep_alive
      → Post (IsTyped valid_utf8) (parse_connect_payload valid_utf8 flags keep_alive body)
  unfolding parse_connect_payload
  parse_connect_payload-Post flags keep_alive k =
      let Q = IsTyped valid_utf8 in
      Post-bind (λ x. IsStr valid_utf8 x.0) Q _ _ (read_arc_str-Post body typed valid_utf8 10)
        λ (id, c1) p1.
          Post-bind (λ x. Asked (has_bit flags 2) (IsWill valid_utf8) x.0) Q _ _
            (read_if-Post (IsWill valid_utf8) (has_bit flags 2) _ c1 (read_will-Post flags c1))
            λ (will, c2) p2.
              Post-bind (λ x. Asked (has_bit flags 7) (IsStr valid_utf8) x.0) Q _ _
                (read_if-IsStr-Post (has_bit flags 7) c2)
                λ (user, c3) p3.
                  Post-bind (λ x. Asked (has_bit flags 6) Fits x.0) Q _ _
                    (read_if-Post Fits (has_bit flags 6) _ c3 (
                      Post-weaken (λ x. IsField body typed x.0) (λ x. Fits x.0) _
                        (read_bytes-Post body typed c3) λ x p. p.1))
                    λ (pass, c4) p4. record {
                      id_str = p1;
                      alive_u16 = k;
                      will_ok = Asked-Maybe (has_bit flags 2) (IsWill valid_utf8) will p2;
                      user_ok = Asked-Maybe (has_bit flags 7) (IsStr valid_utf8) user p3;
                      pass_ok = Asked-Maybe (has_bit flags 6) Fits pass p4;
                    }

  pub parse_connect-Post : Post (IsTyped valid_utf8) (parse_connect valid_utf8 body)
  unfolding parse_connect
  parse_connect-Post =
      let Q = IsTyped valid_utf8 in
      Post-check Q (ltb (length body) 10) _ _ λ _. first_two _ λ a b _.
        Post-step Q (slice body 2 6) _ λ name.
          Post-check Q (not (from_be_bytes a b == 4) || not (str_eq name mqtt_name)) _ _ λ _.
            Post-step Q (index body 6) _ λ level. Post-check Q (not (level == 4)) _ _ λ _.
              Post-step Q (index body 7) _ λ flags.
                Post-bind IsByte Q _ _ (index-Post body typed 8) λ b8 p.
                  Post-bind IsByte Q _ _ (index-Post body typed 9) λ b9 q.
                    parse_connect_payload-Post flags (from_be_bytes b8 b9)
                      (be_bytes-IsU16 b8 b9 p q)

  pub parse_publish-Post :
      (first : ℕ) → Post (IsTyped valid_utf8) (parse_publish valid_utf8 first body)
  unfolding parse_publish
  parse_publish-Post first =
      let Q = IsTyped valid_utf8 in
      Post-check Q (ltb (length body) 2) _ _ λ _.
        Post-check Q (not (shr (low_bits first 4) 4 == 0)) _ _ λ _.
          Post-ok_or Q (from_u8 (low_bits (shr (low_bits first 4) 1) 2)) _ _ λ qos.
            Post-bind (λ x. IsStr valid_utf8 x.0) Q _ _ (read_arc_str-Post body typed valid_utf8 0)
              λ (topic, c1) t.
                Post-bind (λ x. Asked (not (Qos.eq qos at_most_once)) IsU16 x.0) Q _ _
                  (read_if-Post IsU16 (not (Qos.eq qos at_most_once)) _ c1 (
                    Post-weaken (λ x. IsU16 x.0 × (x.1 ≡ c1 + 2)) (λ x. IsU16 x.0) _
                      (read_u16-Post body typed c1) λ x p. p.0))
                  λ (id, c2) i.
                    Post-bind (IsSlice body typed (length body - c2)) Q
                      (slice body c2 (length body)) _ (slice-Post body typed c2 (length body))
                      λ payload (p, _). (t, Asked-HasId qos id i, p)
