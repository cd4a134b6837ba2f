-- ===== src/Codec/Decode/Safety.antt =====
-- codec/decode.rs on any body: indexing and fuel.
use hotaru_mqtt.Base.{
  ℕ, zero, suc, ◌-◌, ◌≤◌, ◌<◌, ◌≡◌, ◌≢◌, List, [], ◌∷◌, ◌++◌, Bool, true, false, not, ◌||◌, Option,
  inl, inr, arith, ltb, ◌==◌, ltb→le, ltb→lt, Bool-cases, length, Bytes, shr, low_bits,
  from_be_bytes, str_eq, Safe, Safe-bind, Safe-ne-panic, ◌>>=◌, panic, Outcome,
}
use hotaru_mqtt.Error.{MqttError}
use hotaru_mqtt.Request.Qos.{from_u8, eq, at_most_once}
use hotaru_mqtt.Request.SubackCode
use hotaru_mqtt.Packet.{Packet, TopicSubscription, WillPacket}
use hotaru_mqtt.Packet.PacketType.{PacketType}
use hotaru_mqtt.Packet.ConnackReturnCode
use hotaru_mqtt.Codec.Primitives.{index}
use hotaru_mqtt.Codec.Primitives.Bounds.{
  Safe-check, Safe-ok_or, Safe-step, index-Safe, slice-Safe, Advances, read_u16-Safe,
  read_bytes-Safe, read_arc_str-Safe,
}
use hotaru_mqtt.Codec.Decode.{
  mqtt_name, require_empty_body, read_if, parse_connack, expected_flags, parse_ack_packet,
  suback_codes, parse_suback, parse_unsuback, read_will, parse_connect_payload, parse_connect,
  parse_publish, read_subscription, subscription_loop, parse_subscribe, topic_loop,
  parse_unsubscribe, parse_packet,
}

abbrev Any : Packet → Type 0
Any p = Unit {0}

-- Two leading bytes of a body that has them.
first_two :
    (body : Bytes) (f : ℕ → ℕ → Outcome MqttError Packet)
    → 2 ≤ length body
    → ((a b : ℕ) → Safe Any (f a b))
    → Safe Any (index body 0 >>= λ a. index body 1 >>= λ b. f a b)
first_two body f h k =
    Safe-step Any _ _ (index-Safe body 0 (omega arith))
      λ a. Safe-step Any _ _ (index-Safe body 1 (omega arith)) λ b. k a b

parse_connack-Safe : (body : Bytes) → Safe Any (parse_connack body)
unfolding parse_connack
parse_connack-Safe body = Safe-check Any (ltb (length body) 2) _ _ λ q.
    first_two body _ (ltb→le (length body) 2 q)
      λ a b. Safe-ok_or Any (ConnackReturnCode.try_from b) _ _ λ code. tt

not-eq : (a b : ℕ) → not (a == b) ≡ false → a ≡ b
not-eq a b h = ground arith

parse_ack_packet-Safe :
    (first : ℕ) (t : PacketType) (body : Bytes)
    → Safe Any (parse_ack_packet first t (length body) body)
unfolding parse_ack_packet
parse_ack_packet-Safe first t body = Safe-check Any (not (length body == 2)) _ _ λ q.
    Safe-check Any (not (low_bits first 4 == expected_flags t)) _ _
      λ _. first_two body _ (omega (arith, not-eq (length body) 2 q)) λ a b. tt

parse_unsuback-Safe : (body : Bytes) → Safe Any (parse_unsuback (length body) body)
unfolding parse_unsuback
parse_unsuback-Safe body =
    Safe-check Any (not (length body == 2)) _ _
      λ q. first_two body _ (omega (arith, not-eq (length body) 2 q)) λ a b. tt

suback_codes-Safe : (tail : Bytes) → Safe (λ _. Unit {0}) (suback_codes tail)
unfolding suback_codes
suback_codes-Safe [] = tt
suback_codes-Safe (b ∷ rest) =
    Safe-ok_or (λ _. Unit {0}) (SubackCode.from_u8 b) _ _
      λ code. Safe-step (λ _. Unit {0}) _ _ (suback_codes-Safe rest) λ codes. tt

parse_suback-Safe : (body : Bytes) → Safe Any (parse_suback body)
unfolding parse_suback
parse_suback-Safe body = Safe-check Any (ltb (length body) 3) _ _ λ q.
    let size = ltb→le (length body) 3 q in
    first_two body _ (omega arith) λ a b.
      Safe-step Any _ _ (slice-Safe body 2 (length body) (omega arith) (omega arith))
        λ tail. Safe-step Any _ _ (suback_codes-Safe tail) λ codes. tt

read_if-Safe {ℓ} :
    {A : Type ℓ} (b : Bool) (r : Outcome MqttError (A × ℕ)) (body : Bytes) (c : ℕ)
    → c ≤ length body
    → Safe (Advances body c 0) r
    → Safe (Advances body c 0) (read_if b r c)
unfolding read_if
read_if-Safe {A} true r body c h s =
    Safe-bind (Advances {A = A} body c 0) (Advances {A = Option A} body c 0) r _ s λ a p. p
read_if-Safe false r body c h s = (omega arith, h)

-- A bound on the bytes taken may be given up.
Advances-weaken {ℓ} :
    {A : Type ℓ} (body : Bytes) (c : ℕ) (m : Outcome MqttError (A × ℕ))
    → Safe (Advances body c 2) m
    → Safe (Advances body c 0) m
Advances-weaken {A} body c (Outcome.ok (a, c')) h = (omega arith, h.1)
Advances-weaken body c (Outcome.err e) h = tt
Advances-weaken body c Outcome.panic h = absurd h

module _ (valid_utf8 : Bytes → Bool) where
  read_will-Safe :
      (flags : ℕ) (body : Bytes) (c : ℕ)
      → Safe (Advances body c 0) (read_will valid_utf8 flags body c)
  unfolding read_will
  read_will-Safe flags body c =
      let Q = Advances {A = WillPacket} body c 0 in
      Safe-bind (Advances {A = Bytes} body c 2) Q _ _ (read_arc_str-Safe valid_utf8 body c)
        λ (t, c1) p.
          Safe-bind (Advances {A = Bytes} body c1 2) Q _ _ (read_bytes-Safe body c1) λ (w, c2) q.
            Safe-ok_or Q (from_u8 (low_bits (shr flags 3) 2)) _ _ λ qos. (omega arith, q.1)

  parse_connect_payload-Safe :
      (flags keep_alive : ℕ) (body : Bytes)
      → Safe Any (parse_connect_payload valid_utf8 flags keep_alive body)
  unfolding parse_connect_payload
  parse_connect_payload-Safe flags keep_alive body =
      Safe-bind (Advances {A = Bytes} body 10 2) Any _ _ (read_arc_str-Safe valid_utf8 body 10)
        λ (id, c1) p1.
          Safe-bind (Advances {A = Option WillPacket} body c1 0) Any _ _
            (read_if-Safe _ _ body c1 p1.1 (read_will-Safe flags body c1))
            λ (will, c2) p2.
              Safe-bind (Advances {A = Option Bytes} body c2 0) Any _ _
                (read_if-Safe _ _ body c2 p2.1
                  (Advances-weaken body c2 _ (read_arc_str-Safe valid_utf8 body c2)))
                λ (user, c3) p3.
                  Safe-bind (Advances {A = Option Bytes} body c3 0) Any _ _
                    (read_if-Safe _ _ body c3 p3.1
                      (Advances-weaken body c3 _ (read_bytes-Safe body c3)))
                    λ (pass, c4) p4. tt

  parse_connect-Safe : (body : Bytes) → Safe Any (parse_connect valid_utf8 body)
  unfolding parse_connect
  parse_connect-Safe body = Safe-check Any (ltb (length body) 10) _ _ λ q.
      let size = ltb→le (length body) 10 q in
      first_two body _ (omega arith) λ a b.
        Safe-step Any _ _ (slice-Safe body 2 6 (omega arith) (omega arith)) λ name.
          Safe-check Any (not (from_be_bytes a b == 4) || not (str_eq name mqtt_name)) _ _ λ _.
            Safe-step Any _ _ (index-Safe body 6 (omega arith)) λ level.
              Safe-check Any (not (level == 4)) _ _ λ _.
                Safe-step Any _ _ (index-Safe body 7 (omega arith)) λ flags.
                  Safe-step Any _ _ (index-Safe body 8 (omega arith)) λ b8.
                    Safe-step Any _ _ (index-Safe body 9 (omega arith))
                      λ b9. parse_connect_payload-Safe flags (from_be_bytes b8 b9) body

  parse_publish-Safe : (first : ℕ) (body : Bytes) → Safe Any (parse_publish valid_utf8 first body)
  unfolding parse_publish
  parse_publish-Safe first body = Safe-check Any (ltb (length body) 2) _ _ λ _.
      Safe-check Any (not (shr (low_bits first 4) 4 == 0)) _ _ λ _.
        Safe-ok_or Any (from_u8 (low_bits (shr (low_bits first 4) 1) 2)) _ _ λ qos.
          Safe-bind (Advances {A = Bytes} body 0 2) Any _ _ (read_arc_str-Safe valid_utf8 body 0)
            λ (topic, c1) p1.
              Safe-bind (Advances {A = Option ℕ} body c1 0) Any _ _
                (read_if-Safe (not (eq qos at_most_once)) _ body c1 p1.1
                  (Advances-weaken body c1 _ (read_u16-Safe body c1)))
                λ (id, c2) p2.
                  Safe-step Any _ _ (slice-Safe body c2 (length body) p2.1 (omega arith))
                    λ payload. tt

  read_subscription-Safe :
      (body : Bytes) (c : ℕ) → Safe (Advances body c 1) (read_subscription valid_utf8 body c)
  unfolding read_subscription
  read_subscription-Safe body c =
      let Q = Advances {A = TopicSubscription} body c 1 in
      Safe-bind (Advances {A = Bytes} body c 2) Q _ _ (read_arc_str-Safe valid_utf8 body c)
        λ (t, c1) p. Safe-check Q (not (ltb c1 (length body))) _ _ λ q.
          let below : c1 < length body = ground arith in
          Safe-step Q _ _ (index-Safe body c1 below)
            λ qos_bits. Safe-ok_or Q (from_u8 qos_bits) _ _ λ qos. (omega arith, omega arith)

  subscription_loop-Safe :
      (fuel : ℕ) (body : Bytes) (c : ℕ) (out : List TopicSubscription)
      → length body - c < fuel
      → Safe (λ _. Unit {0}) (subscription_loop valid_utf8 fuel body c out)
  unfolding subscription_loop
  subscription_loop-Safe zero body c out h = absurd (omega arith)
  subscription_loop-Safe (suc fuel) body c out h = elim (Bool-cases (ltb c (length body))) [
    | inl more ↦ rw more (
        Safe-bind (Advances {A = TopicSubscription} body c 1) (λ _. Unit {0}) _ _
          (read_subscription-Safe body c)
          λ (s, next) p.
            subscription_loop-Safe fuel body next (out ++ (s ∷ []))
              (omega (arith, ltb→lt c (length body) more)))
    | inr done ↦ rw done tt
  ]

  parse_subscribe-Safe : (body : Bytes) → Safe Any (parse_subscribe valid_utf8 body)
  unfolding parse_subscribe
  parse_subscribe-Safe body = Safe-check Any (ltb (length body) 5) _ _ λ q.
      let size = ltb→le (length body) 5 q in
      Safe-bind (Advances {A = ℕ} body 0 2) Any _ _ (read_u16-Safe body 0) λ (id, c1) p.
        Safe-step Any _ _ (subscription_loop-Safe (length body) body c1 [] (omega arith)) λ subs. tt

  topic_loop-Safe :
      (fuel : ℕ) (body : Bytes) (c : ℕ) (out : List Bytes)
      → length body - c < fuel
      → Safe (λ _. Unit {0}) (topic_loop valid_utf8 fuel body c out)
  unfolding topic_loop
  topic_loop-Safe zero body c out h = absurd (omega arith)
  topic_loop-Safe (suc fuel) body c out h = elim (Bool-cases (ltb c (length body))) [
    | inl more ↦ rw more (
        Safe-bind (Advances {A = Bytes} body c 2) (λ _. Unit {0}) _ _
          (read_arc_str-Safe valid_utf8 body c)
          λ (t, next) p.
            topic_loop-Safe fuel body next (out ++ (t ∷ []))
              (omega (arith, ltb→lt c (length body) more)))
    | inr done ↦ rw done tt
  ]

  parse_unsubscribe-Safe : (body : Bytes) → Safe Any (parse_unsubscribe valid_utf8 body)
  unfolding parse_unsubscribe
  parse_unsubscribe-Safe body = Safe-check Any (ltb (length body) 4) _ _ λ q.
      let size = ltb→le (length body) 4 q in
      Safe-bind (Advances {A = ℕ} body 0 2) Any _ _ (read_u16-Safe body 0) λ (id, c1) p.
        Safe-step Any _ _ (topic_loop-Safe (length body) body c1 [] (omega arith)) λ topics. tt

  empty_body-Safe : (n : ℕ) (p : Packet) → Safe Any (require_empty_body n >>= λ _. Outcome.ok p)
  unfolding require_empty_body
  empty_body-Safe n p = Safe-check Any (not (n == 0)) _ _ λ _. tt

  pub parse_packet-Safe :
      (first : ℕ) (t : PacketType) (body : Bytes)
      → Safe Any (parse_packet valid_utf8 first t (length body) body)
  unfolding parse_packet
  parse_packet-Safe first PacketType.connect body = parse_connect-Safe body
  parse_packet-Safe first PacketType.connack body = parse_connack-Safe body
  parse_packet-Safe first PacketType.publish body = parse_publish-Safe first body
  parse_packet-Safe first PacketType.puback body =
      parse_ack_packet-Safe first PacketType.puback body
  parse_packet-Safe first PacketType.pubrec body =
      parse_ack_packet-Safe first PacketType.pubrec body
  parse_packet-Safe first PacketType.pubrel body =
      parse_ack_packet-Safe first PacketType.pubrel body
  parse_packet-Safe first PacketType.pubcomp body =
      parse_ack_packet-Safe first PacketType.pubcomp body
  parse_packet-Safe first PacketType.subscribe body = parse_subscribe-Safe body
  parse_packet-Safe first PacketType.suback body = parse_suback-Safe body
  parse_packet-Safe first PacketType.unsubscribe body = parse_unsubscribe-Safe body
  parse_packet-Safe first PacketType.unsuback body = parse_unsuback-Safe body
  parse_packet-Safe first PacketType.pingreq body = empty_body-Safe (length body) Packet.pingreq
  parse_packet-Safe first PacketType.pingresp body = empty_body-Safe (length body) Packet.pingresp
  parse_packet-Safe first PacketType.disconnect body =
      empty_body-Safe (length body) Packet.disconnect

  -- No parser panics on any body, whatever the type and the flags of its fixed header.
  pub parse_packet-ne-panic :
      (first : ℕ) (t : PacketType) (body : Bytes)
      → parse_packet valid_utf8 first t (length body) body ≢ panic
  parse_packet-ne-panic first t body = Safe-ne-panic Any _ (parse_packet-Safe first t body)
