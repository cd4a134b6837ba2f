-- ===== src/Codec/Decode/Lists.antt =====
-- The parsers of the packets that hold a list, on the bodies that their encoders write.
use hotaru_mqtt.Base.{
  ℕ, zero, suc, ◌+◌, ◌-◌, ◌≤◌, ◌<◌, ◌≡◌, refl, sym, ap, ◌∙◌, List, [], ◌∷◌, ◌++◌, append-nil,
  append_assoc, Bool, arith, lt→ltb, le→ltb, length, length-append, length-drop, drop, All, Bytes,
  IsU16, to_be_bytes, u8, shr, from_be_bytes-to_be_bytes, ok,
}
use hotaru_mqtt.Request.Qos
use hotaru_mqtt.Request.SubackCode
use hotaru_mqtt.Request.SubackCode.{SubackCode}
use hotaru_mqtt.Packet.{Packet, TopicSubscription, SubscribePacket, SubackPacket, UnsubscribePacket}
use hotaru_mqtt.Codec.Primitives.{write_arc_str, prefixed}
use hotaru_mqtt.Codec.Primitives.RoundTrip.{
  drop-cons, index-cons, slice_to_end, read_u16-to_be_bytes, read_arc_str-prefixed,
}
use hotaru_mqtt.Codec.Encode.{write_subscriptions, write_codes, write_topics}
use hotaru_mqtt.Codec.Decode.{
  suback_codes, parse_suback, read_subscription, subscription_loop, parse_subscribe, topic_loop,
  parse_unsubscribe,
}
use hotaru_mqtt.Codec.WellFormed.{IsStr, IsInhabited}

-- At the end of a body no byte is left.
drop-eq-nil : (c : ℕ) (body : Bytes) → drop c body ≡ [] → length body ≤ c
drop-eq-nil c body h = omega (arith, length-drop c body, ap length h)

drop-eq-cons : (c x : ℕ) (body rest : Bytes) → drop c body ≡ x ∷ rest → c < length body
drop-eq-cons c x body rest h = (drop-cons body c x rest h).2

subscription_bytes : List TopicSubscription → Bytes
subscription_bytes [] = []
subscription_bytes (s ∷ rest) = prefixed s.topic ++ (Qos.as_u8 s.qos ∷ subscription_bytes rest)

write_subscriptions-append :
    (out : Bytes) (l : List TopicSubscription)
    → write_subscriptions out l ≡ out ++ subscription_bytes l
unfolding write_subscriptions subscription_bytes write_arc_str
write_subscriptions-append out [] = sym (append-nil out)
write_subscriptions-append out (s ∷ rest) =
    write_subscriptions-append (write_arc_str out s.topic ++ (Qos.as_u8 s.qos ∷ [])) rest
    ∙ simp append_assoc

topic_bytes : List Bytes → Bytes
topic_bytes [] = []
topic_bytes (t ∷ rest) = prefixed t ++ topic_bytes rest

write_topics-append : (out : Bytes) (l : List Bytes) → write_topics out l ≡ out ++ topic_bytes l
unfolding write_topics topic_bytes write_arc_str
write_topics-append out [] = sym (append-nil out)
write_topics-append out (t ∷ rest) =
    write_topics-append (write_arc_str out t) rest ∙ append_assoc out (prefixed t) _

code_bytes : List SubackCode → Bytes
code_bytes [] = []
code_bytes (c ∷ rest) = SubackCode.as_u8 c ∷ code_bytes rest

write_codes-append : (out : Bytes) (l : List SubackCode) → write_codes out l ≡ out ++ code_bytes l
unfolding write_codes code_bytes
write_codes-append out [] = sym (append-nil out)
write_codes-append out (c ∷ rest) =
    write_codes-append (out ++ (SubackCode.as_u8 c ∷ [])) rest ∙ append_assoc out _ _

suback_codes-code_bytes : (l : List SubackCode) → suback_codes (code_bytes l) ≡ ok l
unfolding suback_codes code_bytes
suback_codes-code_bytes [] = refl
suback_codes-code_bytes (c ∷ rest) = rw (SubackCode.from_u8-as_u8 c, suback_codes-code_bytes rest)

module _ (valid_utf8 : Bytes → Bool) where
  read_subscription_lem :
      (body : Bytes) (c : ℕ) (s : TopicSubscription) (rest : Bytes)
      → drop c body ≡ prefixed s.topic ++ (Qos.as_u8 s.qos ∷ rest)
      → IsStr valid_utf8 s.topic
      → (next : ℕ) × (read_subscription valid_utf8 body c ≡ ok (s, next))
        × (drop next body ≡ rest)
        × (c < next)
        × (next ≤ length body)
  unfolding read_subscription
  read_subscription_lem body c s rest h v =
      let (found, after, size) = read_arc_str-prefixed body c s.topic _ h v.1 valid_utf8 v.0 in
      let c1 = c + 2 + length s.topic in
      let (_, after1, below) = drop-cons body c1 (Qos.as_u8 s.qos) rest after in
      (
        c1 + 1,
        rw (
          found,
          lt→ltb c1 (length body) below,
          index-cons body c1 (Qos.as_u8 s.qos) rest after,
          Qos.from_u8-as_u8 s.qos,
        ),
        after1,
        omega arith,
        omega arith,
      )

  subscription_loop_lem :
      (l : List TopicSubscription) (fuel : ℕ) (body : Bytes) (c : ℕ) (out : List TopicSubscription)
      → drop c body ≡ subscription_bytes l
      → All (λ t. IsStr valid_utf8 t.topic) l
      → length body - c < fuel
      → subscription_loop valid_utf8 fuel body c out ≡ ok (out ++ l)
  unfolding subscription_loop subscription_bytes
  subscription_loop_lem l zero body c out h v hf = absurd (omega arith)
  subscription_loop_lem [] (suc fuel) body c out h v hf =
      rw (le→ltb c (length body) (drop-eq-nil c body h), append-nil)
  subscription_loop_lem (s ∷ l) (suc fuel) body c out h v hf =
      let (next, found, after, more, size) =
        read_subscription_lem body c s (subscription_bytes l) h v.0 in
      rw (lt→ltb c (length body) (omega arith), found)
        (subscription_loop_lem l fuel body next (out ++ (s ∷ [])) after v.1 (omega arith)
          ∙ ap ok (append_assoc out (s ∷ []) l))

  topic_loop_lem :
      (l : List Bytes) (fuel : ℕ) (body : Bytes) (c : ℕ) (out : List Bytes)
      → drop c body ≡ topic_bytes l
      → All (IsStr valid_utf8) l
      → length body - c < fuel
      → topic_loop valid_utf8 fuel body c out ≡ ok (out ++ l)
  unfolding topic_loop topic_bytes
  topic_loop_lem l zero body c out h v hf = absurd (omega arith)
  topic_loop_lem [] (suc fuel) body c out h v hf =
      rw (le→ltb c (length body) (drop-eq-nil c body h), append-nil)
  topic_loop_lem (t ∷ l) (suc fuel) body c out h v hf =
      let (found, after, size) =
        read_arc_str-prefixed body c t (topic_bytes l) h v.0.1 valid_utf8 v.0.0 in
      rw (lt→ltb c (length body) (omega arith), found)
        (topic_loop_lem l fuel body (c + 2 + length t) (out ++ (t ∷ [])) after v.1 (omega arith)
          ∙ ap ok (append_assoc out (t ∷ []) l))

  -- The length checks before the loops pass on a packet with an entry.
  pub parse_subscribe-write_subscriptions :
      (s : SubscribePacket)
      → IsU16 s.packet_id
      → All (λ t. IsStr valid_utf8 t.topic) s.subscriptions
      → IsInhabited s.subscriptions
      → parse_subscribe valid_utf8 (write_subscriptions (to_be_bytes s.packet_id) s.subscriptions)
        ≡ ok (Packet.subscribe s)
  unfolding parse_subscribe
  parse_subscribe-write_subscriptions s hid v hl =
      let body = to_be_bytes s.packet_id ++ subscription_bytes s.subscriptions in
      let (found, after, size) = read_u16-to_be_bytes body 0 s.packet_id _ refl hid in
      rw (
        write_subscriptions-append,
        le→ltb (length body) 5 (long s.subscriptions hl),
        found,
        subscription_loop_lem s.subscriptions (length body) body 2 [] refl v (omega arith),
      )
    where
      long :
          (l : List TopicSubscription)
          → IsInhabited l
          → 5 ≤ length (to_be_bytes s.packet_id ++ subscription_bytes l)
      long [] h = absurd h
      long (t ∷ l) h =
          unfold subscription_bytes in
          omega (arith, length-append t.topic (Qos.as_u8 t.qos ∷ subscription_bytes l))

  pub parse_unsubscribe-write_topics :
      (u : UnsubscribePacket)
      → IsU16 u.packet_id
      → All (IsStr valid_utf8) u.topics
      → IsInhabited u.topics
      → parse_unsubscribe valid_utf8 (write_topics (to_be_bytes u.packet_id) u.topics)
        ≡ ok (Packet.unsubscribe u)
  unfolding parse_unsubscribe
  parse_unsubscribe-write_topics u hid v hl =
      let body = to_be_bytes u.packet_id ++ topic_bytes u.topics in
      let (found, after, size) = read_u16-to_be_bytes body 0 u.packet_id _ refl hid in
      rw (
        write_topics-append,
        le→ltb (length body) 4 (long u.topics hl),
        found,
        topic_loop_lem u.topics (length body) body 2 [] refl v (omega arith),
      )
    where
      long :
          (l : List Bytes) → IsInhabited l → 4 ≤ length (to_be_bytes u.packet_id ++ topic_bytes l)
      long [] h = absurd h
      long (t ∷ l) h = unfold topic_bytes in omega (arith, length-append t (topic_bytes l))

pub parse_suback-write_codes :
    (s : SubackPacket)
    → IsU16 s.packet_id
    → IsInhabited s.return_codes
    → parse_suback (write_codes (to_be_bytes s.packet_id) s.return_codes) ≡ ok (Packet.suback s)
unfolding parse_suback
parse_suback-write_codes s hid hl =
    let codes = code_bytes s.return_codes in
    let body = to_be_bytes s.packet_id ++ codes in
    let hi = u8 (shr s.packet_id 8) in
    let lo = u8 s.packet_id in
    rw (
      write_codes-append,
      le→ltb (length body) 3 (long s.return_codes hl),
      index-cons body 0 hi (lo ∷ codes) refl,
      index-cons body 1 lo codes refl,
      slice_to_end body 2 codes refl (omega arith),
      suback_codes-code_bytes,
      from_be_bytes-to_be_bytes s.packet_id hid,
    )
  where
    long :
        (l : List SubackCode) → IsInhabited l → 3 ≤ length (to_be_bytes s.packet_id ++ code_bytes l)
    long [] h = absurd h
    long (c ∷ l) h = unfold code_bytes in omega arith
