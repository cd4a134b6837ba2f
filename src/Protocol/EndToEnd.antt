-- ===== src/Protocol/EndToEnd.antt =====
-- broker.rs, channel.rs, codec and protocol/client.rs: a PUBLISH from the broker's fan-out over the
-- writer and the reader to the endpoints of a subscriber.
use hotaru_mqtt.Base.{
  ℕ, ◌+◌, ◌≡◌, ◌≤◌, refl, ap, ◌∙◌, List, [], ◌∷◌, ◌++◌, Bool, true, false, Option, none, some, inl,
  inr, ◌==◌, ==_iff, Bool-cases, Option-cases, All, Bytes, length, str_eq, arith, ok,
}
use hotaru_mqtt.Request.Qos.{Qos, at_most_once, at_least_once, exactly_once, as_u8, eq}
use hotaru_mqtt.Packet.{Packet, PublishPacket, mqtt_spec_max_packet_size}
use hotaru_mqtt.Topic.Split.{split}
use hotaru_mqtt.DashMap.{get, str_key}
use hotaru_mqtt.Channel.{MqttChannel, WriteCmd, send_publish, writer_step}
use hotaru_mqtt.Channel.Sending.{packet_accepted}
use hotaru_mqtt.Channel.Wire.{IsCarried, one_written}
use hotaru_mqtt.Codec.WellFormed.{IsStr, IdMatches, body_of}
use hotaru_mqtt.Codec.Frame.{read_packet, id_len}
use hotaru_mqtt.Codec.Agreement.{length-publish_body}
use hotaru_mqtt.Client.{MqttClientConfig}
use hotaru_mqtt.Action.{and_then, pure, modify, ◌>>◌}
use hotaru_mqtt.Broker.{
  BrokerInner, ConnectionId, deliver, matching, publish_one, publish_loop, publish,
  incoming_from_packet,
}
use hotaru_mqtt.Broker.Fanout.{IdFits, IsCopy, IsCopyCmd, served_in, publish_lem}
use hotaru_mqtt.Protocol.{ack_inbound_publish_pre_chain}
use hotaru_mqtt.Protocol.Client.{
  Client, put, spawn_all, dispatch_client_inbound, dispatch_inbound_to_endpoints,
}

-- The fan-out writes nothing.
deliver-wire : (p : PublishPacket) (q : Qos) (ch : MqttChannel) → (deliver p q ch).wire ≡ ch.wire
unfolding deliver send_publish
deliver-wire p q ch = elim (Bool-cases ch.writer_alive) [ inl e ↦ rw e refl | inr e ↦ rw e refl ]

publish_one-wire :
    (source : Bytes) (p : PublishPacket) (sub_id : Bytes) (q : Qos) (st : BrokerInner)
    (c : ConnectionId)
    → ((publish_one source p sub_id q st).channels c).wire ≡ (st.channels c).wire
unfolding publish_one
publish_one-wire source p sub_id q st c = elim (Bool-cases (str_eq sub_id source)) [
  | inl e ↦ rw e refl
  | inr n ↦ elim (Option-cases (get sub_id st.sessions)) [
    | inl e ↦ rw (n, e) refl
    | inr (entry, e) ↦ elim (Bool-cases (entry.connection_id == c)) [
      | inl at ↦
          let same : entry.connection_id ≡ c = (==_iff entry.connection_id c).0 at in
          rw (n, e, at)
            (deliver-wire p q (st.channels entry.connection_id)
              ∙ ap (λ d. (st.channels d).wire) same)
      | inr other ↦ rw (n, e, other) refl
    ]
  ]
]

publish_loop-wire :
    (source : Bytes) (p : PublishPacket) (subs : List (Bytes × Qos)) (st : BrokerInner)
    (c : ConnectionId)
    → ((publish_loop source p subs st).channels c).wire ≡ (st.channels c).wire
unfolding publish_loop
publish_loop-wire source p [] st c = refl
publish_loop-wire source p ((sub_id, q) ∷ rest) st c =
    publish_loop-wire source p rest (publish_one source p sub_id q st) c
    ∙ publish_one-wire source p sub_id q st c

publish-wire :
    (source : Bytes) (p : PublishPacket) (st : BrokerInner) (c : ConnectionId)
    → ((publish source p st).channels c).wire ≡ (st.channels c).wire
unfolding publish
publish-wire source p st c =
    publish_loop-wire source p (matching (split p.topic) st.subscriptions) st c

-- A queue of one copy.
one-IsCopy :
    (p : PublishPacket) (sent : List WriteCmd)
    → All (IsCopyCmd p) sent
    → length sent ≡ 1
    → (out : PublishPacket) × IsCopy p out × (sent ≡ WriteCmd.publish out ∷ [])
one-IsCopy p [] copies n = absurd (omega arith)
one-IsCopy p (WriteCmd.publish out ∷ []) (copy, rest) n = (out, copy, refl)
one-IsCopy p (WriteCmd.packet q ∷ []) (copy, rest) n = absurd copy
one-IsCopy p (WriteCmd.flush ∷ []) (copy, rest) n = absurd copy
one-IsCopy p (WriteCmd.shutdown ∷ []) (copy, rest) n = absurd copy
one-IsCopy p (a ∷ b ∷ sent) copies n = absurd (omega arith)

IdFits-IdMatches : (q : Qos) (id : Option ℕ) → IdFits q id → IdMatches q id
IdFits-IdMatches at_most_once none h = tt
IdFits-IdMatches at_most_once (some id) (h, lo, hi) = h refl
IdFits-IdMatches at_least_once none h = absurd (ground arith)
IdFits-IdMatches at_least_once (some id) (h, lo, hi) = (omega arith, hi)
IdFits-IdMatches exactly_once none h = absurd (ground arith)
IdFits-IdMatches exactly_once (some id) (h, lo, hi) = (omega arith, hi)

id_len-le : (id : Option ℕ) → id_len id ≤ 2
unfolding id_len
id_len-le none = omega arith
id_len-le (some id) = omega arith

module _ (valid_utf8 : Bytes → Bool) (max_size : ℕ) (p out : PublishPacket)
    (copy : IsCopy p out) where
  copy-IsCarried :
      IsStr valid_utf8 p.topic
      → 4 + length p.topic + length p.payload ≤ max_size
      → 4 + length p.topic + length p.payload ≤ mqtt_spec_max_packet_size
      → IsCarried valid_utf8 max_size (Packet.publish out)
  unfolding body_of
  copy-IsCarried str within spec =
      let (topic, payload, dup, retain, qos, fits) = copy in
      let str' : IsStr valid_utf8 out.topic = rw topic str in
      let t : length out.topic ≡ length p.topic = ap length topic in
      let l : length out.payload ≡ length p.payload = ap length payload in
      let size = length-publish_body out out.packet_id in
      let few = id_len-le out.packet_id in
      ((str', IdFits-IdMatches out.qos out.packet_id fits), omega arith, omega arith)

module _ {Node H : Type 0} (walk : Bytes → List Node) (config : MqttClientConfig H) where
  spawned_for :
      (q : Qos) (id : Option ℕ) (p : PublishPacket) (cl : Client Node H)
      → cl.channel.writer_alive ≡ true
      → as_u8 q ≤ 1
      → let out = record p { qos = q; packet_id = id } in
        (dispatch_client_inbound walk config (Packet.publish out) cl).0.spawned
        ≡ cl.spawned ++ spawn_all (walk p.topic) config.default_inbound (incoming_from_packet out)
  unfolding dispatch_client_inbound ack_inbound_publish_pre_chain dispatch_inbound_to_endpoints eq
      as_u8
  spawned_for at_most_once id p cl alive low = refl
  spawned_for at_least_once none p cl alive low = refl
  spawned_for at_least_once (some id) p cl alive low =
      let out = record p { qos = at_least_once; packet_id = some id } in
      ap
        (λ r.
          (and_then (put {Node = Node} {H = H} cl r)
            (λ u. modify (dispatch_inbound_to_endpoints walk config out) >> pure false)).0.spawned)
        (packet_accepted (Packet.puback id) cl.channel alive)
  spawned_for exactly_once id p cl alive low = absurd (omega arith)

  -- When one matching subscription of a client other than the publisher is served over a
  -- connection with a live writer, an empty queue and nothing written, publishing a packet of qos
  -- 0 or 1 with a UTF-8 topic of less than 65536 bytes, within the cap of the reader and the
  -- limit of the specification, leads to a copy of it: after one round of the writer the
  -- subscriber reads that copy and no more, and dispatching it, over a live writer of its own,
  -- starts the endpoints of the topic on it, or the fallback if there is none.
  pub published_is_delivered :
      (valid_utf8 : Bytes → Bool) (max_size : ℕ) (source : Bytes) (p : PublishPacket)
      (st : BrokerInner) (c : ConnectionId) (cl : Client Node H)
      → (st.channels c).writer_alive ≡ true
      → (st.channels c).queue ≡ []
      → (st.channels c).wire ≡ []
      → served_in source (matching (split p.topic) st.subscriptions) c st.sessions ≡ 1
      → IsStr valid_utf8 p.topic
      → 4 + length p.topic + length p.payload ≤ max_size
      → 4 + length p.topic + length p.payload ≤ mqtt_spec_max_packet_size
      → as_u8 p.qos ≤ 1
      → cl.channel.writer_alive ≡ true
      → (out : PublishPacket) × IsCopy p out
        × (read_packet valid_utf8 (writer_step ((publish source p st).channels c)).wire max_size
            ≡ ok (Packet.publish out, []))
        × ((dispatch_client_inbound walk config (Packet.publish out) cl).0.spawned
            ≡ cl.spawned
              ++ spawn_all (walk p.topic) config.default_inbound (incoming_from_packet out))
  published_is_delivered valid_utf8 max_size source p st c cl alive empty blank once str within spec
        low alive' =
      let (sent, grown, copies, count, kept) = publish_lem source p st c alive in
      let (out, copy, one) = one-IsCopy p sent copies (count ∙ once) in
      let after = (publish source p st).channels c in
      let queued : after.queue ≡ WriteCmd.publish out ∷ [] =
        grown ∙ ap (λ q. q ++ sent) empty ∙ one in
      let (bytes, written, read) =
        one_written valid_utf8 max_size (Packet.publish out) after
          (copy-IsCarried valid_utf8 max_size p out copy str within spec)
          (publish-wire source p st c ∙ blank) queued in
      let (topic, payload, dup, retain, qos, fits) = copy in
      (
        out,
        copy,
        ap (λ x. read_packet valid_utf8 x.wire max_size) written ∙ read,
        spawned_for out.qos out.packet_id out cl alive' (omega arith)
            ∙ ap
                (λ t.
                  cl.spawned
                  ++ spawn_all (walk t) config.default_inbound (incoming_from_packet out))
                topic,
      )
