-- ===== src/Broker/Unserved.antt =====
-- broker.rs: a registration leaves alone the channel that no session is served over.
use hotaru_mqtt.Base.{
  ◌≡◌, ◌≢◌, refl, sym, ap, ◌∙◌, List, [], ◌∷◌, Bool, true, false, Option, none, some, inl, inr,
  ◌==◌, ==_iff, ==_refl, Bool-cases, Option-cases, Bytes, str_eq, arith,
}
use hotaru_mqtt.Request.{WillMessage}
use hotaru_mqtt.Request.Qos.{Qos}
use hotaru_mqtt.Packet.{PublishPacket}
use hotaru_mqtt.Topic.Split.{split}
use hotaru_mqtt.DashMap.{get, remove, IsUnique, str_key}
use hotaru_mqtt.DashMap.Laws.{get-remove}
use hotaru_mqtt.Channel.{MqttChannel, close}
use hotaru_mqtt.Broker.{
  SubscriberEntry, BrokerInner, ConnectionId, set_channel, deliver, matching, publish_one,
  publish_loop, publish, publish_will, will_packet, take_over, register_session,
}
use hotaru_mqtt.Broker.Fanout.{publish_one-sessions}
use hotaru_mqtt.Protocol.System.Owner.{id_in, owner}

abbrev pub IsUnserved : ConnectionId → BrokerInner → Type 0
IsUnserved c st = (k : Bytes) → owner k st ≢ some c

pub set_channel_same :
    (c : ConnectionId) (ch : MqttChannel) (st : BrokerInner) → (set_channel c ch st).channels c ≡ ch
set_channel_same c ch st = rw (==_refl c) refl

pub set_channel_other :
    (c d : ConnectionId) (ch : MqttChannel) (st : BrokerInner)
    → c ≢ d
    → (set_channel c ch st).channels d ≡ st.channels d
set_channel_other c d ch st h = elim (Bool-cases (c == d)) [
  | inl e ↦ absurd (h ((==_iff c d).0 e))
  | inr e ↦ rw e refl
]

same-IsUnserved :
    (c : ConnectionId) (st st' : BrokerInner)
    → st'.sessions ≡ st.sessions
    → IsUnserved c st
    → IsUnserved c st'
same-IsUnserved c st st' e h k f = h k (sym (ap (λ s. id_in (get k s)) e) ∙ f)

publish_one-channels :
    (source : Bytes) (p : PublishPacket) (sub_id : Bytes) (q : Qos) (c : ConnectionId)
    (st : BrokerInner)
    → IsUnserved c st
    → (publish_one source p sub_id q st).channels c ≡ st.channels c
unfolding publish_one
publish_one-channels source p sub_id q c st h = elim (Bool-cases (str_eq sub_id source)) [
  | inl e ↦ rw e refl
  | inr n ↦ elim (Option-cases (get sub_id st.sessions)) [
    | inl e ↦ rw (n, e) refl
    | inr (entry, e) ↦
        rw (n, e)
          (set_channel_other entry.connection_id c (deliver p q (st.channels entry.connection_id))
            st λ at. h sub_id (ap id_in e ∙ ap some at))
  ]
]

publish_loop-channels :
    (source : Bytes) (p : PublishPacket) (subs : List (Bytes × Qos)) (c : ConnectionId)
    (st : BrokerInner)
    → IsUnserved c st
    → (publish_loop source p subs st).channels c ≡ st.channels c
unfolding publish_loop
publish_loop-channels source p [] c st h = refl
publish_loop-channels source p ((sub_id, q) ∷ rest) c st h =
    let st' = publish_one source p sub_id q st in
    publish_loop-channels source p rest c st'
      (same-IsUnserved c st st' (publish_one-sessions source p sub_id q st).0 h)
    ∙ publish_one-channels source p sub_id q c st h

publish_will-channels :
    (will : Option WillMessage) (c : ConnectionId) (st : BrokerInner)
    → IsUnserved c st
    → (publish_will will st).channels c ≡ st.channels c
unfolding publish_will publish
publish_will-channels none c st h = refl
publish_will-channels (some will) c st h =
    publish_loop-channels [] (will_packet will) (matching (split will.topic) st.subscriptions) c st
      h

take_over-channels :
    (existing : Option SubscriberEntry) (c : ConnectionId) (st : BrokerInner)
    → id_in existing ≢ some c
    → IsUnserved c st
    → (take_over existing st).channels c ≡ st.channels c
unfolding take_over
take_over-channels none c st other h = refl
take_over-channels (some prev) c st other h =
    let closed = set_channel prev.connection_id (close (st.channels prev.connection_id)) st in
    publish_will-channels prev.will c closed (same-IsUnserved c st closed refl h)
    ∙ set_channel_other prev.connection_id c (close (st.channels prev.connection_id)) st
        λ at. other (ap some at)

removed-IsUnserved :
    (client : Bytes) (c : ConnectionId) (st : BrokerInner)
    → IsUnique st.sessions
    → IsUnserved c st
    → IsUnserved c (record st { sessions = remove client st.sessions })
removed-IsUnserved client c st u h k f = elim (Bool-cases (str_eq client k)) [
  | inl e ↦ let g = get-remove client k st.sessions u in absurd (ground (arith, g, e, f))
  | inr e ↦
      let g : get k (remove client st.sessions) ≡ get k st.sessions =
        get-remove client k st.sessions u ∙ rw e refl in
      h k (sym (ap id_in g) ∙ f)
]

pub register_session-channels :
    (client : Bytes) (c : ConnectionId) (will : Option WillMessage) (clean : Bool)
    (st : BrokerInner)
    → IsUnique st.sessions
    → IsUnserved c st
    → (register_session client c will clean st).0.channels c ≡ st.channels c
unfolding register_session
register_session-channels client c will true st u h =
    take_over-channels (get client st.sessions) c _ (h client) (removed-IsUnserved client c st u h)
register_session-channels client c will false st u h =
    take_over-channels (get client st.sessions) c _ (h client) (removed-IsUnserved client c st u h)
