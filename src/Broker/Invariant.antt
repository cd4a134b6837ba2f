-- ===== src/Broker/Invariant.antt =====
-- broker.rs: the tables of a broker without duplicates, through each of its operations.
use hotaru_mqtt.Base.{
  ◌≡◌, List, [], ◌∷◌, Bool, true, false, Option, none, some, inl, inr, Bool-cases, Option-cases,
  Bytes, Outcome, ok, err, panic,
}
use hotaru_mqtt.Error.{MqttError}
use hotaru_mqtt.Request.{WillMessage, TopicFilter}
use hotaru_mqtt.Packet.{PublishPacket}
use hotaru_mqtt.Topic.{validate_subscribe_filter}
use hotaru_mqtt.Topic.Split.{split}
use hotaru_mqtt.DashMap.{get, insert, remove, IsUnique, str_key}
use hotaru_mqtt.DashMap.Laws.{insert-IsUnique, remove-IsUnique}
use hotaru_mqtt.Channel.{close}
use hotaru_mqtt.Broker.{
  BrokerInner, SubscriberEntry, ConnectionId, own_entry, set_channel, tree_unsubscribe,
  remove_client, matching, publish, publish_will, take_over, register_session, unregister_session,
  grant, subscribe_one, subscribe_loop, subscribe, unsubscribe_loop, unsubscribe,
}
use hotaru_mqtt.Broker.Fanout.{publish_loop-frame}
use hotaru_mqtt.Broker.Sessions.{publish_will-frame}
use hotaru_mqtt.Broker.Table.{IsTree}
use hotaru_mqtt.Broker.Tables.{
  remove_client-IsTree, remove_client-IsUnique, subscribe-Tables, unsubscribe-Tables,
}

-- One session for a client, one set for a filter, one entry for a client in a set.
abbrev pub IsConsistent : BrokerInner → Type 0
IsConsistent st = IsUnique st.sessions × IsUnique st.subscriptions × IsTree st.subscriptions

-- An operation that leaves both tables.
same-IsConsistent :
    (st st' : BrokerInner)
    → (st'.sessions ≡ st.sessions)
    → (st'.subscriptions ≡ st.subscriptions)
    → IsConsistent st
    → IsConsistent st'
same-IsConsistent st st' s t h = rw (s, t) h

pub publish-IsConsistent :
    (source : Bytes) (packet : PublishPacket) (st : BrokerInner)
    → IsConsistent st
    → IsConsistent (publish source packet st)
unfolding publish
publish-IsConsistent source packet st h =
    let (s, t) =
      publish_loop-frame source packet (matching (split packet.topic) st.subscriptions) st in
    same-IsConsistent st (publish source packet st) s t h

pub publish_will-IsConsistent :
    (will : Option WillMessage) (st : BrokerInner)
    → IsConsistent st
    → IsConsistent (publish_will will st)
publish_will-IsConsistent will st h =
    let (s, t, o) = publish_will-frame will st in same-IsConsistent st (publish_will will st) s t h

pub take_over-IsConsistent :
    (existing : Option SubscriberEntry) (st : BrokerInner)
    → IsConsistent st
    → IsConsistent (take_over existing st)
unfolding take_over
take_over-IsConsistent none st h = h
take_over-IsConsistent (some prev) st h =
    publish_will-IsConsistent prev.will
      (set_channel prev.connection_id (close (st.channels prev.connection_id)) st) h

pub register_session-IsConsistent :
    (client : Bytes) (c : ConnectionId) (will : Option WillMessage) (clean : Bool)
    (st : BrokerInner)
    → IsConsistent st
    → IsConsistent (register_session client c will clean st).0
unfolding register_session
register_session-IsConsistent client c will true st (u, v, w) =
    let removed : BrokerInner = record st { sessions = remove client st.sessions } in
    let entry : SubscriberEntry = record {
      connection_id = c;
      filters = [];
      will = will;
      clean_session = true;
    } in
    let closed = take_over (get client st.sessions) removed in
    let (u', v', w') =
      take_over-IsConsistent (get client st.sessions) removed
        (remove-IsUnique client st.sessions u, v, w) in
    (
      insert-IsUnique client entry closed.sessions u',
      remove_client-IsUnique client closed.subscriptions v',
      remove_client-IsTree client closed.subscriptions w',
    )
register_session-IsConsistent client c will false st (u, v, w) =
    let removed : BrokerInner = record st { sessions = remove client st.sessions } in
    let entry : SubscriberEntry = record {
      connection_id = c;
      filters = [];
      will = will;
      clean_session = false;
    } in
    let closed = take_over (get client st.sessions) removed in
    let (u', v', w') =
      take_over-IsConsistent (get client st.sessions) removed
        (remove-IsUnique client st.sessions u, v, w) in
    (insert-IsUnique client entry closed.sessions u', v', w')

pub unregister_session-IsConsistent :
    (client : Bytes) (c : ConnectionId) (graceful : Bool) (st : BrokerInner)
    → IsConsistent st
    → IsConsistent (unregister_session client c graceful st)
unfolding unregister_session
unregister_session-IsConsistent client c graceful st (u, v, w) =
    let gone : BrokerInner = record st {
      sessions = remove client st.sessions;
      subscriptions = remove_client client st.subscriptions;
    } in
    let kept : IsConsistent gone = (
      remove-IsUnique client st.sessions u,
      remove_client-IsUnique client st.subscriptions v,
      remove_client-IsTree client st.subscriptions w,
    ) in
    elim (Option-cases (own_entry client c st)) [
      | inl e ↦ rw (unregister_session, e) (u, v, w)
      | inr (entry, e) ↦ elim (Bool-cases graceful) [
        | inl g ↦ rw (unregister_session, e, g) kept
        | inr g ↦ rw (unregister_session, e, g) (publish_will-IsConsistent entry.will gone kept)
      ]
    ]

subscribe_one-IsConsistent :
    (verdict : Outcome MqttError (Unit {0})) (client : Bytes) (entry : SubscriberEntry)
    (tf : TopicFilter) (st : BrokerInner)
    → IsConsistent st
    → IsConsistent (subscribe_one verdict client entry tf st).0.1
unfolding grant
subscribe_one-IsConsistent (ok u) client entry tf st h =
    let entry' : SubscriberEntry = record entry {
      filters = insert tf.filter tf.qos entry.filters;
    } in
    subscribe-Tables client tf.filter tf.qos entry' st.sessions st.subscriptions h
subscribe_one-IsConsistent (err e) client entry tf st h = h
subscribe_one-IsConsistent panic client entry tf st h = h

subscribe_loop-IsConsistent :
    (client : Bytes) (entry : SubscriberEntry) (filters : List TopicFilter) (st : BrokerInner)
    → IsConsistent st
    → IsConsistent (subscribe_loop client entry filters st).0
unfolding subscribe_loop
subscribe_loop-IsConsistent client entry [] st h = h
subscribe_loop-IsConsistent client entry (tf ∷ filters) st h =
    let verdict = validate_subscribe_filter tf.filter in
    let step = subscribe_one verdict client entry tf st in
    subscribe_loop-IsConsistent client step.0.0 filters step.0.1
      (subscribe_one-IsConsistent verdict client entry tf st h)

pub subscribe-IsConsistent :
    (client : Bytes) (c : ConnectionId) (filters : List TopicFilter) (st : BrokerInner)
    → IsConsistent st
    → IsConsistent (subscribe client c filters st).0
unfolding subscribe
subscribe-IsConsistent client c filters st h = elim (Option-cases (own_entry client c st)) [
  | inl e ↦ rw (subscribe, e) h
  | inr (entry, e) ↦ rw (subscribe, e) (subscribe_loop-IsConsistent client entry filters st h)
]

unsubscribe_loop-IsConsistent :
    (client : Bytes) (entry : SubscriberEntry) (topics : List Bytes) (st : BrokerInner)
    → IsConsistent st
    → IsConsistent (unsubscribe_loop client entry topics st)
unfolding unsubscribe_loop
unsubscribe_loop-IsConsistent client entry [] st h = h
unsubscribe_loop-IsConsistent client entry (topic ∷ topics) st h =
    let entry' : SubscriberEntry = record entry { filters = remove topic entry.filters } in
    unsubscribe_loop-IsConsistent client entry' topics
      (record st {
        sessions = insert client entry' st.sessions;
        subscriptions = tree_unsubscribe client topic st.subscriptions;
      })
      (unsubscribe-Tables client topic entry' st.sessions st.subscriptions h)

pub unsubscribe-IsConsistent :
    (client : Bytes) (c : ConnectionId) (topics : List Bytes) (st : BrokerInner)
    → IsConsistent st
    → IsConsistent (unsubscribe client c topics st)
unfolding unsubscribe
unsubscribe-IsConsistent client c topics st h = elim (Option-cases (own_entry client c st)) [
  | inl e ↦ rw (unsubscribe, e) h
  | inr (entry, e) ↦ rw (unsubscribe, e) (unsubscribe_loop-IsConsistent client entry topics st h)
]
