-- ===== src/Broker/Sessions.antt =====
-- broker.rs: the session table under `register_session`, `unregister_session`, `subscribe` and
-- `unsubscribe`.
use hotaru_mqtt.Base.{
  ◌≡◌, ◌≢◌, refl, ap, ◌∙◌, List, [], ◌∷◌, map, Bool, true, false, not, Option, none, some, inl, inr,
  arith, ◌==◌, ==_iff, ==_refl, if◌then◌else◌, Bool-cases, Option-cases, Bytes, str_eq, Outcome, ok,
  err, panic,
}
use hotaru_mqtt.Request.{WillMessage, TopicFilter}
use hotaru_mqtt.Request.Qos.{Qos}
use hotaru_mqtt.Request.SubackCode.{SubackCode}
use hotaru_mqtt.Error.{MqttError}
use hotaru_mqtt.Packet.{PublishPacket}
use hotaru_mqtt.Topic.{validate_subscribe_filter}
use hotaru_mqtt.Topic.Split.{split}
use hotaru_mqtt.DashMap.{get, insert, remove, IsUnique, str_key}
use hotaru_mqtt.DashMap.Laws.{get-insert, get-remove, get-insert_self}
use hotaru_mqtt.Channel.{MqttChannel, close, send_publish}
use hotaru_mqtt.Broker.{
  BrokerInner, SubscriberEntry, ConnectionId, own_entry, set_channel, take_over, publish_will,
  will_packet, deliver, publish_one, publish_loop, publish, matching, register_session,
  unregister_session, subscribe_one, subscribe_loop, subscribe, unsubscribe,
}
use hotaru_mqtt.Broker.Fanout.{publish_loop-frame}

deliver-is_open :
    (packet : PublishPacket) (q : Qos) (ch : MqttChannel)
    → (deliver packet q ch).is_open ≡ ch.is_open
unfolding deliver send_publish
deliver-is_open packet q ch = ground arith

publish_one-is_open :
    (source : Bytes) (packet : PublishPacket) (sub_id : Bytes) (q : Qos) (st : BrokerInner)
    (c : ConnectionId)
    → ((publish_one source packet sub_id q st).channels c).is_open ≡ (st.channels c).is_open
unfolding publish_one
publish_one-is_open source packet sub_id q st c = elim (Bool-cases (str_eq sub_id source)) [
  | inl e ↦ rw e refl
  | inr n ↦ elim (Option-cases (get sub_id st.sessions)) [
    | inl e ↦ rw (n, e) refl
    | inr (entry, e) ↦ elim (Bool-cases (entry.connection_id == c)) [
      | inl same ↦
          let at : entry.connection_id ≡ c = (==_iff entry.connection_id c).0 same in
          rw (n, e, same, at) (deliver-is_open packet q (st.channels c))
      | inr other ↦ rw (n, e, other) refl
    ]
  ]
]

publish_loop-is_open :
    (source : Bytes) (packet : PublishPacket) (subs : List (Bytes × Qos)) (st : BrokerInner)
    (c : ConnectionId)
    → ((publish_loop source packet subs st).channels c).is_open ≡ (st.channels c).is_open
unfolding publish_loop
publish_loop-is_open source packet [] st c = refl
publish_loop-is_open source packet ((sub_id, q) ∷ rest) st c =
    publish_loop-is_open source packet rest (publish_one source packet sub_id q st) c
    ∙ publish_one-is_open source packet sub_id q st c

pub publish_will-frame :
    (will : Option WillMessage) (st : BrokerInner)
    → ((publish_will will st).sessions ≡ st.sessions)
      × ((publish_will will st).subscriptions ≡ st.subscriptions)
      × ((c : ConnectionId) → ((publish_will will st).channels c).is_open ≡ (st.channels c).is_open)
unfolding publish_will publish
publish_will-frame none st = (refl, refl, λ c. refl)
publish_will-frame (some will) st =
    let subs = matching (split (will_packet will).topic) st.subscriptions in
    let (s, t) = publish_loop-frame [] (will_packet will) subs st in
    (s, t, publish_loop-is_open [] (will_packet will) subs st)

close-is_open : (ch : MqttChannel) → (close ch).is_open ≡ false
unfolding close
close-is_open ch = ground arith

pub take_over-sessions :
    (existing : Option SubscriberEntry) (st : BrokerInner)
    → (take_over existing st).sessions ≡ st.sessions
unfolding take_over
take_over-sessions none st = refl
take_over-sessions (some prev) st =
    (publish_will-frame prev.will
      (set_channel prev.connection_id (close (st.channels prev.connection_id)) st)).0

take_over-is_open :
    (prev : SubscriberEntry) (st : BrokerInner)
    → ((take_over (some prev) st).channels prev.connection_id).is_open ≡ false
unfolding take_over
take_over-is_open prev st =
    let closed = set_channel prev.connection_id (close (st.channels prev.connection_id)) st in
    (publish_will-frame prev.will closed).2 prev.connection_id
    ∙ (rw (==_refl prev.connection_id) (close-is_open (st.channels prev.connection_id)))

-- The table after a CONNECT.
register_session-sessions :
    (client : Bytes) (c : ConnectionId) (will : Option WillMessage) (clean : Bool)
    (st : BrokerInner)
    → (register_session client c will clean st).0.sessions
      ≡ insert client
          (record { connection_id = c; filters = []; will = will; clean_session = clean })
          (remove client st.sessions)
unfolding register_session
register_session-sessions client c will true st =
    ap
      (insert client
        (record { connection_id = c; filters = []; will = will; clean_session = true }))
      (take_over-sessions (get client st.sessions)
        (record st { sessions = remove client st.sessions }))
register_session-sessions client c will false st =
    ap
      (insert client
        (record { connection_id = c; filters = []; will = will; clean_session = false }))
      (take_over-sessions (get client st.sessions)
        (record st { sessions = remove client st.sessions }))

-- On a table with one session for a client, registering a client sets its session to a new one of
-- this connection, with no filters, and leaves the sessions of the other clients.
pub register_session_lem :
    (client : Bytes) (c : ConnectionId) (will : Option WillMessage) (clean : Bool)
    (st : BrokerInner) (other : Bytes)
    → IsUnique st.sessions
    → get other (register_session client c will clean st).0.sessions ≡ (
        if str_eq client other
        then some (record { connection_id = c; filters = []; will = will; clean_session = clean })
        else get other st.sessions)
register_session_lem client c will clean st other u =
    let entry : SubscriberEntry = record {
      connection_id = c;
      filters = [];
      will = will;
      clean_session = clean;
    } in
    rw
      (
        register_session-sessions client c will clean st,
        get-insert client other entry (remove client st.sessions),
        get-remove client other st.sessions u,
      )
      (elim (Bool-cases (str_eq client other)) [ inl e ↦ rw e refl | inr e ↦ rw e refl ])

-- Registering a client that has a session closes the connection that held it, and reports a
-- present session exactly if no clean one was asked for.
pub register_session_closes :
    (client : Bytes) (c : ConnectionId) (will : Option WillMessage) (clean : Bool)
    (st : BrokerInner) (prev : SubscriberEntry)
    → get client st.sessions ≡ some prev
    → (((register_session client c will clean st).0.channels prev.connection_id).is_open ≡ false)
      × ((register_session client c will clean st).1 ≡ not clean)
unfolding register_session
register_session_closes client c will true st prev h =
    rw h (take_over-is_open prev (record st { sessions = remove client st.sessions }), refl)
register_session_closes client c will false st prev h =
    rw h (take_over-is_open prev (record st { sessions = remove client st.sessions }), refl)

-- Another connection holds the client's session, or none does.
stale :
    (client : Bytes) (c : ConnectionId) (st : BrokerInner) (entry : SubscriberEntry)
    → get client st.sessions ≡ some entry
    → entry.connection_id ≢ c
    → own_entry client c st ≡ none
stale client c st entry h ne = rw (own_entry, h) (ground (arith, ne))

ignored :
    (client : Bytes) (c : ConnectionId) (graceful : Bool) (filters : List TopicFilter)
    (topics : List Bytes) (st : BrokerInner)
    → own_entry client c st ≡ none
    → (unregister_session client c graceful st ≡ st)
      × (subscribe client c filters st ≡ (st, map (λ tf. SubackCode.failure) filters))
      × (unsubscribe client c topics st ≡ st)
unfolding unregister_session subscribe unsubscribe
ignored client c graceful filters topics st e =
    (rw (unregister_session, e) refl, rw (subscribe, e) refl, rw (unsubscribe, e) refl)

-- After a connection has registered a client, another connection can neither end that session nor
-- subscribe nor unsubscribe for it: the broker stays as it is, and every filter is answered with
-- failure.
pub taken_over_is_ignored :
    (client : Bytes) (c c' : ConnectionId) (will : Option WillMessage) (clean graceful : Bool)
    (filters : List TopicFilter) (topics : List Bytes) (st : BrokerInner)
    → c ≢ c'
    → let taken = (register_session client c will clean st).0 in
      (unregister_session client c' graceful taken ≡ taken)
      × (subscribe client c' filters taken ≡ (taken, map (λ tf. SubackCode.failure) filters))
      × (unsubscribe client c' topics taken ≡ taken)
taken_over_is_ignored client c c' will clean graceful filters topics st ne =
    let taken = (register_session client c will clean st).0 in
    let entry : SubscriberEntry = record {
      connection_id = c;
      filters = [];
      will = will;
      clean_session = clean;
    } in
    let at : get client taken.sessions ≡ some entry =
      (rw (register_session-sessions client c will clean st)
        (get-insert_self client entry (remove client st.sessions))) in
    let e = stale client c' taken entry at ne in ignored client c' graceful filters topics taken e

-- The code for one filter.
abbrev pub code_of : Outcome MqttError (Unit {0}) → Qos → SubackCode
code_of (ok u) q = SubackCode.granted q
code_of (err e) q = SubackCode.failure
code_of panic q = SubackCode.failure

abbrev pub filter_code : TopicFilter → SubackCode
filter_code tf = code_of (validate_subscribe_filter tf.filter) tf.qos

subscribe_one-code :
    (verdict : Outcome MqttError (Unit {0})) (client : Bytes) (entry : SubscriberEntry)
    (tf : TopicFilter) (st : BrokerInner)
    → (subscribe_one verdict client entry tf st).1 ≡ code_of verdict tf.qos
subscribe_one-code (ok u) client entry tf st = refl
subscribe_one-code (err e) client entry tf st = refl
subscribe_one-code panic client entry tf st = refl

subscribe_loop-codes :
    (client : Bytes) (entry : SubscriberEntry) (filters : List TopicFilter) (st : BrokerInner)
    → (subscribe_loop client entry filters st).1 ≡ map filter_code filters
unfolding subscribe_loop
subscribe_loop-codes client entry [] st = refl
subscribe_loop-codes client entry (tf ∷ filters) st =
    let step = subscribe_one (validate_subscribe_filter tf.filter) client entry tf st in
    rw
      (
        subscribe_one-code (validate_subscribe_filter tf.filter) client entry tf st,
        subscribe_loop-codes client step.0.0 filters step.0.1,
      )
      refl

-- For a client with a session, the codes of a SUBSCRIBE answer its filters in order: each is
-- granted with the qos asked for if the filter is valid, and a failure if not; from a connection
-- that does not own the session all are failures.
pub subscribe_lem :
    (client : Bytes) (c : ConnectionId) (filters : List TopicFilter) (st : BrokerInner)
    (entry : SubscriberEntry)
    → get client st.sessions ≡ some entry
    → (subscribe client c filters st).1 ≡ (
        if entry.connection_id == c
        then map filter_code filters
        else map (λ tf. SubackCode.failure) filters)
unfolding subscribe
subscribe_lem client c filters st entry h = elim (Bool-cases (entry.connection_id == c)) [
  | inl e ↦ rw (subscribe, own_entry, h, e) (subscribe_loop-codes client entry filters st)
  | inr e ↦ rw (subscribe, own_entry, h, e) refl
]
