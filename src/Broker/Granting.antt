-- ===== src/Broker/Granting.antt =====
-- broker.rs `subscribe`: a filter that is granted, and what a PUBLISH does then.
use hotaru_mqtt.Base.{
  length, ◌<◌, Option-cases, str_eq, inl, inr, ◌≡◌, refl, ap, ◌∙◌, [], ◌∷◌, true, false, some, inl,
  inr, arith, Bytes, str_eq_refl, ok,
}
use hotaru_mqtt.Request.{TopicFilter}
use hotaru_mqtt.Request.SubackCode.{SubackCode}
use hotaru_mqtt.Topic.{validate_subscribe_filter}
use hotaru_mqtt.DashMap.{get, insert, str_key}
use hotaru_mqtt.DashMap.Laws.{get-insert_self}
use hotaru_mqtt.Broker.{
  SubscriberEntry, BrokerInner, ConnectionId, own_entry, subscribe, grant, subscribe_loop,
}
use hotaru_mqtt.Broker.Table.{qos_of, tree_subscribe_lem}
use hotaru_mqtt.Broker.Invariant.{IsConsistent, subscribe-IsConsistent}
use hotaru_mqtt.Protocol.System.Owner.{id_in, owner}
use hotaru_mqtt.Packet.{PublishPacket}
use hotaru_mqtt.Topic.Split.{split}
use hotaru_mqtt.Broker.{filter_matches, publish}
use hotaru_mqtt.Broker.Reaching.{publish_reaches}

-- A SUBSCRIBE of one valid filter, from the connection that owns the session.
pub subscribed_one :
    (client : Bytes) (c : ConnectionId) (tf : TopicFilter) (st : BrokerInner)
    (entry : SubscriberEntry)
    → own_entry client c st ≡ some entry
    → validate_subscribe_filter tf.filter ≡ ok tt
    → subscribe client c (tf ∷ []) st
      ≡ ((grant client entry tf st).1, SubackCode.granted tf.qos ∷ [])
unfolding subscribe subscribe_loop
subscribed_one client c tf st entry own valid = rw (subscribe, own, subscribe_loop, valid) refl

pub own_found :
    (client : Bytes) (c : ConnectionId) (st : BrokerInner) (entry : SubscriberEntry)
    → get client st.sessions ≡ some entry
    → entry.connection_id ≡ c
    → own_entry client c st ≡ some entry
own_found client c st entry found e = ground arith

pub granted_one :
    (client : Bytes) (entry : SubscriberEntry) (tf : TopicFilter) (st : BrokerInner)
    → (qos_of client tf.filter (grant client entry tf st).1.subscriptions ≡ some tf.qos)
      × (owner client (grant client entry tf st).1 ≡ some entry.connection_id)
unfolding grant
granted_one client entry tf st = (
  tree_subscribe_lem client tf.filter tf.qos st.subscriptions client tf.filter
      ∙ rw (str_eq_refl tf.filter, str_eq_refl client) refl,
  ap id_in (
      get-insert_self client (record entry { filters = insert tf.filter tf.qos entry.filters })
        st.sessions),
)

-- The channels stay.
grant-channels :
    (client : Bytes) (entry : SubscriberEntry) (tf : TopicFilter) (st : BrokerInner)
    → (grant client entry tf st).1.channels ≡ st.channels
unfolding grant
grant-channels client entry tf st = refl

-- The entry of a client over a connection.
abbrev Owned : Bytes → ConnectionId → BrokerInner → Type 0
Owned client c st =
    (entry : SubscriberEntry) × (own_entry client c st ≡ some entry) × (entry.connection_id ≡ c)

entry_of :
    (client : Bytes) (c : ConnectionId) (st : BrokerInner)
    → owner client st ≡ some c
    → Owned client c st
entry_of client c st own = elim (Option-cases (get client st.sessions)) [
  | inl e ↦ absurd (ground (arith, e, own))
  | inr (entry, e) ↦
      let at : entry.connection_id ≡ c = ground (arith, e, own) in
      (entry, own_found client c st entry e at, at)
]

-- On consistent tables, when the connection that owns the session of a client, over a live
-- writer, subscribes one filter that the validator accepts, the filter is granted, and publishing
-- from another client on a topic that the filter matches then makes the queue of that connection
-- longer.
pub subscribed_is_reached :
    (client source : Bytes) (c : ConnectionId) (tf : TopicFilter) (p : PublishPacket)
    (st : BrokerInner)
    → IsConsistent st
    → owner client st ≡ some c
    → (st.channels c).writer_alive ≡ true
    → validate_subscribe_filter tf.filter ≡ ok tt
    → filter_matches tf.filter (split p.topic) ≡ true
    → str_eq client source ≡ false
    → let (st', codes) = subscribe client c (tf ∷ []) st in
      (codes ≡ SubackCode.granted tf.qos ∷ [])
      × (length (st.channels c).queue < length ((publish source p st').channels c).queue)
subscribed_is_reached client source c tf p st cons own alive valid matches other =
    let (entry, mine, at) = entry_of client c st own in
    let done = subscribed_one client c tf st entry mine valid in
    let st' = (subscribe client c (tf ∷ []) st).0 in
    let cons' = subscribe-IsConsistent client c (tf ∷ []) st cons in
    let (held, owned) = granted_one client entry tf st in
    let same : st'.channels ≡ st.channels =
      ap (λ x. x.0.channels) done ∙ grant-channels client entry tf st in
    let held' : qos_of client tf.filter st'.subscriptions ≡ some tf.qos =
      ap (λ x. qos_of client tf.filter x.0.subscriptions) done ∙ held in
    let owned' : owner client st' ≡ some c = ap (λ x. owner client x.0) done ∙ owned ∙ ap some at in
    let grows =
      (publish_reaches source p st' c cons' (ap (λ f. (f c).writer_alive) same ∙ alive)).1
        (client, tf.filter, tf.qos, matches, held', other, owned') in
    let size : length (st'.channels c).queue ≡ length (st.channels c).queue =
      ap (λ f. length (f c).queue) same in
    (ap (λ x. x.1) done, omega arith)
