-- ===== src/Broker/Atomic.antt =====
-- broker.rs: `register_session` and `unregister_session` as the map operations that they are made
-- of. Each of these is atomic, and those of other connections can come between two of them.
pub mod Parts
pub mod Owners
pub mod Races
use hotaru_mqtt.Base.{
  ◌≡◌, List, [], ◌∷◌, Bool, true, false, not, ◌&&◌, Option, none, some, ◌==◌, if◌then◌else◌, Bytes,
}
use hotaru_mqtt.Request.{WillMessage, TopicFilter}
use hotaru_mqtt.Channel.{MqttChannel}
use hotaru_mqtt.DashMap.{get, insert, remove, str_key}
use hotaru_mqtt.Broker.{
  SubscriberEntry, BrokerInner, ConnectionId, Authenticator, Broker, build, own_entry, take_over,
  publish_will, remove_client, subscribe, unsubscribe, is_some,
}

-- `sessions.remove(&client_id)`
abbrev pub take_session : Bytes → BrokerInner → BrokerInner × Option SubscriberEntry
take_session client st =
    (record st { sessions = remove client st.sessions }, get client st.sessions)

-- `subscriptions.remove_client(&client_id)`
abbrev pub wipe : Bytes → BrokerInner → BrokerInner
wipe client st = record st { subscriptions = remove_client client st.subscriptions }

abbrev pub new_entry : ConnectionId → Option WillMessage → Bool → SubscriberEntry
new_entry c will clean = record {
  connection_id = c;
  filters = [];
  will = will;
  clean_session = clean;
}

-- `sessions.insert(client_id, ..)`
abbrev pub put_session : Bytes → SubscriberEntry → BrokerInner → BrokerInner
put_session client entry st = record st { sessions = insert client entry st.sessions }

-- `sessions.remove_if(client_id, ..)`
unfoldable pub claim : Bytes → ConnectionId → BrokerInner → BrokerInner × Option SubscriberEntry
claim client c st = elim (own_entry client c st) [
  | none ↦ (st, none)
  | some entry ↦ (record st { sessions = remove client st.sessions }, some entry)
]

-- What the task of a connection does next: between the parts of its registration, in its loop, or
-- between the parts of its teardown.
pub data Stage : Type 0 where
  connecting : Stage
  taken : Bytes → Option WillMessage → Bool → Option SubscriberEntry → Stage
  closed : Bytes → Option WillMessage → Bool → Stage
  ready : Bytes → Option WillMessage → Bool → Stage
  serving : Bytes → Stage
  claimed : Bytes → SubscriberEntry → Bool → Stage
  cleared : SubscriberEntry → Bool → Stage
  returned : Stage

pub record Interleaved : Type 0 where
  pub inner : BrokerInner
  pub stages : ConnectionId → Stage

abbrev pub stage_of : ConnectionId → Interleaved → Stage
stage_of c b = b.stages c

abbrev pub put : ConnectionId → BrokerInner → Stage → Interleaved → Interleaved
put c inner stage b = record { inner = inner; stages = λ d. if c == d then stage else b.stages d }

-- The stage after `remove_if`.
abbrev pub after_claim : Bytes → Bool → Option SubscriberEntry → Stage
after_claim client graceful none = returned
after_claim client graceful (some entry) = claimed client entry graceful

abbrev pub last_will : Bool → SubscriberEntry → BrokerInner → BrokerInner
last_will true entry st = st
last_will false entry st = publish_will entry.will st

abbrev pub wipe_if : Bool → Bytes → BrokerInner → BrokerInner
wipe_if true client st = wipe client st
wipe_if false client st = st

pub data Step : Interleaved → Interleaved → Type 0 where
  take :
      {b : Interleaved} (c : ConnectionId) (client : Bytes) (will : Option WillMessage)
      (clean : Bool)
      → stage_of c b ≡ connecting
      → Step b (
          put c
            (take_session client b.inner).0
            (taken client will clean (take_session client b.inner).1)
            b)
  end :
      {b : Interleaved} (c : ConnectionId) (client : Bytes) (will : Option WillMessage)
      (clean : Bool) (existing : Option SubscriberEntry)
      → stage_of c b ≡ taken client will clean existing
      → Step b (put c (take_over existing b.inner) (closed client will clean) b)
  forget :
      {b : Interleaved} (c : ConnectionId) (client : Bytes) (will : Option WillMessage)
      (clean : Bool)
      → stage_of c b ≡ closed client will clean
      → Step b (put c (wipe_if clean client b.inner) (ready client will clean) b)
  enter :
      {b : Interleaved} (c : ConnectionId) (client : Bytes) (will : Option WillMessage)
      (clean : Bool)
      → stage_of c b ≡ ready client will clean
      → Step b (put c (put_session client (new_entry c will clean) b.inner) (serving client) b)
  leave :
      {b : Interleaved} (c : ConnectionId) (client : Bytes) (graceful : Bool)
      → stage_of c b ≡ serving client
      → Step b (
          put c
            (claim client c b.inner).0
            (after_claim client graceful (claim client c b.inner).1)
            b)
  clear :
      {b : Interleaved} (c : ConnectionId) (client : Bytes) (entry : SubscriberEntry)
      (graceful : Bool)
      → stage_of c b ≡ claimed client entry graceful
      → Step b (put c (wipe client b.inner) (cleared entry graceful) b)
  finish :
      {b : Interleaved} (c : ConnectionId) (entry : SubscriberEntry) (graceful : Bool)
      → stage_of c b ≡ cleared entry graceful
      → Step b (put c (last_will graceful entry b.inner) returned b)
  -- One filter of a SUBSCRIBE or an UNSUBSCRIBE.
  subscribed :
      {b : Interleaved} (c : ConnectionId) (client : Bytes) (tf : TopicFilter)
      → stage_of c b ≡ serving client
      → Step b (record b { inner = (subscribe client c (tf ∷ []) b.inner).0 })
  unsubscribed :
      {b : Interleaved} (c : ConnectionId) (client topic : Bytes)
      → stage_of c b ≡ serving client
      → Step b (record b { inner = unsubscribe client c (topic ∷ []) b.inner })
  -- A part of a PUBLISH, or a task of a channel: the tables stay.
  quiet :
      {b : Interleaved} (channels : ConnectionId → MqttChannel)
      → Step b (record b { inner = record b.inner { channels = channels } })

pub data Reachable : Interleaved → Type 0 where
  start :
      (channels : ConnectionId → MqttChannel)
      → Reachable (record {
        inner = record { sessions = []; subscriptions = []; channels = channels };
        stages = λ c. connecting;
      })
  more : {b b' : Interleaved} → Reachable b → Step b b' → Reachable b'
