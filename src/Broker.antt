-- ===== src/Broker.antt =====
-- broker.rs: the sessions and subscriptions that connections share, and the fan-out of a PUBLISH.
-- The channels that the session table holds are a store, indexed by `connection_id`. Each function
-- runs alone here; Atomic says what other tasks can do between two map operations of a
-- registration or a teardown.
mod Auth
mod Tree
mod State
mod Publish
pub mod Matching
pub mod Fanout
pub mod Sessions
pub mod Table
pub mod Tables
pub mod Invariant
pub mod Atomic
pub mod Unserved
pub mod Reaching
pub mod Granting
unfoldable pub use Auth.*
unfoldable pub use Tree.*
unfoldable pub use State.*
unfoldable pub use Publish.*
use hotaru_mqtt.Base.{
  ℕ, List, [], ◌∷◌, ◌++◌, map, Bool, true, false, not, ◌&&◌, Option, none, some, ◌==◌, ltb,
  if◌then◌else◌, Bytes, str_eq, Outcome, ok, err, panic,
}
use hotaru_mqtt.Request.{IncomingPublish, PacketId, WillMessage, TopicFilter}
use hotaru_mqtt.Request.Qos.{Qos, as_u8, min_qos}
use hotaru_mqtt.Request.SubackCode.{SubackCode}
use hotaru_mqtt.Error.{MqttError}
use hotaru_mqtt.Packet.{ConnectPacket, PublishPacket}
use hotaru_mqtt.Packet.ConnackReturnCode.{ConnackReturnCode}
use hotaru_mqtt.Safety
use hotaru_mqtt.Safety.{MqttSafety}
use hotaru_mqtt.Topic.{plus_seg, hash_seg, validate_subscribe_filter}
use hotaru_mqtt.Topic.Split.{split}
use hotaru_mqtt.DashMap.{get, insert, remove, str_key}
use hotaru_mqtt.Session.{MqttSession, allocate_packet_id, track_outbound_inflight}
use hotaru_mqtt.Channel.{MqttChannel, close, send_publish}

-- Ends the connection that a takeover replaces.
unfoldable pub take_over : Option SubscriberEntry → BrokerInner → BrokerInner
take_over none st = st
take_over (some prev) st =
    publish_will prev.will
      (set_channel prev.connection_id (close (st.channels prev.connection_id)) st)

abbrev pub is_some {ℓ} : {A : Type ℓ} → Option A → Bool
is_some none = false
is_some (some a) = true

unfoldable pub register_session :
    Bytes → ConnectionId → Option WillMessage → Bool → BrokerInner → BrokerInner × Bool
register_session client c will clean st =
    let existing = get client st.sessions in
    let removed = record st { sessions = remove client st.sessions } in
    let closed = take_over existing removed in
    let wiped =
      if clean
      then record closed { subscriptions = remove_client client closed.subscriptions }
      else closed in
    let entry : SubscriberEntry = record {
      connection_id = c;
      filters = [];
      will = will;
      clean_session = clean;
    } in
    (record wiped { sessions = insert client entry wiped.sessions }, not clean && is_some existing)

-- `get(client_id).filter(..)`: the entry, if it belongs to this connection.
abbrev pub own_entry : Bytes → ConnectionId → BrokerInner → Option SubscriberEntry
own_entry client c st = elim (get client st.sessions) [
  | none ↦ none
  | some entry ↦ if entry.connection_id == c then some entry else none
]

unfoldable pub unregister_session : Bytes → ConnectionId → Bool → BrokerInner → BrokerInner
unregister_session client c graceful st = elim (own_entry client c st) [
  | none ↦ st
  | some entry ↦
      let gone = record st {
        sessions = remove client st.sessions;
        subscriptions = remove_client client st.subscriptions;
      } in
      if graceful then gone else publish_will entry.will gone
]

-- `SubscriptionTree::subscribe` and the entry's own record of a filter.
unfoldable pub grant :
    Bytes → SubscriberEntry → TopicFilter → BrokerInner → SubscriberEntry × BrokerInner
grant client entry tf st =
    let entry' = record entry { filters = insert tf.filter tf.qos entry.filters } in
    (
      entry',
      record st {
        sessions = insert client entry' st.sessions;
        subscriptions = tree_subscribe client tf.filter tf.qos st.subscriptions;
      },
    )

-- One pass of the loop of `subscribe`, with what the filter's validation answered.
abbrev pub subscribe_one :
    Outcome MqttError (Unit {0})
    → Bytes
    → SubscriberEntry
    → TopicFilter
    → BrokerInner
    → (SubscriberEntry × BrokerInner) × SubackCode
subscribe_one (ok u) client entry tf st = (grant client entry tf st, SubackCode.granted tf.qos)
subscribe_one (err e) client entry tf st = ((entry, st), SubackCode.failure)
subscribe_one panic client entry tf st = ((entry, st), SubackCode.failure)

unfoldable pub subscribe_loop :
    Bytes → SubscriberEntry → List TopicFilter → BrokerInner → BrokerInner × List SubackCode
subscribe_loop client entry [] st = (st, [])
subscribe_loop client entry (tf ∷ filters) st =
    let ((entry', st'), code) =
      subscribe_one (validate_subscribe_filter tf.filter) client entry tf st in
    let (out, codes) = subscribe_loop client entry' filters st' in (out, code ∷ codes)

unfoldable pub subscribe :
    Bytes → ConnectionId → List TopicFilter → BrokerInner → BrokerInner × List SubackCode
subscribe client c filters st = elim (own_entry client c st) [
  | none ↦ (st, map (λ tf. SubackCode.failure) filters)
  | some entry ↦ subscribe_loop client entry filters st
]

unfoldable pub unsubscribe_loop : Bytes → SubscriberEntry → List Bytes → BrokerInner → BrokerInner
unsubscribe_loop client entry [] st = st
unsubscribe_loop client entry (topic ∷ topics) st =
    let entry' = record entry { filters = remove topic entry.filters } in
    unsubscribe_loop client entry' topics (record st {
      sessions = insert client entry' st.sessions;
      subscriptions = tree_unsubscribe client topic st.subscriptions;
    })

unfoldable pub unsubscribe : Bytes → ConnectionId → List Bytes → BrokerInner → BrokerInner
unsubscribe client c topics st = elim (own_entry client c st) [
  | none ↦ st
  | some entry ↦ unsubscribe_loop client entry topics st
]
