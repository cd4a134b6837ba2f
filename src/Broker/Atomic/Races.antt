-- ===== src/Broker/Atomic/Races.antt =====
-- broker.rs: what can go wrong between two map operations.
use hotaru_mqtt.Base.{
  ◌≡◌, ◌≢◌, refl, ap, ◌∙◌, [], ◌∷◌, Bool, true, false, Option, none, some, inl, inr, arith, ◌==◌,
  ==_iff, Bool-cases, Bytes, str_eq_refl, ok,
}
use hotaru_mqtt.Request.{WillMessage, TopicFilter}
use hotaru_mqtt.Request.SubackCode.{SubackCode}
use hotaru_mqtt.Topic.{validate_subscribe_filter}
use hotaru_mqtt.DashMap.{get, str_key}
use hotaru_mqtt.DashMap.Laws.{get-insert_self, get-remove}
use hotaru_mqtt.Channel.{close}
use hotaru_mqtt.Broker.{
  SubscriberEntry, BrokerInner, ConnectionId, own_entry, take_over, subscribe, register_session,
  set_channel,
}
use hotaru_mqtt.Broker.Table.{qos_of, remove_client_lem}
use hotaru_mqtt.Broker.Sessions.{publish_will-frame, register_session_lem}
use hotaru_mqtt.Broker.Invariant.{
  IsConsistent, register_session-IsConsistent, subscribe-IsConsistent,
}
use hotaru_mqtt.Protocol.System.Owner.{id_in, owner}
use hotaru_mqtt.Broker.Granting.{subscribed_one, own_found, granted_one}
use hotaru_mqtt.Broker.Atomic.{take_session, wipe, wipe_if, new_entry, put_session, claim}
use hotaru_mqtt.Broker.Atomic.Owners.{claim-IsConsistent}

-- On consistent tables, when a connection has given up the session of a client and the client
-- registers and subscribes a valid filter over a new connection before the old one removes the
-- subscriptions, the filter is granted and in the table; once the old connection removes them,
-- the new one still owns the session and the filter is in the table no more.
pub subscription_is_lost :
    (client : Bytes) (old new : ConnectionId) (will : Option WillMessage) (clean : Bool)
    (tf : TopicFilter) (st : BrokerInner)
    → IsConsistent st
    → owner client st ≡ some old
    → validate_subscribe_filter tf.filter ≡ ok tt
    → let entered = (register_session client new will clean (claim client old st).0).0 in
      let (subscribed, codes) = subscribe client new (tf ∷ []) entered in
      (codes ≡ SubackCode.granted tf.qos ∷ [])
      × (qos_of client tf.filter subscribed.subscriptions ≡ some tf.qos)
      × (owner client (wipe client subscribed) ≡ some new)
      × (qos_of client tf.filter (wipe client subscribed).subscriptions ≡ none)
subscription_is_lost client old new will clean tf st cons own valid =
    let claimed = (claim client old st).0 in
    let consistent = claim-IsConsistent client old st cons in
    let entered = (register_session client new will clean claimed).0 in
    let consistent' = register_session-IsConsistent client new will clean claimed consistent in
    let subscribed = (subscribe client new (tf ∷ []) entered).0 in
    let (u, v, tree) = subscribe-IsConsistent client new (tf ∷ []) entered consistent' in
    let entry : SubscriberEntry = new_entry new will clean in
    let found : get client entered.sessions ≡ some entry =
      register_session_lem client new will clean claimed client consistent.0
      ∙ rw (str_eq_refl client) refl in
    let mine : own_entry client new entered ≡ some entry =
      own_found client new entered entry found refl in
    let done = subscribed_one client new tf entered entry mine valid in
    let (qos, owned) = granted_one client entry tf entered in
    (
      ap (λ x. x.1) done,
      ap (λ x. qos_of client tf.filter x.0.subscriptions) done ∙ qos,
      ap (λ x. owner client x.0) done ∙ owned,
      remove_client_lem client subscribed.subscriptions client tf.filter tree
          ∙ rw (str_eq_refl client) refl,
    )

-- The takeover of another connection leaves this one open.
take_over_other :
    (c : ConnectionId) (existing : Option SubscriberEntry) (st : BrokerInner)
    → id_in existing ≢ some c
    → ((take_over existing st).channels c).is_open ≡ (st.channels c).is_open
unfolding take_over
take_over_other c none st h = refl
take_over_other c (some prev) st h = elim (Bool-cases (prev.connection_id == c)) [
  | inl e ↦ absurd (h (ap some ((==_iff prev.connection_id c).0 e)))
  | inr e ↦
      (publish_will-frame prev.will
          (set_channel prev.connection_id (close (st.channels prev.connection_id)) st)).2
        c
      ∙ rw e refl
]

wipe_if-channels :
    (clean : Bool) (client : Bytes) (st : BrokerInner)
    → (wipe_if clean client st).channels ≡ st.channels
wipe_if-channels true client st = refl
wipe_if-channels false client st = refl

-- Two connections of one client: both take before either puts.
abbrev pub both_taken : Bytes → BrokerInner → BrokerInner
both_taken client st = (take_session client (take_session client st).0).0

abbrev pub first_enters :
    Bytes → ConnectionId → Option WillMessage → Bool → BrokerInner → BrokerInner
first_enters client c will clean st =
    put_session client (new_entry c will clean)
      (wipe_if clean client (take_over (take_session client st).1 (both_taken client st)))

abbrev pub second_enters :
    Bytes → ConnectionId → Option WillMessage → Bool → BrokerInner → BrokerInner → BrokerInner
second_enters client d will clean st entered =
    put_session client (new_entry d will clean)
      (wipe_if clean client (take_over (take_session client (take_session client st).0).1 entered))

-- On consistent tables, when two connections of one client both remove its session before either
-- inserts its own, and the first is open and did not own the session, then after the first
-- inserts, the table names the first, and after the second inserts it names the second while the
-- first is still open: no takeover closes it.
pub takeover_is_missed :
    (client : Bytes) (c d : ConnectionId) (will will' : Option WillMessage) (clean clean' : Bool)
    (st : BrokerInner)
    → IsConsistent st
    → owner client st ≢ some c
    → (st.channels c).is_open ≡ true
    → let entered = first_enters client c will clean st in
      let both = second_enters client d will' clean' st entered in
      (owner client entered ≡ some c)
      × (owner client both ≡ some d)
      × ((both.channels c).is_open ≡ true)
takeover_is_missed client c d will will' clean clean' st (u, v, w) other opened =
    let entered = first_enters client c will clean st in
    let none_left : (take_session client (take_session client st).0).1 ≡ none =
      get-remove client client st.sessions u ∙ rw (str_eq_refl client) refl in
    (
      ap id_in (get-insert_self client (new_entry c will clean) _),
      ap id_in (get-insert_self client (new_entry d will' clean') _),
      ap (λ f. (f c).is_open) (wipe_if-channels clean' client _)
          ∙ ap (λ x. ((take_over x entered).channels c).is_open) none_left
          ∙ take_over_other c none entered (λ at. ground arith)
          ∙ ap (λ f. (f c).is_open) (wipe_if-channels clean client _)
          ∙ take_over_other c (get client st.sessions) (both_taken client st) other
          ∙ opened,
    )
