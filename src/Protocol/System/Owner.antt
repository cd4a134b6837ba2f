-- ===== src/Protocol/System/Owner.antt =====
-- broker.rs: the connection that a client's session belongs to, under the broker's operations.
use hotaru_mqtt.Base.{
  ◌≡◌, ◌≢◌, refl, sym, ap, ◌∙◌, List, [], ◌∷◌, Bool, Option, none, some, inl, inr, arith, ◌==◌,
  ==_iff, if◌then◌else◌, Bool-cases, Option-cases, Bytes, str_eq, str_eq_iff, Outcome, ok, err,
  panic,
}
use hotaru_mqtt.Error.{MqttError}
use hotaru_mqtt.Request.{WillMessage, TopicFilter}
use hotaru_mqtt.Topic.{validate_subscribe_filter}
use hotaru_mqtt.DashMap.{get, insert, remove, str_key}
use hotaru_mqtt.DashMap.Laws.{get-insert}
use hotaru_mqtt.Broker.{
  BrokerInner, SubscriberEntry, ConnectionId, own_entry, register_session, unregister_session,
  grant, subscribe_one, subscribe_loop, subscribe, unsubscribe_loop, unsubscribe, tree_unsubscribe,
}
use hotaru_mqtt.Broker.Sessions.{register_session_lem}
use hotaru_mqtt.Broker.Table.{unregister_session_lem}
use hotaru_mqtt.Broker.Invariant.{
  IsConsistent, register_session-IsConsistent, unregister_session-IsConsistent,
}

abbrev pub id_in : Option SubscriberEntry → Option ConnectionId
id_in none = none
id_in (some entry) = some entry.connection_id

-- The connection of a client's session.
abbrev pub owner : Bytes → BrokerInner → Option ConnectionId
owner k st = id_in (get k st.sessions)

-- The tables are in order, and each session is one that `Q` allows.
abbrev pub Fits : (Bytes → ConnectionId → Type 0) → BrokerInner → Type 0
Fits Q st = IsConsistent st × ((k : Bytes) (c : ConnectionId) → owner k st ≡ some c → Q k c)

-- Replacing an entry by one of the same connection.
insert-owner :
    (client k : Bytes) (entry : SubscriberEntry) (sessions : List (Bytes × SubscriberEntry))
    → id_in (get client sessions) ≡ some entry.connection_id
    → id_in (get k (insert client entry sessions)) ≡ id_in (get k sessions)
insert-owner client k entry sessions h = elim (Bool-cases (str_eq client k)) [
  | inl e ↦
      let same : client ≡ k = (str_eq_iff client k).0 e in
      rw (get-insert client k entry sessions, e) (sym h ∙ ap (λ x. id_in (get x sessions)) same)
  | inr e ↦ rw (get-insert client k entry sessions, e) refl
]

subscribe_one-owner :
    (verdict : Outcome MqttError (Unit {0})) (client k : Bytes) (entry : SubscriberEntry)
    (tf : TopicFilter) (st : BrokerInner)
    → owner client st ≡ some entry.connection_id
    → ((subscribe_one verdict client entry tf st).0.0.connection_id ≡ entry.connection_id)
      × (owner k (subscribe_one verdict client entry tf st).0.1 ≡ owner k st)
unfolding grant
subscribe_one-owner (ok u) client k entry tf st h =
    let entry' : SubscriberEntry = record entry {
      filters = insert tf.filter tf.qos entry.filters;
    } in
    (refl, insert-owner client k entry' st.sessions h)
subscribe_one-owner (err e) client k entry tf st h = (refl, refl)
subscribe_one-owner panic client k entry tf st h = (refl, refl)

subscribe_loop-owner :
    (client k : Bytes) (entry : SubscriberEntry) (filters : List TopicFilter) (st : BrokerInner)
    → owner client st ≡ some entry.connection_id
    → owner k (subscribe_loop client entry filters st).0 ≡ owner k st
unfolding subscribe_loop
subscribe_loop-owner client k entry [] st h = refl
subscribe_loop-owner client k entry (tf ∷ filters) st h =
    let verdict = validate_subscribe_filter tf.filter in
    let step = subscribe_one verdict client entry tf st in
    let (same, at_client) = subscribe_one-owner verdict client client entry tf st h in
    subscribe_loop-owner client k step.0.0 filters step.0.1 (at_client ∙ h ∙ ap some (sym same))
    ∙ (subscribe_one-owner verdict client k entry tf st h).1

unsubscribe_loop-owner :
    (client k : Bytes) (entry : SubscriberEntry) (topics : List Bytes) (st : BrokerInner)
    → owner client st ≡ some entry.connection_id
    → owner k (unsubscribe_loop client entry topics st) ≡ owner k st
unfolding unsubscribe_loop
unsubscribe_loop-owner client k entry [] st h = refl
unsubscribe_loop-owner client k entry (topic ∷ topics) st h =
    let entry' : SubscriberEntry = record entry { filters = remove topic entry.filters } in
    let st' : BrokerInner = record st {
      sessions = insert client entry' st.sessions;
      subscriptions = tree_unsubscribe client topic st.subscriptions;
    } in
    unsubscribe_loop-owner client k entry' topics st'
      (insert-owner client client entry' st.sessions h ∙ h)
    ∙ insert-owner client k entry' st.sessions h

-- The entry that a request works on is the client's own.
own_entry-owner :
    (client : Bytes) (c : ConnectionId) (st : BrokerInner) (entry : SubscriberEntry)
    → own_entry client c st ≡ some entry
    → owner client st ≡ some entry.connection_id
own_entry-owner client c st entry h = ground arith

pub subscribe-owner :
    (client k : Bytes) (c : ConnectionId) (filters : List TopicFilter) (st : BrokerInner)
    → owner k (subscribe client c filters st).0 ≡ owner k st
unfolding subscribe
subscribe-owner client k c filters st = elim (Option-cases (own_entry client c st)) [
  | inl e ↦ rw (subscribe, e) refl
  | inr (entry, e) ↦
      rw (subscribe, e)
        (subscribe_loop-owner client k entry filters st (own_entry-owner client c st entry e))
]

pub unsubscribe-owner :
    (client k : Bytes) (c : ConnectionId) (topics : List Bytes) (st : BrokerInner)
    → owner k (unsubscribe client c topics st) ≡ owner k st
unfolding unsubscribe
unsubscribe-owner client k c topics st = elim (Option-cases (own_entry client c st)) [
  | inl e ↦ rw (unsubscribe, e) refl
  | inr (entry, e) ↦
      rw (unsubscribe, e)
        (unsubscribe_loop-owner client k entry topics st (own_entry-owner client c st entry e))
]

pub register_session-owner :
    (client k : Bytes) (c : ConnectionId) (will : Option WillMessage) (clean : Bool)
    (st : BrokerInner)
    → IsConsistent st
    → owner k (register_session client c will clean st).0
      ≡ (if str_eq client k then some c else owner k st)
register_session-owner client k c will clean st cons =
    ap id_in (register_session_lem client c will clean st k cons.0)
    ∙ elim (Bool-cases (str_eq client k)) [ inl e ↦ rw e refl | inr e ↦ rw e refl ]

-- A connection that does not own the client's session has nothing to end.
not_own :
    (client : Bytes) (c : ConnectionId) (st : BrokerInner)
    → owner client st ≢ some c
    → own_entry client c st ≡ none
not_own client c st h = ground arith

unregister_session_other :
    (client : Bytes) (c : ConnectionId) (graceful : Bool) (st : BrokerInner)
    → owner client st ≢ some c
    → unregister_session client c graceful st ≡ st
unfolding unregister_session
unregister_session_other client c graceful st h =
    rw (unregister_session, not_own client c st h) refl

unregister_session-owner :
    (client k : Bytes) (c : ConnectionId) (graceful : Bool) (st : BrokerInner)
    (entry : SubscriberEntry)
    → get client st.sessions ≡ some entry
    → entry.connection_id ≡ c
    → IsConsistent st
    → owner k (unregister_session client c graceful st)
      ≡ (if str_eq client k then none else owner k st)
unregister_session-owner client k c graceful st entry h same (u, v, w) = rw (sym same) (
    ap id_in (unregister_session_lem client graceful st entry k [] h u w).0
    ∙ elim (Bool-cases (str_eq client k)) [ inl e ↦ rw e refl | inr e ↦ rw e refl ])

unregister_leaves :
    (client k : Bytes) (c d : ConnectionId) (graceful : Bool) (st : BrokerInner)
    → IsConsistent st
    → (owner k st ≡ some c → k ≡ client)
    → owner k (unregister_session client c graceful st) ≡ some d
    → (owner k st ≡ some d) × (d ≢ c)
unregister_leaves client k c d graceful st cons only h =
    elim (Option-cases (get client st.sessions)) [
      | inl e ↦ not_owned (λ at. ground arith)
      | inr (entry, e) ↦ elim (Bool-cases (entry.connection_id == c)) [
        | inl own ↦
            let law =
              unregister_session-owner client k c graceful st entry e
                ((==_iff entry.connection_id c).0 own) cons in
            elim (Bool-cases (str_eq client k)) [
              | inl same ↦ absurd (ground (arith, law))
              | inr apart ↦
                  let before : owner k st ≡ some d = ground (arith, law) in
                  (before, λ at. ground (arith, str_eq_iff client k, only (before ∙ ap some at)))
            ]
        | inr other ↦ not_owned (λ at. ground arith)
      ]
    ]
  where
    not_owned : owner client st ≢ some c → (owner k st ≡ some d) × (d ≢ c)
    not_owned ne =
        let before : owner k st ≡ some d =
          (rw (unregister_session_other client c graceful st ne) at h) in
        (
          before,
          λ at. ne (ap (λ x. owner x st) (sym (only (before ∙ ap some at))) ∙ before ∙ ap some at),
        )

module _ (Q Q' : Bytes → ConnectionId → Type 0) (c : ConnectionId)
    (kept : (k : Bytes) (d : ConnectionId) → d ≢ c → Q k d → Q' k d) where
  -- A connection that has no session registers one.
  pub register_session-Fits :
      (client : Bytes) (will : Option WillMessage) (clean : Bool) (st : BrokerInner)
      → ((k : Bytes) → ¬ Q k c)
      → Q' client c
      → Fits Q st
      → Fits Q' (register_session client c will clean st).0
  register_session-Fits client will clean st unused granted (cons, own) = (
    register_session-IsConsistent client c will clean st cons,
    λ k d h. elim (Bool-cases (str_eq client k)) [
      | inl e ↦
          let same : client ≡ k = (str_eq_iff client k).0 e in
          let at : c ≡ d = ground (arith, register_session-owner client k c will clean st cons) in
          rw (sym same, sym at) granted
      | inr e ↦
          let before : owner k st ≡ some d =
            ground (arith, register_session-owner client k c will clean st cons) in
          kept k d (λ at. unused k (rw (sym at) (own k d before))) (own k d before)
    ],
  )

  -- A connection ends the session that it may have.
  pub unregister_session-Fits :
      (client : Bytes) (graceful : Bool) (st : BrokerInner)
      → ((k : Bytes) → Q k c → k ≡ client)
      → Fits Q st
      → Fits Q' (unregister_session client c graceful st)
  unregister_session-Fits client graceful st only (cons, own) = (
    unregister_session-IsConsistent client c graceful st cons,
    λ k d h.
        let (before, other) =
          unregister_leaves client k c d graceful st cons (λ at. only k (own k c at)) h in
        kept k d other (own k d before),
  )
