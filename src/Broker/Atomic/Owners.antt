-- ===== src/Broker/Atomic/Owners.antt =====
-- broker.rs: which connections the session table names, between any two map operations.
use hotaru_mqtt.Base.{
  ◌≡◌, ◌≢◌, refl, sym, ap, ◌∙◌, [], ◌∷◌, Bool, true, false, Option, some, inl, inr, arith, ◌==◌,
  ==_iff, ==_refl, Bool-cases, Option-cases, Bytes, str_eq, str_eq_iff,
}
use hotaru_mqtt.Request.{WillMessage}
use hotaru_mqtt.DashMap.{get, str_key}
use hotaru_mqtt.DashMap.Laws.{get-insert, get-remove, insert-IsUnique, remove-IsUnique}
use hotaru_mqtt.Broker.{
  SubscriberEntry, BrokerInner, ConnectionId, own_entry, take_over, publish_will, subscribe,
  unsubscribe, unregister_session,
}
use hotaru_mqtt.Broker.Sessions.{take_over-sessions, publish_will-frame}
use hotaru_mqtt.Broker.Tables.{remove_client-IsTree, remove_client-IsUnique}
use hotaru_mqtt.Broker.Invariant.{
  IsConsistent, take_over-IsConsistent, publish_will-IsConsistent, subscribe-IsConsistent,
  unsubscribe-IsConsistent, unregister_session-IsConsistent,
}
use hotaru_mqtt.Protocol.System.Owner.{
  id_in, owner, Fits, subscribe-owner, unsubscribe-owner, unregister_session-Fits,
}
use hotaru_mqtt.Broker.Atomic.{
  Stage, connecting, taken, closed, ready, serving, claimed, cleared, Interleaved, stage_of, put,
  after_claim, take_session, wipe, wipe_if, new_entry, put_session, claim, last_will, Step, take,
  end, forget, enter, leave, clear, finish, subscribed, unsubscribed, quiet, Reachable, start, more,
}

abbrev Allowed : Interleaved → Bytes → ConnectionId → Type 0
Allowed b k d = stage_of d b ≡ serving k

serving_eq : (a b : Bytes) → serving a ≡ serving b → a ≡ b
serving_eq a b h = ground arith

module _ (c : ConnectionId) (inner : BrokerInner) (stage : Stage) (b : Interleaved) where
  put_other :
      (k : Bytes) (d : ConnectionId) → d ≢ c → Allowed b k d → Allowed (put c inner stage b) k d
  put_other k d ne h = elim (Bool-cases (c == d)) [
    | inl e ↦ absurd (ne (sym ((==_iff c d).0 e)))
    | inr e ↦ rw e h
  ]

  put_same : (k : Bytes) → stage ≡ serving k → Allowed (put c inner stage b) k c
  put_same k h = rw (==_refl c) h

  -- The connection had no session before, or has it still.
  put-Fits :
      (st : BrokerInner)
      → ((k : Bytes) → Allowed b k c → stage ≡ serving k)
      → Fits (Allowed b) st
      → Fits (Allowed (put c inner stage b)) st
  put-Fits st same (cons, own) = (
    cons,
    λ k d h. elim (Bool-cases (c == d)) [
      | inl e ↦
          let at : c ≡ d = (==_iff c d).0 e in rw e (same k (ap (λ x. b.stages x) at ∙ own k d h))
      | inr e ↦ rw e (own k d h)
    ],
  )

module _ (Q : Bytes → ConnectionId → Type 0) where
  -- The same tables for their owners.
  same-Fits :
      (st st' : BrokerInner)
      → IsConsistent st'
      → ((k : Bytes) → owner k st' ≡ owner k st)
      → Fits Q st
      → Fits Q st'
  same-Fits st st' cons same (old, own) = (cons, λ k d h. own k d (sym (same k) ∙ h))

  take_session-Fits :
      (client : Bytes) (st : BrokerInner) → Fits Q st → Fits Q (take_session client st).0
  take_session-Fits client st ((u, v, w), own) = (
    (remove-IsUnique client st.sessions u, v, w),
    λ k d h. own k d (ground (arith, get-remove client k st.sessions u)),
  )

  wipe-Fits : (client : Bytes) (st : BrokerInner) → Fits Q st → Fits Q (wipe client st)
  wipe-Fits client st ((u, v, w), own) = (
    (
      u,
      remove_client-IsUnique client st.subscriptions v,
      remove_client-IsTree client st.subscriptions w,
    ),
    own,
  )

  wipe_if-Fits :
      (clean : Bool) (client : Bytes) (st : BrokerInner)
      → Fits Q st
      → Fits Q (wipe_if clean client st)
  wipe_if-Fits true client st h = wipe-Fits client st h
  wipe_if-Fits false client st h = h

  take_over-Fits :
      (existing : Option SubscriberEntry) (st : BrokerInner)
      → Fits Q st
      → Fits Q (take_over existing st)
  take_over-Fits existing st h =
      same-Fits st (take_over existing st) (take_over-IsConsistent existing st h.0)
        (λ k. ap (λ s. id_in (get k s)) (take_over-sessions existing st)) h

  last_will-Fits :
      (graceful : Bool) (entry : SubscriberEntry) (st : BrokerInner)
      → Fits Q st
      → Fits Q (last_will graceful entry st)
  last_will-Fits true entry st h = h
  last_will-Fits false entry st h =
      same-Fits st (publish_will entry.will st) (publish_will-IsConsistent entry.will st h.0)
        (λ k. ap (λ s. id_in (get k s)) (publish_will-frame entry.will st).0) h

  -- `Q'` is what a connection may have that puts its session.
  put_session-Fits :
      (client : Bytes) (entry : SubscriberEntry) (st : BrokerInner)
      → Q client entry.connection_id
      → Fits Q st
      → Fits Q (put_session client entry st)
  put_session-Fits client entry st mine ((u, v, w), own) = (
    (insert-IsUnique client entry st.sessions u, v, w),
    λ k d h. elim (Bool-cases (str_eq client k)) [
      | inl e ↦
          let same : client ≡ k = (str_eq_iff client k).0 e in
          let at : entry.connection_id ≡ d =
            ground (arith, get-insert client k entry st.sessions) in
          rw (sym same, sym at) mine
      | inr e ↦ own k d (ground (arith, get-insert client k entry st.sessions))
    ],
  )

-- The sessions after a claim are those after the whole of a graceful teardown.
claim-sessions :
    (client : Bytes) (c : ConnectionId) (st : BrokerInner)
    → ((claim client c st).0.sessions ≡ (unregister_session client c true st).sessions)
      × ((claim client c st).0.subscriptions ≡ st.subscriptions)
unfolding claim unregister_session
claim-sessions client c st = elim (Option-cases (own_entry client c st)) [
  | inl e ↦ rw (claim, unregister_session, e) (refl, refl)
  | inr (entry, e) ↦ rw (claim, unregister_session, e) (refl, refl)
]

pub claim-IsConsistent :
    (client : Bytes) (c : ConnectionId) (st : BrokerInner)
    → IsConsistent st
    → IsConsistent (claim client c st).0
claim-IsConsistent client c st (u, v, w) =
    let (s, t) = claim-sessions client c st in
    let (u', v', w') = unregister_session-IsConsistent client c true st (u, v, w) in
    (rw s u', rw t v, rw t w)

claim-Fits :
    (Q : Bytes → ConnectionId → Type 0) (client : Bytes) (c : ConnectionId) (st : BrokerInner)
    → IsConsistent st
    → Fits Q (unregister_session client c true st)
    → Fits Q (claim client c st).0
claim-Fits Q client c st cons (cons', own) =
    let (s, t) = claim-sessions client c st in
    (claim-IsConsistent client c st cons, λ k d h. own k d (sym (ap (λ x. id_in (get k x)) s) ∙ h))

module _ (b : Interleaved) (h : Fits (Allowed b) b.inner) where
  -- A connection in a stage in which it has no session, before and after.
  elsewhere :
      (c : ConnectionId) (inner : BrokerInner) (stage stage' : Stage)
      → stage_of c b ≡ stage
      → ((k : Bytes) → stage ≢ serving k)
      → Fits (Allowed b) inner
      → Fits (Allowed (put c inner stage' b)) inner
  elsewhere c inner stage stage' at none_here fits =
      put-Fits c inner stage' b inner (λ k x. absurd (none_here k (sym at ∙ x))) fits

  enter-Fits :
      (c : ConnectionId) (client : Bytes) (will : Option WillMessage) (clean : Bool)
      → stage_of c b ≡ ready client will clean
      → let inner = put_session client (new_entry c will clean) b.inner in
        Fits (Allowed (put c inner (serving client) b)) inner
  enter-Fits c client will clean at =
      let inner = put_session client (new_entry c will clean) b.inner in
      put_session-Fits (Allowed (put c inner (serving client) b)) client (new_entry c will clean)
        b.inner (put_same c inner (serving client) b client refl)
        (elsewhere c b.inner (ready client will clean) (serving client) at (λ k x. ground arith) h)

  leave-Fits :
      (c : ConnectionId) (client : Bytes) (graceful : Bool)
      → stage_of c b ≡ serving client
      → let (inner, entry) = claim client c b.inner in
        Fits (Allowed (put c inner (after_claim client graceful entry) b)) inner
  leave-Fits c client graceful at =
      let (inner, entry) = claim client c b.inner in
      let next = after_claim client graceful entry in
      claim-Fits (Allowed (put c inner next b)) client c b.inner h.0 (
        unregister_session-Fits (Allowed b) (Allowed (put c inner next b)) c
          (put_other c inner next b) client true b.inner (λ k x. serving_eq k client (sym x ∙ at))
          h)

Step-Fits : {b b' : Interleaved} → Step b b' → Fits (Allowed b) b.inner → Fits (Allowed b') b'.inner
Step-Fits {b} (take c client will clean at) h =
    elsewhere b h c ((take_session client b.inner).0) connecting _ at (λ k x. ground arith)
      (take_session-Fits (Allowed b) client b.inner h)
Step-Fits {b} (end c client will clean existing at) h =
    elsewhere b h c (take_over existing b.inner) (taken client will clean existing) _ at
      (λ k x. ground arith) (take_over-Fits (Allowed b) existing b.inner h)
Step-Fits {b} (forget c client will clean at) h =
    elsewhere b h c (wipe_if clean client b.inner) (closed client will clean) _ at
      (λ k x. ground arith) (wipe_if-Fits (Allowed b) clean client b.inner h)
Step-Fits {b} (enter c client will clean at) h = enter-Fits b h c client will clean at
Step-Fits {b} (leave c client graceful at) h = leave-Fits b h c client graceful at
Step-Fits {b} (clear c client entry graceful at) h =
    elsewhere b h c (wipe client b.inner) (claimed client entry graceful) _ at (λ k x. ground arith)
      (wipe-Fits (Allowed b) client b.inner h)
Step-Fits {b} (finish c entry graceful at) h =
    elsewhere b h c (last_will graceful entry b.inner) (cleared entry graceful) _ at
      (λ k x. ground arith) (last_will-Fits (Allowed b) graceful entry b.inner h)
Step-Fits {b} (subscribed c client tf at) h =
    same-Fits (Allowed b) b.inner (subscribe client c (tf ∷ []) b.inner).0
      (subscribe-IsConsistent client c (tf ∷ []) b.inner h.0)
      (λ k. subscribe-owner client k c (tf ∷ []) b.inner) h
Step-Fits {b} (unsubscribed c client topic at) h =
    same-Fits (Allowed b) b.inner (unsubscribe client c (topic ∷ []) b.inner)
      (unsubscribe-IsConsistent client c (topic ∷ []) b.inner h.0)
      (λ k. unsubscribe-owner client k c (topic ∷ []) b.inner) h
Step-Fits (quiet channels) h = h

Reachable-Fits : {b : Interleaved} → Reachable b → Fits (Allowed b) b.inner
unfolding get
Reachable-Fits (start channels) = ((tt, tt, tt), λ k c h. absurd (ground arith))
Reachable-Fits (more r step) = Step-Fits step (Reachable-Fits r)

-- In every state that connections of a new broker reach, when the map operations that
-- registrations and teardowns are made of interleave in any way, with filters subscribed and
-- unsubscribed and with publishes between them, a connection that the session table names for a
-- client is in the loop that serves that client, neither before its registration is complete nor
-- after it has given the session up, and the tables are without duplicates.
pub owners_serve :
    {b : Interleaved} (client : Bytes) (c : ConnectionId)
    → Reachable b
    → owner client b.inner ≡ some c
    → (stage_of c b ≡ serving client) × IsConsistent b.inner
owners_serve client c r h = let (cons, own) = Reachable-Fits r in (own client c h, cons)
