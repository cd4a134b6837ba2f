-- ===== src/Broker/Table.antt =====
-- broker.rs `SubscriptionTree`: its operations on the qos that a client holds for a filter, and
-- `unregister_session` by the connection that owns the session.
use hotaru_mqtt.Base.{
  ◌≡◌, refl, sym, ap, ◌∙◌, [], ◌∷◌, Bool, true, false, ◌&&◌, Option, none, some, inl, inr, arith,
  ==_refl, if◌then◌else◌, Bool-cases, Bytes, str_eq, str_eq_iff,
}
use hotaru_mqtt.Request.Qos.{Qos}
use hotaru_mqtt.DashMap.{get, insert, remove, IsUnique, str_key}
use hotaru_mqtt.DashMap.Laws.{get-insert, get-remove}
use hotaru_mqtt.Broker.{
  BrokerInner, SubscriberEntry, SubscriptionTree, or_empty, own_entry, tree_subscribe,
  remove_client, unregister_session,
}
use hotaru_mqtt.Broker.Sessions.{publish_will-frame}

-- The qos of the subscription of `client` to `filter`.
abbrev pub qos_of : Bytes → Bytes → SubscriptionTree → Option Qos
qos_of client filter subs = get client (or_empty (get filter subs))

-- Each filter lists a client once.
abbrev pub IsTree : SubscriptionTree → Type 0
IsTree [] = Unit {0}
IsTree ((filter, set) ∷ subs) = IsUnique set × IsTree subs

pub get-IsTree :
    (filter : Bytes) (subs : SubscriptionTree) → IsTree subs → IsUnique (or_empty (get filter subs))
unfolding get
get-IsTree filter [] u = tt
get-IsTree filter ((f, set) ∷ subs) (u, us) = elim (Bool-cases (str_eq f filter)) [
  | inl e ↦ rw e u
  | inr e ↦ rw e (get-IsTree filter subs us)
]

abbrev pub override : Bool → Option Qos → Option Qos → Option Qos
override b x y = if b then x else y

-- Subscribing a client to a filter sets the qos that it holds for that filter, and leaves every
-- other client and filter as it was.
pub tree_subscribe_lem :
    (client filter : Bytes) (q : Qos) (subs : SubscriptionTree) (other f : Bytes)
    → qos_of other f (tree_subscribe client filter q subs)
      ≡ override (str_eq filter f && str_eq client other) (some q) (qos_of other f subs)
unfolding tree_subscribe
tree_subscribe_lem client filter q subs other f =
    let set = insert client q (or_empty (get filter subs)) in
    elim (Bool-cases (str_eq filter f)) [
      | inl e ↦
          rw
            (
              get-insert filter f set subs,
              e,
              get-insert client other q (or_empty (get filter subs)),
            )
            (rw (sym ((str_eq_iff filter f).0 e)) refl)
      | inr e ↦ rw (get-insert filter f set subs, e) refl
    ]

pub remove_client_lem :
    (client : Bytes) (subs : SubscriptionTree) (other f : Bytes)
    → IsTree subs
    → qos_of other f (remove_client client subs)
      ≡ override (str_eq client other) none (qos_of other f subs)
unfolding remove_client get
remove_client_lem client [] other f u = ground arith
remove_client_lem client ((g, set) ∷ subs) other f (u, us) = elim (Bool-cases (str_eq g f)) [
  | inl e ↦ rw e (get-remove client other set u)
  | inr e ↦ rw e (remove_client_lem client subs other f us)
]

-- The tables that are left when the owner of the session ends it.
unregister_session-tables :
    (client : Bytes) (graceful : Bool) (st : BrokerInner) (entry : SubscriberEntry)
    → get client st.sessions ≡ some entry
    → let after = unregister_session client entry.connection_id graceful st in
      (after.sessions ≡ remove client st.sessions)
      × (after.subscriptions ≡ remove_client client st.subscriptions)
unfolding unregister_session
unregister_session-tables client true st entry h =
    rw (unregister_session, own_entry, h, ==_refl entry.connection_id) (refl, refl)
unregister_session-tables client false st entry h =
    let gone : BrokerInner = record st {
      sessions = remove client st.sessions;
      subscriptions = remove_client client st.subscriptions;
    } in
    let (s, t, o) = publish_will-frame entry.will gone in
    rw (unregister_session, own_entry, h, ==_refl entry.connection_id) (s, t)

-- On tables without duplicates, when the connection that owns the session of a client ends it,
-- gracefully or not, the session and all subscriptions of that client are gone, and those of the
-- others are as they were.
pub unregister_session_lem :
    (client : Bytes) (graceful : Bool) (st : BrokerInner) (entry : SubscriberEntry)
    (other f : Bytes)
    → get client st.sessions ≡ some entry
    → IsUnique st.sessions
    → IsTree st.subscriptions
    → let after = unregister_session client entry.connection_id graceful st in
      (get other after.sessions ≡ (if str_eq client other then none else get other st.sessions))
      × (qos_of other f after.subscriptions
          ≡ override (str_eq client other) none (qos_of other f st.subscriptions))
unregister_session_lem client graceful st entry other f h u us =
    let (s, t) = unregister_session-tables client graceful st entry h in
    (
      ap (λ x. get other x) s ∙ get-remove client other st.sessions u,
      ap (λ x. qos_of other f x) t ∙ remove_client_lem client st.subscriptions other f us,
    )
