-- ===== src/Broker/Atomic/Parts.antt =====
-- broker.rs: the operations on the session table are their parts, one after the other.
use hotaru_mqtt.Base.{
  ◌≡◌, refl, Bool, true, false, not, ◌&&◌, Option, none, some, inl, inr, Option-cases, Bytes,
}
use hotaru_mqtt.Request.{WillMessage}
use hotaru_mqtt.Broker.{
  SubscriberEntry, BrokerInner, ConnectionId, register_session, unregister_session, own_entry,
  take_over, is_some,
}
use hotaru_mqtt.Broker.Atomic.{
  take_session, wipe, wipe_if, new_entry, put_session, claim, last_will,
}

-- The parts of a teardown, by what the claim found.
abbrev pub tear_down : Bytes → Bool → BrokerInner × Option SubscriberEntry → BrokerInner
tear_down client graceful (st, none) = st
tear_down client graceful (st, some entry) = last_will graceful entry (wipe client st)

register_in_parts :
    (client : Bytes) (c : ConnectionId) (will : Option WillMessage) (clean : Bool)
    (st : BrokerInner)
    → register_session client c will clean st ≡ (
        let (removed, existing) = take_session client st in
        (
          put_session client
              (new_entry c will clean)
              (wipe_if clean client (take_over existing removed)),
          not clean && is_some existing,
        ))
unfolding register_session
register_in_parts client c will true st = refl
register_in_parts client c will false st = refl

unregister_in_parts :
    (client : Bytes) (c : ConnectionId) (graceful : Bool) (st : BrokerInner)
    → unregister_session client c graceful st ≡ tear_down client graceful (claim client c st)
unfolding unregister_session claim
unregister_in_parts client c true st = elim (Option-cases (own_entry client c st)) [
  | inl e ↦ rw (unregister_session, claim, e) refl
  | inr (entry, e) ↦ rw (unregister_session, claim, e) refl
]
unregister_in_parts client c false st = elim (Option-cases (own_entry client c st)) [
  | inl e ↦ rw (unregister_session, claim, e) refl
  | inr (entry, e) ↦ rw (unregister_session, claim, e) refl
]

-- A registration is, when nothing comes between its parts, the removal of the session, the
-- takeover of the one removed, for a clean session the removal of the subscriptions, and the
-- insertion of a new session; a teardown is the removal of the session if it belongs to this
-- connection, and if it did the removal of the subscriptions and, unless graceful, the Will.
pub in_parts :
    (client : Bytes) (c : ConnectionId) (will : Option WillMessage) (clean graceful : Bool)
    (st : BrokerInner)
    → (register_session client c will clean st ≡ (
      put_session client
          (new_entry c will clean)
          (wipe_if clean client (take_over (take_session client st).1 (take_session client st).0)),
      not clean && is_some (take_session client st).1,
    ))
      × (unregister_session client c graceful st ≡ tear_down client graceful (claim client c st))
in_parts client c will clean graceful st =
    (register_in_parts client c will clean st, unregister_in_parts client c graceful st)
