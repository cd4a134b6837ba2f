-- ===== src/Protocol/Send/Failure.antt =====
-- protocol/send.rs with the dispatch of client.rs: operations that fail.
use hotaru_mqtt.Base.{
  ◌≡◌, refl, ap, ◌∙◌, List, [], ◌∷◌, true, none, some, inl, inr, arith, ◌==◌, ==_iff, if◌then◌else◌,
  Option-cases, err,
}
use hotaru_mqtt.Error.{MqttError, TimeoutKind}
use hotaru_mqtt.Request.{PacketId}
use hotaru_mqtt.DashMap.{get, IsUnique, nat_key}
use hotaru_mqtt.DashMap.Laws.{get-remove}
use hotaru_mqtt.Session.{
  AckSlot, Waiter, Resolution, MqttSession, cancel_ack_waiter, waiter_of, drop_all, abandon,
}
use hotaru_mqtt.Channel.{MqttChannel}
use hotaru_mqtt.Protocol.{with_session}
use hotaru_mqtt.Protocol.Send.{
  Await, puback, pubrec, pubcomp, resume, suback, unsuback, resume_puback, resume_pubrec,
  resume_pubcomp, resume_suback, resume_unsuback, await_ack,
}
use hotaru_mqtt.Channel.{close}

-- The id, the receiver and the slot of a wait.
abbrev pub id_of : Await → PacketId
id_of (puback id w) = id
id_of (pubrec id w) = id
id_of (pubcomp id w) = id
id_of (suback id w) = id
id_of (unsuback id w) = id

abbrev pub slot_of : Await → AckSlot
slot_of (puback id w) = AckSlot.puback w
slot_of (pubrec id w) = AckSlot.pubrec w
slot_of (pubcomp id w) = AckSlot.pubcomp w
slot_of (suback id w) = AckSlot.suback w
slot_of (unsuback id w) = AckSlot.unsuback w

-- A wait whose time is up.
pub elapsed_lem :
    (a : Await) (ch : MqttChannel)
    → get (waiter_of (slot_of a)) ch.session.resolved ≡ none
    → resume a ch
      ≡ (with_session (cancel_ack_waiter (id_of a)) ch, err (MqttError.timeout TimeoutKind.ack))
unfolding resume resume_puback resume_pubrec resume_pubcomp resume_suback resume_unsuback await_ack
elapsed_lem (puback id w) ch h = rw (resume, resume_puback, await_ack, h) refl
elapsed_lem (pubrec id w) ch h = rw (resume, resume_pubrec, await_ack, h) refl
elapsed_lem (pubcomp id w) ch h = rw (resume, resume_pubcomp, await_ack, h) refl
elapsed_lem (suback id w) ch h = rw (resume, resume_suback, await_ack, h) refl
elapsed_lem (unsuback id w) ch h = rw (resume, resume_unsuback, await_ack, h) refl

-- A wait whose sender was dropped.
dropped_lem :
    (a : Await) (ch : MqttChannel)
    → get (waiter_of (slot_of a)) ch.session.resolved ≡ some Resolution.dropped
    → resume a ch ≡ (ch, err MqttError.channel_closed)
unfolding resume resume_puback resume_pubrec resume_pubcomp resume_suback resume_unsuback await_ack
dropped_lem (puback id w) ch h = rw (resume, resume_puback, await_ack, h) refl
dropped_lem (pubrec id w) ch h = rw (resume, resume_pubrec, await_ack, h) refl
dropped_lem (pubcomp id w) ch h = rw (resume, resume_pubcomp, await_ack, h) refl
dropped_lem (suback id w) ch h = rw (resume, resume_suback, await_ack, h) refl
dropped_lem (unsuback id w) ch h = rw (resume, resume_unsuback, await_ack, h) refl

cancelled :
    (id other : PacketId) (s : MqttSession)
    → IsUnique s.pending_acks
    → get other (cancel_ack_waiter id s).pending_acks
      ≡ (if id == other then none else get other s.pending_acks)
unfolding cancel_ack_waiter
cancelled id other s u = elim (Option-cases (get id s.pending_acks)) [
  | inl e ↦ rw (cancel_ack_waiter, e) (get-remove id other s.pending_acks u)
  | inr (old, e) ↦ rw (cancel_ack_waiter, e) (get-remove id other s.pending_acks u)
]

-- Every waiter that is parked is dropped with the table.
drop_all-get :
    (id : PacketId) (slot : AckSlot) (m : List (PacketId × AckSlot))
    (out : List (Waiter × Resolution))
    → get id m ≡ some slot
    → get (waiter_of slot) (drop_all m out) ≡ some Resolution.dropped
unfolding get
drop_all-get id slot [] out h = absurd (ground arith)
drop_all-get id slot ((k, v) ∷ m) out h =
    ground (arith, ==_iff (waiter_of v) (waiter_of slot), drop_all-get id slot m out)

-- On a table with one slot for an id, an operation whose waiter has got nothing when it is
-- resumed fails with a timeout, and frees the slot of its id and no other.
pub resume_timeout :
    (a : Await) (ch : MqttChannel) (other : PacketId)
    → IsUnique ch.session.pending_acks
    → get (waiter_of (slot_of a)) ch.session.resolved ≡ none
    → ((resume a ch).1 ≡ err (MqttError.timeout TimeoutKind.ack))
      × (get other (resume a ch).0.session.pending_acks
          ≡ (if id_of a == other then none else get other ch.session.pending_acks))
resume_timeout a ch other u h = (
  ap (λ r. r.1) (elapsed_lem a ch h),
  ap (λ r. get other r.0.session.pending_acks) (elapsed_lem a ch h)
      ∙ cancelled (id_of a) other ch.session u,
)

-- Closing an open channel makes every operation that is parked on it fail with a closed channel.
pub resume-close :
    (a : Await) (ch : MqttChannel)
    → ch.is_open ≡ true
    → get (id_of a) ch.session.pending_acks ≡ some (slot_of a)
    → resume a (close ch) ≡ (close ch, err MqttError.channel_closed)
unfolding close abandon
resume-close a ch opened parked = dropped_lem a (close ch) (
    rw (close, opened)
      (drop_all-get (id_of a) (slot_of a) ch.session.pending_acks ch.session.resolved parked))
