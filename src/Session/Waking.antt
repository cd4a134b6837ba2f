-- ===== src/Session/Waking.antt =====
-- session.rs: the three wakers of the session, each seen as one step.
use hotaru_mqtt.Base.{◌≡◌, ◌⊎◌, List, ◌∷◌, none, some, ◌==◌, if◌then◌else◌, arith}
use hotaru_mqtt.Request.{PacketId}
use hotaru_mqtt.Request.SubackCode.{SubackCode}
use hotaru_mqtt.DashMap.{get, remove, IsUnique, nat_key}
use hotaru_mqtt.DashMap.Laws.{get-remove}
use hotaru_mqtt.Session.{
  AckKind, AckSlot, Waiter, Resolution, MqttSession, kind_slot, wake_ack_waiter, wake_suback_waiter,
  wake_unsuback_waiter,
}

-- `s'` is `s` with the waiter in the slot `slot w` of `id` settled with `r`, if there is one.
abbrev pub Wakes :
    PacketId → (Waiter → AckSlot) → Resolution → MqttSession → MqttSession → PacketId → Type 0
Wakes id slot r s s' other =
    ((w : Waiter) × (get id s.pending_acks ≡ some (slot w))
      × (s' ≡ record s { pending_acks = remove id s.pending_acks; resolved = (w, r) ∷ s.resolved })
      × (get other s'.pending_acks ≡ (if id == other then none else get other s.pending_acks)))
    ⊎ ((¬ ((w : Waiter) × (get id s.pending_acks ≡ some (slot w)))) × (s' ≡ s))

-- On a table with one slot for an id, an ack resolves the waiter that waits under its id for an
-- ack of its kind, with that id, and removes that slot and no other; if no such waiter is parked,
-- the session stays as it is.
pub wake_ack_waiter_lem :
    (id : PacketId) (kind : AckKind) (s : MqttSession) (other : PacketId)
    → IsUnique s.pending_acks
    → Wakes id (kind_slot kind) (Resolution.acked id) s (wake_ack_waiter id kind s) other
unfolding wake_ack_waiter
wake_ack_waiter_lem id AckKind.puback s other u = ground (arith, get-remove id other s.pending_acks)
wake_ack_waiter_lem id AckKind.pubrec s other u = ground (arith, get-remove id other s.pending_acks)
wake_ack_waiter_lem id AckKind.pubcomp s other u =
    ground (arith, get-remove id other s.pending_acks)

-- On a table with one slot for an id, a SUBACK resolves the waiter that waits for it under its
-- id, with its codes, and removes that slot and no other; if no such waiter is parked, the
-- session stays as it is.
pub wake_suback_waiter_lem :
    (id : PacketId) (codes : List SubackCode) (s : MqttSession) (other : PacketId)
    → IsUnique s.pending_acks
    → Wakes id AckSlot.suback (Resolution.granted codes) s (wake_suback_waiter id codes s) other
unfolding wake_suback_waiter
wake_suback_waiter_lem id codes s other u = ground (arith, get-remove id other s.pending_acks)

-- On a table with one slot for an id, an UNSUBACK resolves the waiter that waits for it under its
-- id, and removes that slot and no other; if no such waiter is parked, the session stays as it
-- is.
pub wake_unsuback_waiter_lem :
    (id : PacketId) (s : MqttSession) (other : PacketId)
    → IsUnique s.pending_acks
    → Wakes id AckSlot.unsuback Resolution.unsubscribed s (wake_unsuback_waiter id s) other
unfolding wake_unsuback_waiter
wake_unsuback_waiter_lem id s other u = ground (arith, get-remove id other s.pending_acks)
