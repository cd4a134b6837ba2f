-- ===== src/Session.antt =====
-- session.rs: the session of one connection. A oneshot channel is a number, given out by
-- `next_waiter`; `resolved` records what each receiver got, `dropped` where its sender was
-- dropped. A DashMap call is one atomic step, and a waker is two of them.
pub mod Ids
pub mod Waking
pub mod Accounts
pub mod Qos2
use hotaru_mqtt.Base.{
  ℕ, suc, ◌+◌, ◌≡◌, List, [], ◌∷◌, Bool, true, false, Option, none, some, ◌==◌, if◌then◌else◌,
  Outcome, ok, err, Bytes, u16,
}
use hotaru_mqtt.Request.{PacketId, IncomingPublish}
use hotaru_mqtt.Request.SubackCode.{SubackCode}
use hotaru_mqtt.Packet.{PublishPacket}
use hotaru_mqtt.DashMap.{get, insert, remove, contains_key, nat_key}

pub data AckKind : Type 0 where
  puback pubrec pubcomp : AckKind

abbrev pub Waiter : Type 0
Waiter = ℕ

pub data AckSlot : Type 0 where
  puback pubrec pubcomp suback unsuback : Waiter → AckSlot

pub data Resolution : Type 0 where
  acked : PacketId → Resolution
  granted : List SubackCode → Resolution
  unsubscribed dropped : Resolution

pub record BindInfo : Type 0 where
  pub client_id : Bytes
  pub keep_alive : ℕ

pub record MqttSession : Type 0 where
  pub pkt_counter : ℕ
  pub bind : Option BindInfo
  pub qos2_recv : List (PacketId × IncomingPublish)
  pub pending_acks : List (PacketId × AckSlot)
  pub outbound_inflight : List (PacketId × PublishPacket)
  pub next_waiter : Waiter
  pub resolved : List (Waiter × Resolution)

unfoldable pub new : MqttSession
new = record {
  pkt_counter = 0;
  bind = none;
  qos2_recv = [];
  pending_acks = [];
  outbound_inflight = [];
  next_waiter = 0;
  resolved = [];
}

-- `OnceLock::set`: the first value stays, and a later one is given back.
unfoldable pub set_bind : MqttSession → BindInfo → MqttSession × Outcome BindInfo (Unit {0})
set_bind s info = elim s.bind [
  | none ↦ (record s { bind = some info }, ok tt)
  | some b ↦ (s, err info)
]

-- `OnceLockBindInfo::get`, and what it was set to.
unfoldable pub get_bind : MqttSession → Option BindInfo
get_bind s = s.bind

unfoldable pub bound_client_id : MqttSession → Option Bytes
unfolding get_bind
bound_client_id s = elim (get_bind s) [ none ↦ none | some b ↦ some b.client_id ]

unfoldable pub bound_keep_alive : MqttSession → Option ℕ
unfolding get_bind
bound_keep_alive s = elim (get_bind s) [ none ↦ none | some b ↦ some b.keep_alive ]

-- `fetch_add(1)` wraps; 0 is skipped.
unfoldable pub allocate_packet_id : MqttSession → MqttSession × PacketId
allocate_packet_id s =
    let next = u16 (s.pkt_counter + 1) in
    (record s { pkt_counter = next }, if next == 0 then 1 else next)

-- Sends on a oneshot, or drops its sender.
abbrev pub resolve : MqttSession → Waiter → Resolution → MqttSession
resolve s w r = record s { resolved = (w, r) ∷ s.resolved }

abbrev pub waiter_of : AckSlot → Waiter
waiter_of (AckSlot.puback w) = w
waiter_of (AckSlot.pubrec w) = w
waiter_of (AckSlot.pubcomp w) = w
waiter_of (AckSlot.suback w) = w
waiter_of (AckSlot.unsuback w) = w

abbrev pub drop_slot : Option AckSlot → MqttSession → MqttSession
drop_slot none s = s
drop_slot (some slot) s = resolve s (waiter_of slot) Resolution.dropped

-- `pending_acks.insert(id, slot)`: a slot that was there is dropped.
unfoldable pub insert_slot : PacketId → AckSlot → MqttSession → MqttSession
insert_slot id slot s =
    drop_slot (get id s.pending_acks) (record s { pending_acks = insert id slot s.pending_acks })

-- A new oneshot, parked under `id`; the receiver is returned.
unfoldable pub park : PacketId → (Waiter → AckSlot) → MqttSession → MqttSession × Waiter
unfolding insert_slot
park id slot s = (
  insert_slot id (slot s.next_waiter) (record s { next_waiter = suc s.next_waiter }),
  s.next_waiter,
)

abbrev pub kind_slot : AckKind → Waiter → AckSlot
kind_slot AckKind.puback w = AckSlot.puback w
kind_slot AckKind.pubrec w = AckSlot.pubrec w
kind_slot AckKind.pubcomp w = AckSlot.pubcomp w

unfoldable pub park_publish_ack_waiter : PacketId → AckKind → MqttSession → MqttSession × Waiter
unfolding park
park_publish_ack_waiter id kind s = park id (kind_slot kind) s

unfoldable pub park_suback_waiter : PacketId → MqttSession → MqttSession × Waiter
unfolding park
park_suback_waiter id s = park id AckSlot.suback s

unfoldable pub park_unsuback_waiter : PacketId → MqttSession → MqttSession × Waiter
unfolding park
park_unsuback_waiter id s = park id AckSlot.unsuback s

abbrev pub without_slot : PacketId → MqttSession → MqttSession
without_slot id s = record s { pending_acks = remove id s.pending_acks }

unfoldable pub cancel_ack_waiter : PacketId → MqttSession → MqttSession
cancel_ack_waiter id s = drop_slot (get id s.pending_acks) (without_slot id s)

-- The kind of ack that a slot waits for, if it is one of a publish flow.
abbrev pub parked_kind : AckSlot → Option AckKind
parked_kind (AckSlot.puback w) = some AckKind.puback
parked_kind (AckSlot.pubrec w) = some AckKind.pubrec
parked_kind (AckSlot.pubcomp w) = some AckKind.pubcomp
parked_kind (AckSlot.suback w) = none
parked_kind (AckSlot.unsuback w) = none

abbrev pub kind_eq : AckKind → AckKind → Bool
kind_eq AckKind.puback AckKind.puback = true
kind_eq AckKind.pubrec AckKind.pubrec = true
kind_eq AckKind.pubcomp AckKind.pubcomp = true
kind_eq _ _ = false

abbrev pub is_kind : AckKind → Option AckKind → Bool
is_kind kind none = false
is_kind kind (some k) = kind_eq k kind

-- The second step of `wake_ack_waiter`, with the slot that `remove` returned.
abbrev pub settle_ack : PacketId → AckSlot → MqttSession → MqttSession
settle_ack id (AckSlot.puback w) s = resolve s w (Resolution.acked id)
settle_ack id (AckSlot.pubrec w) s = resolve s w (Resolution.acked id)
settle_ack id (AckSlot.pubcomp w) s = resolve s w (Resolution.acked id)
settle_ack id (AckSlot.suback w) s = insert_slot id (AckSlot.suback w) s
settle_ack id (AckSlot.unsuback w) s = insert_slot id (AckSlot.unsuback w) s

abbrev pub settle_suback : PacketId → List SubackCode → AckSlot → MqttSession → MqttSession
settle_suback id codes (AckSlot.suback w) s = resolve s w (Resolution.granted codes)
settle_suback id codes (AckSlot.puback w) s = insert_slot id (AckSlot.puback w) s
settle_suback id codes (AckSlot.pubrec w) s = insert_slot id (AckSlot.pubrec w) s
settle_suback id codes (AckSlot.pubcomp w) s = insert_slot id (AckSlot.pubcomp w) s
settle_suback id codes (AckSlot.unsuback w) s = insert_slot id (AckSlot.unsuback w) s

abbrev pub settle_unsuback : PacketId → AckSlot → MqttSession → MqttSession
settle_unsuback id (AckSlot.unsuback w) s = resolve s w Resolution.unsubscribed
settle_unsuback id (AckSlot.puback w) s = insert_slot id (AckSlot.puback w) s
settle_unsuback id (AckSlot.pubrec w) s = insert_slot id (AckSlot.pubrec w) s
settle_unsuback id (AckSlot.pubcomp w) s = insert_slot id (AckSlot.pubcomp w) s
settle_unsuback id (AckSlot.suback w) s = insert_slot id (AckSlot.suback w) s

-- `let Some((_, slot)) = remove(..) else { return }; match slot { .. }`
abbrev pub take_slot : PacketId → (AckSlot → MqttSession → MqttSession) → MqttSession → MqttSession
take_slot id settle s = elim (get id s.pending_acks) [
  | none ↦ s
  | some slot ↦ settle slot (without_slot id s)
]

-- `let Some(entry) = get(..) else { return }; if !test { return }`, then the second step.
abbrev pub peek_then :
    PacketId → (AckSlot → Bool) → (MqttSession → MqttSession) → MqttSession → MqttSession
peek_then id test next s = elim (get id s.pending_acks) [
  | none ↦ s
  | some slot ↦ if test slot then next s else s
]

abbrev pub is_suback : AckSlot → Bool
is_suback (AckSlot.suback w) = true
is_suback _ = false

abbrev pub is_unsuback : AckSlot → Bool
is_unsuback (AckSlot.unsuback w) = true
is_unsuback _ = false

unfoldable pub wake_suback_waiter : PacketId → List SubackCode → MqttSession → MqttSession
wake_suback_waiter id codes = peek_then id is_suback (take_slot id (settle_suback id codes))

unfoldable pub wake_unsuback_waiter : PacketId → MqttSession → MqttSession
wake_unsuback_waiter id = peek_then id is_unsuback (take_slot id (settle_unsuback id))

unfoldable pub wake_ack_waiter : PacketId → AckKind → MqttSession → MqttSession
wake_ack_waiter id expected =
    peek_then id (λ slot. is_kind expected (parked_kind slot)) (take_slot id (settle_ack id))

unfoldable pub clear_outbound_inflight : PacketId → MqttSession → MqttSession
clear_outbound_inflight id s = record s { outbound_inflight = remove id s.outbound_inflight }

unfoldable pub stash_qos2_publish : PacketId → IncomingPublish → MqttSession → MqttSession
stash_qos2_publish id publish s = record s { qos2_recv = insert id publish s.qos2_recv }

unfoldable pub take_qos2_publish : PacketId → MqttSession → MqttSession × Option IncomingPublish
take_qos2_publish id s = (record s { qos2_recv = remove id s.qos2_recv }, get id s.qos2_recv)

unfoldable pub track_outbound_inflight : PacketId → PublishPacket → MqttSession → MqttSession
track_outbound_inflight id publish s = record s {
  outbound_inflight = insert id publish s.outbound_inflight;
}

unfoldable pub has_outbound_inflight : PacketId → MqttSession → Bool
has_outbound_inflight id s = contains_key id s.outbound_inflight

-- `pending_acks.clear()` drops every sender.
abbrev pub drop_all :
    List (PacketId × AckSlot) → List (Waiter × Resolution) → List (Waiter × Resolution)
drop_all [] out = out
drop_all ((id, slot) ∷ m) out = (waiter_of slot, Resolution.dropped) ∷ drop_all m out

unfoldable pub abandon : MqttSession → MqttSession
abandon s = record s {
  pending_acks = [];
  resolved = drop_all s.pending_acks s.resolved;
  qos2_recv = [];
  outbound_inflight = [];
}
