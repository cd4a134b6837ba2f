-- ===== src/Session/Accounts.antt =====
-- session.rs: the calls of a session as steps, and an account of the receivers that it hands out.
-- The second half of a waker is a step of its own, since another task can run between the two.
use hotaru_mqtt.Base.{
  ℕ, suc, ◌+◌, ◌≡◌, refl, ◌∙◌, List, [], ◌∷◌, Option, none, some, ◌==◌, ltb, if◌then◌else◌, inl,
  inr, arith, Option-cases,
}
use hotaru_mqtt.Request.{PacketId, IncomingPublish}
use hotaru_mqtt.Request.SubackCode.{SubackCode}
use hotaru_mqtt.Packet.{PublishPacket}
use hotaru_mqtt.DashMap.{get, insert, nat_key}
use hotaru_mqtt.DashMap.Laws.{sum_by, opt, sum_by-insert, sum_by-remove}
use hotaru_mqtt.Session.{
  AckKind, AckSlot, BindInfo, Waiter, Resolution, MqttSession, new, set_bind, allocate_packet_id,
  waiter_of, kind_slot, drop_slot, insert_slot, park, park_publish_ack_waiter, park_suback_waiter,
  park_unsuback_waiter, without_slot, cancel_ack_waiter, take_slot, settle_ack, settle_suback,
  settle_unsuback, clear_outbound_inflight, stash_qos2_publish, take_qos2_publish,
  track_outbound_inflight, drop_all, abandon,
}

-- What one call does to the state.
pub data Step : MqttSession → MqttSession → Type 0 where
  bound : {s : MqttSession} (info : BindInfo) → Step s (set_bind s info).0
  allocate : {s : MqttSession} → Step s (allocate_packet_id s).0
  park_ack :
      {s : MqttSession} (id : PacketId) (kind : AckKind)
      → Step s (park_publish_ack_waiter id kind s).0
  park_suback : {s : MqttSession} (id : PacketId) → Step s (park_suback_waiter id s).0
  park_unsuback : {s : MqttSession} (id : PacketId) → Step s (park_unsuback_waiter id s).0
  cancel : {s : MqttSession} (id : PacketId) → Step s (cancel_ack_waiter id s)
  take_ack : {s : MqttSession} (id : PacketId) → Step s (take_slot id (settle_ack id) s)
  take_suback :
      {s : MqttSession} (id : PacketId) (codes : List SubackCode)
      → Step s (take_slot id (settle_suback id codes) s)
  take_unsuback : {s : MqttSession} (id : PacketId) → Step s (take_slot id (settle_unsuback id) s)
  clear : {s : MqttSession} (id : PacketId) → Step s (clear_outbound_inflight id s)
  stash :
      {s : MqttSession} (id : PacketId) (p : IncomingPublish) → Step s (stash_qos2_publish id p s)
  take_qos2 : {s : MqttSession} (id : PacketId) → Step s (take_qos2_publish id s).0
  track :
      {s : MqttSession} (id : PacketId) (p : PublishPacket)
      → Step s (track_outbound_inflight id p s)
  abandoned : {s : MqttSession} → Step s (abandon s)

pub data Reachable : MqttSession → Type 0 where
  start : Reachable new
  more : {s s' : MqttSession} → Reachable s → Step s s' → Reachable s'

-- How many parked slots hold the sender of `w`, and how often its receiver was resolved.
abbrev pub holds : Waiter → AckSlot → ℕ
holds w slot = if waiter_of slot == w then 1 else 0

abbrev pub parked : Waiter → MqttSession → ℕ
parked w s = sum_by (holds w) s.pending_acks

abbrev pub settled_in : Waiter → List (Waiter × Resolution) → ℕ
settled_in w [] = 0
settled_in w ((v, r) ∷ out) = (if v == w then 1 else 0) + settled_in w out

abbrev pub settled : Waiter → MqttSession → ℕ
settled w s = settled_in w s.resolved

-- Both together, which a step changes only by handing out `w`.
abbrev pub known : Waiter → MqttSession → ℕ
known w s = parked w s + settled w s

drop_slot-known :
    (w : Waiter) (o : Option AckSlot) (s : MqttSession)
    → known w (drop_slot o s) ≡ known w s + opt (holds w) o
drop_slot-known w none s = omega arith
drop_slot-known w (some slot) s = omega arith

insert_slot-known :
    (w : Waiter) (id : PacketId) (slot : AckSlot) (s : MqttSession)
    → known w (insert_slot id slot s) ≡ known w s + holds w slot
unfolding insert_slot
insert_slot-known w id slot s = omega (
  arith,
  sum_by-insert (holds w) id slot s.pending_acks,
  drop_slot-known w (get id s.pending_acks)
      (record s { pending_acks = insert id slot s.pending_acks }),
)

insert_slot-next :
    (id : PacketId) (slot : AckSlot) (s : MqttSession)
    → (insert_slot id slot s).next_waiter ≡ s.next_waiter
unfolding insert_slot
insert_slot-next id slot s = elim (Option-cases (get id s.pending_acks)) [
  | inl e ↦ rw e refl
  | inr (o, e) ↦ rw e refl
]

-- What `settle` keeps of a slot that was taken out.
abbrev Settles : Waiter → (AckSlot → MqttSession → MqttSession) → Type 0
Settles w settle =
    (slot : AckSlot) (s : MqttSession)
    → (known w (settle slot s) ≡ known w s + holds w slot)
      × ((settle slot s).next_waiter ≡ s.next_waiter)

put_back :
    (w : Waiter) (id : PacketId) (slot : AckSlot) (s : MqttSession)
    → (known w (insert_slot id slot s) ≡ known w s + holds w slot)
      × ((insert_slot id slot s).next_waiter ≡ s.next_waiter)
put_back w id slot s = (insert_slot-known w id slot s, insert_slot-next id slot s)

settle_ack-Settles : (w : Waiter) (id : PacketId) → Settles w (settle_ack id)
settle_ack-Settles w id (AckSlot.puback v) s = (omega arith, refl)
settle_ack-Settles w id (AckSlot.pubrec v) s = (omega arith, refl)
settle_ack-Settles w id (AckSlot.pubcomp v) s = (omega arith, refl)
settle_ack-Settles w id (AckSlot.suback v) s = put_back w id (AckSlot.suback v) s
settle_ack-Settles w id (AckSlot.unsuback v) s = put_back w id (AckSlot.unsuback v) s

settle_suback-Settles :
    (w : Waiter) (id : PacketId) (codes : List SubackCode) → Settles w (settle_suback id codes)
settle_suback-Settles w id codes (AckSlot.puback v) s = put_back w id (AckSlot.puback v) s
settle_suback-Settles w id codes (AckSlot.pubrec v) s = put_back w id (AckSlot.pubrec v) s
settle_suback-Settles w id codes (AckSlot.pubcomp v) s = put_back w id (AckSlot.pubcomp v) s
settle_suback-Settles w id codes (AckSlot.suback v) s = (omega arith, refl)
settle_suback-Settles w id codes (AckSlot.unsuback v) s = put_back w id (AckSlot.unsuback v) s

settle_unsuback-Settles : (w : Waiter) (id : PacketId) → Settles w (settle_unsuback id)
settle_unsuback-Settles w id (AckSlot.puback v) s = put_back w id (AckSlot.puback v) s
settle_unsuback-Settles w id (AckSlot.pubrec v) s = put_back w id (AckSlot.pubrec v) s
settle_unsuback-Settles w id (AckSlot.pubcomp v) s = put_back w id (AckSlot.pubcomp v) s
settle_unsuback-Settles w id (AckSlot.suback v) s = put_back w id (AckSlot.suback v) s
settle_unsuback-Settles w id (AckSlot.unsuback v) s = (omega arith, refl)

-- A step that hands out nothing.
abbrev Keeps : Waiter → MqttSession → MqttSession → Type 0
Keeps w s s' = (known w s' ≡ known w s) × (s'.next_waiter ≡ s.next_waiter)

take_slot-Keeps :
    (w : Waiter) (id : PacketId) (settle : AckSlot → MqttSession → MqttSession) (s : MqttSession)
    → Settles w settle
    → Keeps w s (take_slot id settle s)
take_slot-Keeps w id settle s h = elim (Option-cases (get id s.pending_acks)) [
  | inl e ↦ rw (take_slot, e) (refl, refl)
  | inr (slot, e) ↦
      let taken : opt (holds w) (get id s.pending_acks) ≡ holds w slot = (rw e refl) in
      rw (take_slot, e)
        (
          omega (
            arith,
            taken,
            sum_by-remove (holds w) id s.pending_acks,
            (h slot (without_slot id s)).0,
          ),
          (h slot (without_slot id s)).1,
        )
]

drop_slot-next :
    (o : Option AckSlot) (s : MqttSession) → (drop_slot o s).next_waiter ≡ s.next_waiter
drop_slot-next none s = refl
drop_slot-next (some slot) s = refl

cancel_ack_waiter-Keeps :
    (w : Waiter) (id : PacketId) (s : MqttSession) → Keeps w s (cancel_ack_waiter id s)
unfolding cancel_ack_waiter
cancel_ack_waiter-Keeps w id s = (
  omega (
    arith,
    sum_by-remove (holds w) id s.pending_acks,
    drop_slot-known w (get id s.pending_acks) (without_slot id s),
  ),
  drop_slot-next (get id s.pending_acks) (without_slot id s),
)

drop_all-settled :
    (w : Waiter) (m : List (PacketId × AckSlot)) (out : List (Waiter × Resolution))
    → settled_in w (drop_all m out) ≡ sum_by (holds w) m + settled_in w out
drop_all-settled w [] out = omega arith
drop_all-settled w ((id, slot) ∷ m) out = omega (arith, drop_all-settled w m out)

abandon-Keeps : (w : Waiter) (s : MqttSession) → Keeps w s (abandon s)
unfolding abandon
abandon-Keeps w s = (omega (arith, drop_all-settled w s.pending_acks s.resolved), refl)

-- A waiter is known once if it was handed out, else not at all.
abbrev pub IsAccounted : Waiter → MqttSession → Type 0
IsAccounted w s = known w s ≡ (if ltb w s.next_waiter then 1 else 0)

keep : (w : Waiter) (s s' : MqttSession) → IsAccounted w s → Keeps w s s' → IsAccounted w s'
keep w s s' h (k, n) = rw n (k ∙ h)

park-IsAccounted :
    (w : Waiter) (id : PacketId) (slot : Waiter → AckSlot) (s : MqttSession)
    → waiter_of (slot s.next_waiter) ≡ s.next_waiter
    → IsAccounted w s
    → IsAccounted w (park id slot s).0
unfolding park
park-IsAccounted w id slot s e h =
    let opened = record s { next_waiter = suc s.next_waiter } in
    let (k, n) = put_back w id (slot s.next_waiter) opened in ground (arith, k, n, e)

kind_slot-waiter : (kind : AckKind) (w : Waiter) → waiter_of (kind_slot kind w) ≡ w
kind_slot-waiter AckKind.puback w = refl
kind_slot-waiter AckKind.pubrec w = refl
kind_slot-waiter AckKind.pubcomp w = refl

set_bind-Keeps : (w : Waiter) (s : MqttSession) (info : BindInfo) → Keeps w s (set_bind s info).0
unfolding set_bind
set_bind-Keeps w s info = elim (Option-cases s.bind) [
  | inl e ↦ rw e (refl, refl)
  | inr (b, e) ↦ rw e (refl, refl)
]

Step-IsAccounted :
    (w : Waiter) {s s' : MqttSession} → IsAccounted w s → Step s s' → IsAccounted w s'
unfolding park_publish_ack_waiter park_suback_waiter park_unsuback_waiter allocate_packet_id
    clear_outbound_inflight stash_qos2_publish take_qos2_publish track_outbound_inflight
Step-IsAccounted w {s} h (Step.cancel id) =
    keep w s (cancel_ack_waiter id s) h (cancel_ack_waiter-Keeps w id s)
Step-IsAccounted w {s} h Step.abandoned = keep w s (abandon s) h (abandon-Keeps w s)
Step-IsAccounted w {s} h (Step.take_ack id) =
    keep w s (take_slot id (settle_ack id) s) h
      (take_slot-Keeps w id (settle_ack id) s (settle_ack-Settles w id))
Step-IsAccounted w {s} h (Step.take_suback id codes) =
    keep w s (take_slot id (settle_suback id codes) s) h
      (take_slot-Keeps w id (settle_suback id codes) s (settle_suback-Settles w id codes))
Step-IsAccounted w {s} h (Step.take_unsuback id) =
    keep w s (take_slot id (settle_unsuback id) s) h
      (take_slot-Keeps w id (settle_unsuback id) s (settle_unsuback-Settles w id))
Step-IsAccounted w {s} h (Step.bound info) =
    keep w s (set_bind s info).0 h (set_bind-Keeps w s info)
Step-IsAccounted w {s} h (Step.park_ack id kind) =
    park-IsAccounted w id (kind_slot kind) s (kind_slot-waiter kind s.next_waiter) h
Step-IsAccounted w {s} h (Step.park_suback id) = park-IsAccounted w id AckSlot.suback s refl h
Step-IsAccounted w {s} h (Step.park_unsuback id) = park-IsAccounted w id AckSlot.unsuback s refl h
Step-IsAccounted w h Step.allocate = h
Step-IsAccounted w h (Step.clear id) = h
Step-IsAccounted w h (Step.stash id p) = h
Step-IsAccounted w h (Step.take_qos2 id) = h
Step-IsAccounted w h (Step.track id p) = h

-- In every reachable state of a session, a waiter that was handed out is either parked in one
-- slot and not resolved, or in no slot and resolved once; any other is in no slot and not
-- resolved.
Reachable-IsAccounted : (w : Waiter) {s : MqttSession} → Reachable s → IsAccounted w s
unfolding new
Reachable-IsAccounted w Reachable.start = ground arith
Reachable-IsAccounted w (Reachable.more r step) =
    Step-IsAccounted w (Reachable-IsAccounted w r) step

-- Abandoning a reachable session leaves no waiter parked, and every waiter that it ever handed
-- out resolved once.
pub abandon_settles :
    (w : Waiter) {s : MqttSession}
    → Reachable s
    → (parked w (abandon s) ≡ 0) × (settled w (abandon s) ≡ (if ltb w s.next_waiter then 1 else 0))
unfolding abandon
abandon_settles w {s} r =
    (refl, omega (arith, drop_all-settled w s.pending_acks s.resolved, Reachable-IsAccounted w r))
