-- ===== src/Protocol/System/Dispatch.antt =====
-- protocol/server.rs: the session table under the steps of one connection's reader and worker.
use hotaru_mqtt.Base.{
  ◌≡◌, refl, sym, ap, ◌∙◌, Bool, true, false, Option, none, some, inl, inr, if◌then◌else◌,
  Bool-cases, Bytes, Outcome, ok, err, panic,
}
use hotaru_mqtt.Error.{MqttError}
use hotaru_mqtt.Request.{PacketId, IncomingPublish}
use hotaru_mqtt.Request.Qos
use hotaru_mqtt.Request.Qos.{exactly_once}
use hotaru_mqtt.Packet.{Packet, PublishPacket}
use hotaru_mqtt.Channel.{send_packet}
use hotaru_mqtt.Action.{Action, and_then, pure}
use hotaru_mqtt.Broker.{ConnectionId, BrokerInner, publish}
use hotaru_mqtt.Broker.Fanout.{publish-frame}
use hotaru_mqtt.Broker.Invariant.{
  publish-IsConsistent, subscribe-IsConsistent, unsubscribe-IsConsistent,
}
use hotaru_mqtt.Protocol.Server.{
  Server, Selected, ReadOutcome, enqueue, enqueue_released, released, take_stored, on_channel,
  on_inner, topic_filters, dispatch_server_inbound, after_dispatch, select_arm, server_turn,
  publish_decided,
}
use hotaru_mqtt.Session.{take_qos2_publish}
use hotaru_mqtt.DashMap.{get, str_key}
use hotaru_mqtt.Protocol.System.Owner.{id_in, Fits, subscribe-owner, unsubscribe-owner}

-- A predicate that the first step keeps, and the rest keeps.
and_then_keeps :
    {S A B : Type 0} (P : S → Type 0) (r : S × Outcome MqttError A) (f : A → Action S B)
    → P r.0
    → ((a : A) (s : S) → P s → P (f a s).0)
    → P (and_then r f).0
and_then_keeps P (s, ok a) f h k = k a s h
and_then_keeps P (s, err e) f h k = h
and_then_keeps P (s, panic) f h k = h

enqueue-inner : (p : PublishPacket) (sv : Server) → (enqueue p sv).0.inner ≡ sv.inner
unfolding enqueue
enqueue-inner p sv = elim (Bool-cases sv.worker_alive) [
  | inl e ↦ rw (enqueue, e) refl
  | inr e ↦ rw (enqueue, e) refl
]

module _ (Q : Bytes → ConnectionId → Type 0) where
  -- The broker of a server.
  abbrev FitsServer : Server → Type 0
  FitsServer sv = Fits Q sv.inner

  enqueue-Fits : (p : PublishPacket) (sv : Server) → Fits Q sv.inner → Fits Q (enqueue p sv).0.inner
  enqueue-Fits p sv h = rw (enqueue-inner p sv) h

  enqueue_released-Fits :
      (id : PacketId) (stored : Option IncomingPublish) (s : Server)
      → Fits Q s.inner
      → Fits Q (enqueue_released id stored s).0.inner
  enqueue_released-Fits id none s k = k
  enqueue_released-Fits id (some p) s k = enqueue-Fits (released id p) s k

  -- What follows the take of a PUBREL.
  release-Fits :
      (c : ConnectionId) (id : PacketId) (stored : Option IncomingPublish) (s : Server)
      → Fits Q s.inner
      → Fits Q
          (and_then
            (enqueue_released id stored s)
            (λ (u : Unit {0}). on_inner (on_channel c (send_packet (Packet.pubcomp id))))).0.inner
  release-Fits c id stored s k =
      and_then_keeps FitsServer (enqueue_released id stored s)
        (λ (u : Unit {0}). on_inner (on_channel c (send_packet (Packet.pubcomp id))))
        (enqueue_released-Fits id stored s k) λ u t l. l

  hand_over-Fits :
      (p : PublishPacket) (stored : Bool) (s : Server)
      → Fits Q s.inner
      → Fits Q ((if stored then pure tt else enqueue p) s).0.inner
  hand_over-Fits p true s k = k
  hand_over-Fits p false s k = enqueue-Fits p s k

  dispatch_server_inbound-Fits :
      (client : Bytes) (c : ConnectionId) (p : Packet) (sv : Server)
      → Fits Q sv.inner
      → Fits Q (dispatch_server_inbound client c p sv).0.inner
  unfolding dispatch_server_inbound
  dispatch_server_inbound-Fits client c (Packet.publish p) sv h =
      and_then_keeps FitsServer _ _ h λ a s k. hand_over-Fits p (Qos.eq p.qos exactly_once) s k
  dispatch_server_inbound-Fits client c (Packet.subscribe s) sv (cons, own) = (
    subscribe-IsConsistent client c (topic_filters s.subscriptions) sv.inner cons,
    λ k d h.
        own k d (sym (subscribe-owner client k c (topic_filters s.subscriptions) sv.inner) ∙ h),
  )
  dispatch_server_inbound-Fits client c (Packet.unsubscribe u) sv (cons, own) = (
    unsubscribe-IsConsistent client c u.topics sv.inner cons,
    λ k d h. own k d (sym (unsubscribe-owner client k c u.topics sv.inner) ∙ h),
  )
  dispatch_server_inbound-Fits client c Packet.pingreq sv h = h
  dispatch_server_inbound-Fits client c (Packet.puback id) sv h = h
  dispatch_server_inbound-Fits client c (Packet.pubrec id) sv h = h
  dispatch_server_inbound-Fits client c (Packet.pubcomp id) sv h = h
  dispatch_server_inbound-Fits client c (Packet.pubrel id) sv h =
      release-Fits c id (take_qos2_publish id (sv.inner.channels c).session).1
        (on_inner (on_channel c (take_stored id)) sv).0 h
  dispatch_server_inbound-Fits client c (Packet.connect p) sv h = h
  dispatch_server_inbound-Fits client c (Packet.connack a) sv h = h
  dispatch_server_inbound-Fits client c (Packet.suback s) sv h = h
  dispatch_server_inbound-Fits client c (Packet.unsuback id) sv h = h
  dispatch_server_inbound-Fits client c Packet.pingresp sv h = h
  dispatch_server_inbound-Fits client c Packet.disconnect sv h = h

  after_dispatch-Fits :
      (r : Server × Outcome MqttError (Unit {0}))
      → Fits Q r.0.inner
      → Fits Q (after_dispatch r).0.inner
  after_dispatch-Fits (sv, ok u) h = h
  after_dispatch-Fits (sv, err e) h = h
  after_dispatch-Fits (sv, panic) h = h

  select_arm-Fits :
      (client : Bytes) (c : ConnectionId) (selected : Selected) (sv : Server)
      → Fits Q sv.inner
      → Fits Q (select_arm client c selected sv).0.inner
  select_arm-Fits client c Selected.shutdown_notified sv h = h
  select_arm-Fits client c (Selected.read ReadOutcome.deadline_elapsed) sv h = h
  select_arm-Fits client c (Selected.read ReadOutcome.unwound) sv h = h
  select_arm-Fits client c (Selected.read (ReadOutcome.failed MqttError.io)) sv h = h
  select_arm-Fits client c (Selected.read (ReadOutcome.failed _)) sv h = h
  select_arm-Fits client c (Selected.read (ReadOutcome.packet Packet.disconnect)) sv h = h
  select_arm-Fits client c (Selected.read (ReadOutcome.packet p)) sv h =
      after_dispatch-Fits (dispatch_server_inbound client c p sv)
        (dispatch_server_inbound-Fits client c p sv h)

  pub server_turn-Fits :
      (client : Bytes) (c : ConnectionId) (selected : Selected) (sv : Server)
      → Fits Q sv.inner
      → Fits Q (server_turn client c selected sv).0.inner
  unfolding server_turn
  server_turn-Fits client c selected sv h = elim (Bool-cases (sv.inner.channels c).is_open) [
    | inl e ↦ rw (server_turn, e) (select_arm-Fits client c selected sv h)
    | inr e ↦ rw (server_turn, e) h
  ]

  publish-Fits :
      (source : Bytes) (p : PublishPacket) (st : BrokerInner)
      → Fits Q st
      → Fits Q (publish source p st)
  publish-Fits source p st (cons, own) =
      let (s, t) = publish-frame source p st in
      (
        publish-IsConsistent source p st cons,
        λ k d h. own k d (sym (ap (λ x. id_in (get k x)) s) ∙ h),
      )

  pub publish_decided-Fits :
      (source : Bytes) (p : Option PublishPacket) (st : BrokerInner)
      → Fits Q st
      → Fits Q (publish_decided source p st)
  publish_decided-Fits source none st h = h
  publish_decided-Fits source (some p) st h = publish-Fits source p st h
