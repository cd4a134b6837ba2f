-- ===== src/Protocol/Send/Steps.antt =====
-- protocol/send.rs with the dispatch of client.rs: the steps that an operation is made of.
use hotaru_mqtt.Base.{
  ◌≡◌, refl, ap, List, [], ◌∷◌, ◌++◌, true, false, some, inl, inr, arith, ==_refl, Option-cases,
  Bytes, ok,
}
use hotaru_mqtt.Request.{PacketId, PublishRequest, PublishAck, MqttResponse}
use hotaru_mqtt.Request.Qos.{at_least_once, exactly_once}
use hotaru_mqtt.Packet.{Packet}
use hotaru_mqtt.DashMap.{get, nat_key}
use hotaru_mqtt.DashMap.Laws.{get-insert_self}
use hotaru_mqtt.Session.{
  AckKind, AckSlot, Waiter, Resolution, MqttSession, kind_slot, wake_ack_waiter, allocate_packet_id,
  without_slot, resolve, park_publish_ack_waiter, park, insert_slot,
}
use hotaru_mqtt.Channel.Sending.{packet_accepted, publish_accepted}
use hotaru_mqtt.Channel.{MqttChannel, WriteCmd}
use hotaru_mqtt.Client.{MqttClientConfig}
use hotaru_mqtt.Action.{and_then, pure}
use hotaru_mqtt.Protocol.{with_session}
use hotaru_mqtt.Protocol.Client.{Client, put, dispatch_client_inbound}
use hotaru_mqtt.Protocol.Send.{
  puback, pubrec, pubcomp, done, awaiting, outgoing, resume, resume_puback, resume_pubrec,
  resume_pubcomp, await_ack, publish_by_qos,
}

-- What a parked waiter gets from the ack of its kind.
pub wake_parked :
    (id : PacketId) (kind : AckKind) (w : Waiter) (s : MqttSession)
    → get id s.pending_acks ≡ some (kind_slot kind w)
    → wake_ack_waiter id kind s ≡ resolve (without_slot id s) w (Resolution.acked id)
unfolding wake_ack_waiter
wake_parked id AckKind.puback w s h = ground arith
wake_parked id AckKind.pubrec w s h = ground arith
wake_parked id AckKind.pubcomp w s h = ground arith

pub woken_parked :
    (id : PacketId) (kind : AckKind) (w : Waiter) (s : MqttSession)
    → get id s.pending_acks ≡ some (kind_slot kind w)
    → get w (wake_ack_waiter id kind s).resolved ≡ some (Resolution.acked id)
unfolding get
woken_parked id kind w s h = rw (wake_parked id kind w s h, ==_refl w) refl

pub parked_in :
    (id : PacketId) (slot : AckSlot) (s : MqttSession)
    → get id (insert_slot id slot s).pending_acks ≡ some slot
unfolding insert_slot
parked_in id slot s = elim (Option-cases (get id s.pending_acks)) [
  | inl e ↦ rw (insert_slot, e) (get-insert_self id slot s.pending_acks)
  | inr (old, e) ↦ rw (insert_slot, e) (get-insert_self id slot s.pending_acks)
]

-- The session after a PUBLISH with an id, and the rest of its channel.
abbrev pub started : PublishRequest → AckKind → MqttChannel → MqttChannel
started req kind ch =
    let (s, id) = allocate_packet_id ch.session in
    record ch {
      session = (park_publish_ack_waiter id kind s).0;
      queue = ch.queue ++ (WriteCmd.publish (outgoing req (some id)) ∷ []);
    }

pub at_least_once_starts :
    (req : PublishRequest) (ch : MqttChannel)
    → ch.writer_alive ≡ true
    → publish_by_qos at_least_once req ch ≡ (
      started req AckKind.puback ch,
      ok (awaiting (puback (allocate_packet_id ch.session).1 ch.session.next_waiter)),
    )
unfolding allocate_packet_id park_publish_ack_waiter park
at_least_once_starts req ch alive =
    ap
      (λ r.
        and_then r
          (λ u. pure (awaiting (puback (allocate_packet_id ch.session).1 ch.session.next_waiter))))
      (publish_accepted _ _ alive)

pub exactly_once_starts :
    (req : PublishRequest) (ch : MqttChannel)
    → ch.writer_alive ≡ true
    → publish_by_qos exactly_once req ch ≡ (
      started req AckKind.pubrec ch,
      ok (awaiting (pubrec (allocate_packet_id ch.session).1 ch.session.next_waiter)),
    )
unfolding allocate_packet_id park_publish_ack_waiter park
exactly_once_starts req ch alive =
    ap
      (λ r.
        and_then r
          (λ u. pure (awaiting (pubrec (allocate_packet_id ch.session).1 ch.session.next_waiter))))
      (publish_accepted _ _ alive)

pub resume_acked :
    (ch : MqttChannel) (id v : PacketId) (w : Waiter)
    → get w ch.session.resolved ≡ some (Resolution.acked v)
    → resume (puback id w) ch ≡ (ch, ok (done (MqttResponse.published (PublishAck.acknowledged v))))
unfolding resume resume_puback await_ack
resume_acked ch id v w h = rw (resume, resume_puback, await_ack, h) refl

pub resume_received :
    (ch : MqttChannel) (id v : PacketId) (w : Waiter)
    → get w ch.session.resolved ≡ some (Resolution.acked v)
    → resume (pubrec id w) ch ≡ (
      record ch { session = (park_publish_ack_waiter id AckKind.pubcomp ch.session).0 },
      ok (awaiting (pubcomp id ch.session.next_waiter)),
    )
unfolding resume resume_pubrec await_ack park_publish_ack_waiter park
resume_received ch id v w h = rw (resume, resume_pubrec, await_ack, h) refl

pub resume_completed :
    (ch : MqttChannel) (id v : PacketId) (w : Waiter)
    → get w ch.session.resolved ≡ some (Resolution.acked v)
    → resume (pubcomp id w) ch ≡ (ch, ok (done (MqttResponse.published (PublishAck.completed v))))
unfolding resume resume_pubcomp await_ack
resume_completed ch id v w h = rw (resume, resume_pubcomp, await_ack, h) refl

module _ {Node H : Type 0} (walk : Bytes → List Node) (config : MqttClientConfig H) where
  -- A PUBREC wakes its waiter, and PUBREL is sent.
  pub pubrec_dispatched :
      (id : PacketId) (cl : Client Node H)
      → cl.channel.writer_alive ≡ true
      → dispatch_client_inbound walk config (Packet.pubrec id) cl ≡ (
        record cl {
          channel = record cl.channel {
            session = wake_ack_waiter id AckKind.pubrec cl.channel.session;
            queue = cl.channel.queue ++ (WriteCmd.packet (Packet.pubrel id) ∷ []);
          };
        },
        ok false,
      )
  unfolding dispatch_client_inbound
  pubrec_dispatched id cl alive =
      ap (λ r. and_then (put {Node = Node} {H = H} cl r) (λ u. pure false))
        (packet_accepted (Packet.pubrel id)
          (with_session (wake_ack_waiter id AckKind.pubrec) cl.channel) alive)
