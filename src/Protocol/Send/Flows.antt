-- ===== src/Protocol/Send/Flows.antt =====
-- protocol/send.rs with the dispatch of client.rs: a PUBLISH from its start to its result.
use hotaru_mqtt.Base.{◌≡◌, ap, ◌∙◌, List, [], ◌∷◌, ◌++◌, true, some, Bytes, ok}
use hotaru_mqtt.Request.{PacketId, PublishRequest, PublishAck, MqttResponse}
use hotaru_mqtt.Request.Qos.{at_least_once, exactly_once}
use hotaru_mqtt.Packet.{Packet}
use hotaru_mqtt.DashMap.{get, nat_key}
use hotaru_mqtt.Session.{
  AckKind, AckSlot, wake_ack_waiter, clear_outbound_inflight, allocate_packet_id,
  park_publish_ack_waiter, park,
}
use hotaru_mqtt.Channel.{MqttChannel, WriteCmd}
use hotaru_mqtt.Client.{MqttClientConfig}
use hotaru_mqtt.Protocol.Client.{Client, dispatch_client_inbound}
use hotaru_mqtt.Protocol.Send.{
  puback, pubrec, pubcomp, done, awaiting, start_publish, resume, publish_by_qos,
}
use hotaru_mqtt.Protocol.Send.Steps.{
  wake_parked, woken_parked, parked_in, started, at_least_once_starts, exactly_once_starts,
  resume_acked, resume_received, resume_completed, pubrec_dispatched,
}

module _ {Node H : Type 0} (walk : Bytes → List Node) (config : MqttClientConfig H) where
  -- A PUBLISH of qos 1 over a channel with a live writer is queued under a new id, with a waiter
  -- parked for its PUBACK. While that waiter is parked, PUBACK ends the operation with the id as
  -- acknowledged.
  pub published_at_least_once :
      (req : PublishRequest) (ch : MqttChannel) (later : Client Node H)
      → req.qos ≡ at_least_once
      → ch.writer_alive ≡ true
      → get (allocate_packet_id ch.session).1 later.channel.session.pending_acks
        ≡ some (AckSlot.puback ch.session.next_waiter)
      → (start_publish req ch ≡ (
        started req AckKind.puback ch,
        ok (awaiting (puback (allocate_packet_id ch.session).1 ch.session.next_waiter)),
      ))
        × (get
              (allocate_packet_id ch.session).1
              (started req AckKind.puback ch).session.pending_acks
            ≡ some (AckSlot.puback ch.session.next_waiter))
        × ((resume
              (puback (allocate_packet_id ch.session).1 ch.session.next_waiter)
              (dispatch_client_inbound walk config
                (Packet.puback (allocate_packet_id ch.session).1)
                later).0.channel).1
            ≡ ok (
                done (
                  MqttResponse.published
                    (PublishAck.acknowledged (allocate_packet_id ch.session).1))))
  unfolding start_publish dispatch_client_inbound clear_outbound_inflight park_publish_ack_waiter
      park allocate_packet_id
  published_at_least_once req ch later q alive parked =
      let id : PacketId = (allocate_packet_id ch.session).1 in
      (
        ap (λ x. publish_by_qos x req ch) q ∙ at_least_once_starts req ch alive,
        parked_in id (AckSlot.puback ch.session.next_waiter) _,
        ap (λ r. r.1)
            (resume_acked _ id id ch.session.next_waiter
              (woken_parked id AckKind.puback ch.session.next_waiter later.channel.session parked)),
      )

  -- A PUBLISH of qos 2 over a channel with a live writer is queued under a new id, with a waiter
  -- parked for its PUBREC. While that waiter is parked, PUBREC sends PUBREL, and the operation
  -- goes on to wait for PUBCOMP, with a waiter parked for it; while that waiter is parked,
  -- PUBCOMP ends the operation with the id as completed.
  pub published_exactly_once :
      (req : PublishRequest) (ch : MqttChannel) (mid later : Client Node H)
      → req.qos ≡ exactly_once
      → ch.writer_alive ≡ true
      → mid.channel.writer_alive ≡ true
      → get (allocate_packet_id ch.session).1 mid.channel.session.pending_acks
        ≡ some (AckSlot.pubrec ch.session.next_waiter)
      → get (allocate_packet_id ch.session).1 later.channel.session.pending_acks
        ≡ some (AckSlot.pubcomp mid.channel.session.next_waiter)
      → (start_publish req ch ≡ (
        started req AckKind.pubrec ch,
        ok (awaiting (pubrec (allocate_packet_id ch.session).1 ch.session.next_waiter)),
      ))
        × (get
              (allocate_packet_id ch.session).1
              (started req AckKind.pubrec ch).session.pending_acks
            ≡ some (AckSlot.pubrec ch.session.next_waiter))
        × ((dispatch_client_inbound walk config
              (Packet.pubrec (allocate_packet_id ch.session).1)
              mid).0.channel.queue
            ≡ mid.channel.queue
              ++ (WriteCmd.packet (Packet.pubrel (allocate_packet_id ch.session).1) ∷ []))
        × ((resume
              (pubrec (allocate_packet_id ch.session).1 ch.session.next_waiter)
              (dispatch_client_inbound walk config
                (Packet.pubrec (allocate_packet_id ch.session).1)
                mid).0.channel).1
            ≡ ok (
                awaiting
                  (pubcomp (allocate_packet_id ch.session).1 mid.channel.session.next_waiter)))
        × (get
              (allocate_packet_id ch.session).1
              (resume
                (pubrec (allocate_packet_id ch.session).1 ch.session.next_waiter)
                (dispatch_client_inbound walk config
                  (Packet.pubrec (allocate_packet_id ch.session).1)
                  mid).0.channel).0.session.pending_acks
            ≡ some (AckSlot.pubcomp mid.channel.session.next_waiter))
        × ((resume
              (pubcomp (allocate_packet_id ch.session).1 mid.channel.session.next_waiter)
              (dispatch_client_inbound walk config
                (Packet.pubcomp (allocate_packet_id ch.session).1)
                later).0.channel).1
            ≡ ok (
                done (
                  MqttResponse.published (PublishAck.completed (allocate_packet_id ch.session).1))))
  unfolding start_publish dispatch_client_inbound clear_outbound_inflight park_publish_ack_waiter
      park allocate_packet_id
  published_exactly_once req ch mid later q alive alive' parked parked' =
      let id : PacketId = (allocate_packet_id ch.session).1 in
      let woken = wake_parked id AckKind.pubrec ch.session.next_waiter mid.channel.session parked in
      let resumed =
        ap (λ r. resume (pubrec id ch.session.next_waiter) r.0.channel)
          (pubrec_dispatched walk config id mid alive')
        ∙ resume_received _ id id ch.session.next_waiter
            (woken_parked id AckKind.pubrec ch.session.next_waiter mid.channel.session parked) in
      (
        ap (λ x. publish_by_qos x req ch) q ∙ exactly_once_starts req ch alive,
        parked_in id (AckSlot.pubrec ch.session.next_waiter) _,
        ap (λ r. r.0.channel.queue) (pubrec_dispatched walk config id mid alive'),
        ap (λ r. r.1) resumed ∙ ap (λ s. ok (awaiting (pubcomp id s.next_waiter))) woken,
        ap (λ r. get id r.0.session.pending_acks) resumed
            ∙ parked_in id
                (AckSlot.pubcomp
                  (wake_ack_waiter id AckKind.pubrec mid.channel.session).next_waiter)
                _
            ∙ ap (λ s. some (AckSlot.pubcomp s.next_waiter)) woken,
        ap (λ r. r.1)
            (resume_completed _ id id mid.channel.session.next_waiter (
              woken_parked id AckKind.pubcomp mid.channel.session.next_waiter later.channel.session
                parked')),
      )
