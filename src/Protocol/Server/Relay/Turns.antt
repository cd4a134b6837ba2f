-- ===== src/Protocol/Server/Relay/Turns.antt =====
-- protocol/server.rs: the two turns of the server.
use hotaru_mqtt.Base.{
  ◌≡◌, refl, sym, ap, ◌∙◌, [], ◌++◌, append-nil, Option, none, some, true, Bytes, ok,
}
use hotaru_mqtt.Request.Qos
use hotaru_mqtt.Request.{PacketId, IncomingPublish}
use hotaru_mqtt.Packet.{Packet, PublishPacket}
use hotaru_mqtt.DashMap.{str_key, nat_key}
use hotaru_mqtt.Session.{stash_qos2_publish, take_qos2_publish}
use hotaru_mqtt.Channel.{MqttChannel, send_packet}
use hotaru_mqtt.Channel.Sending.{packet_accepted}
use hotaru_mqtt.Action.{and_then, pure}
use hotaru_mqtt.Broker.{ConnectionId, incoming_from_packet}
use hotaru_mqtt.Broker.Unserved.{set_channel_same, set_channel_other}
use hotaru_mqtt.Protocol.{ack_inbound_publish_pre_chain, with_session}
use hotaru_mqtt.Protocol.Client.Delivery.{exactly, sends}
use hotaru_mqtt.Protocol.Server.{
  Server, enqueue, enqueue_released, on_channel, on_inner, put_inner, put_channel,
  dispatch_server_inbound,
}
use hotaru_mqtt.Protocol.Server.Relay.{
  stashed, let_go, handed, channel_of, put_own, Effect, put_own-Effect,
}

-- The channel after the take of a PUBREL.
abbrev taken_from : PacketId → MqttChannel → MqttChannel
taken_from id ch = record ch { session = (take_qos2_publish id ch.session).0 }

enqueue_released_lem :
    (id : PacketId) (stored : Option IncomingPublish) (sv : Server)
    → sv.worker_alive ≡ true
    → enqueue_released id stored sv ≡ (record sv { work = sv.work ++ handed id stored }, ok tt)
unfolding enqueue
enqueue_released_lem id none sv h =
    ap (λ w. (record sv { work = w }, ok tt)) (sym (append-nil sv.work))
enqueue_released_lem id (some stored) sv h = rw h refl

module _ (client : Bytes) (c : ConnectionId) where
  publish_dispatched :
      (id : PacketId) (p : PublishPacket) (sv : Server)
      → (channel_of c sv).writer_alive ≡ true
      → dispatch_server_inbound client c (Packet.publish (exactly id p)) sv
        ≡ (put_own c (stashed id p (channel_of c sv)) sv, ok tt)
  unfolding dispatch_server_inbound ack_inbound_publish_pre_chain Qos.eq
  publish_dispatched id p sv alive =
      ap (λ r. and_then (put_inner sv (put_channel c sv.inner r)) (λ u. pure tt))
        (packet_accepted (Packet.pubrec id)
          (with_session (stash_qos2_publish id (incoming_from_packet (exactly id p)))
            (channel_of c sv))
          alive)

  pub publish-Effect :
      (id : PacketId) (p : PublishPacket) (sv : Server)
      → (channel_of c sv).writer_alive ≡ true
      → Effect c
          (stashed id p)
          []
          sv
          (dispatch_server_inbound client c (Packet.publish (exactly id p)) sv).0
  publish-Effect id p sv alive =
      rw (publish_dispatched id p sv alive) (put_own-Effect c (stashed id p) sv)

  abbrev taken : PacketId → Option IncomingPublish → Server → Server
  taken id stored sv = record (put_own c (taken_from id (channel_of c sv)) sv) {
    work = sv.work ++ handed id stored;
  }

  pubrel_dispatched :
      (id : PacketId) (sv : Server)
      → (channel_of c sv).writer_alive ≡ true
      → sv.worker_alive ≡ true
      → let sv' = taken id (take_qos2_publish id (channel_of c sv).session).1 sv in
        dispatch_server_inbound client c (Packet.pubrel id) sv ≡ (
          put_own c
              (record (channel_of c sv') {
                queue = (channel_of c sv').queue ++ sends (Packet.pubcomp id);
              })
              sv',
          ok tt,
        )
  unfolding dispatch_server_inbound
  pubrel_dispatched id sv alive worker =
      let stored = (take_qos2_publish id (channel_of c sv).session).1 in
      let sv' = taken id stored sv in
      let same : channel_of c sv' ≡ taken_from id (channel_of c sv) =
        set_channel_same c (taken_from id (channel_of c sv)) sv.inner in
      ap (λ r. and_then r (λ u. on_inner (on_channel c (send_packet (Packet.pubcomp id)))))
        (enqueue_released_lem id stored (put_own c (taken_from id (channel_of c sv)) sv) worker)
      ∙ ap (λ r. put_inner sv' (put_channel c sv'.inner r))
          (packet_accepted (Packet.pubcomp id) (channel_of c sv')
            (ap (λ ch. ch.writer_alive) same ∙ alive))

  pub pubrel-Effect :
      (id : PacketId) (sv : Server)
      → (channel_of c sv).writer_alive ≡ true
      → sv.worker_alive ≡ true
      → Effect c
          (let_go id)
          (handed id (take_qos2_publish id (channel_of c sv).session).1)
          sv
          (dispatch_server_inbound client c (Packet.pubrel id) sv).0
  pubrel-Effect id sv alive worker =
      let stored = (take_qos2_publish id (channel_of c sv).session).1 in
      let sv' = taken id stored sv in
      let answer : MqttChannel → MqttChannel =
        λ ch. record ch { queue = ch.queue ++ sends (Packet.pubcomp id) } in
      let end = answer (channel_of c sv') in
      rw (pubrel_dispatched id sv alive worker) (record {
        work = refl;
        own =
            set_channel_same c end sv'.inner
            ∙ ap answer (set_channel_same c (taken_from id (channel_of c sv)) sv.inner);
        others = λ d h.
            set_channel_other c d end sv'.inner h
            ∙ set_channel_other c d (taken_from id (channel_of c sv)) sv.inner h;
        sessions = refl;
        subscriptions = refl;
        worker = refl;
      })
