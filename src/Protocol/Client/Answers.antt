-- ===== src/Protocol/Client/Answers.antt =====
-- protocol/client.rs: no packet and no tick makes a turn of the loop panic.
use hotaru_mqtt.Base.{
  ◌≢◌, refl, List, Bool, true, false, arith, if◌then◌else◌, Bytes, Outcome, ok, err, panic,
}
use hotaru_mqtt.Error.{MqttError}
use hotaru_mqtt.Request.Qos
use hotaru_mqtt.Request.Qos.{exactly_once}
use hotaru_mqtt.Packet.{Packet, PublishPacket}
use hotaru_mqtt.Channel.{send_packet}
use hotaru_mqtt.Channel.Sending.{send_packet_answers}
use hotaru_mqtt.Client.{MqttClientConfig}
use hotaru_mqtt.Action.{pure, modify, ◌>>◌}
use hotaru_mqtt.Protocol.{ack_inbound_publish_pre_chain}
use hotaru_mqtt.Protocol.Server.Answers.{and_then_answers, ack_answers}
use hotaru_mqtt.Protocol.Client.{
  Client, Selected, break, panicked, on_channel, dispatch_inbound_to_endpoints,
  dispatch_client_inbound, after_dispatch, after_ping, select_arm, client_turn,
}

module _ {Node H : Type 0} (walk : Bytes → List Node) (config : MqttClientConfig H) where
  spawn_answers :
      (stored : Bool) (p : PublishPacket) (cl : Client Node H)
      → (((if stored then pure tt else modify (dispatch_inbound_to_endpoints walk config p))
            >> pure false)
          cl).1
        ≢ panic
  spawn_answers true p cl = λ at. ground arith
  spawn_answers false p cl = λ at. ground arith

  -- A packet that is sent last.
  sent_answers :
      (p : Packet) (cl : Client Node H) → ((on_channel (send_packet p) >> pure false) cl).1 ≢ panic
  sent_answers p cl =
      and_then_answers _ _ (send_packet_answers p cl.channel) λ u s. λ at. ground arith

  dispatch_answers :
      (p : Packet) (cl : Client Node H) → (dispatch_client_inbound walk config p cl).1 ≢ panic
  unfolding dispatch_client_inbound ack_inbound_publish_pre_chain
  dispatch_answers (Packet.publish p) cl =
      and_then_answers _ _ (ack_answers p p.qos p.packet_id cl.channel)
        λ u s. spawn_answers (Qos.eq p.qos exactly_once) p s
  dispatch_answers (Packet.puback id) cl = λ at. ground arith
  dispatch_answers (Packet.pubrec id) cl = sent_answers (Packet.pubrel id) _
  dispatch_answers (Packet.pubcomp id) cl = λ at. ground arith
  dispatch_answers (Packet.pubrel id) cl = sent_answers (Packet.pubcomp id) _
  dispatch_answers (Packet.suback s) cl = λ at. ground arith
  dispatch_answers (Packet.unsuback id) cl = λ at. ground arith
  dispatch_answers (Packet.connect p) cl = λ at. ground arith
  dispatch_answers (Packet.connack a) cl = λ at. ground arith
  dispatch_answers (Packet.subscribe s) cl = λ at. ground arith
  dispatch_answers (Packet.unsubscribe u) cl = λ at. ground arith
  dispatch_answers Packet.pingreq cl = λ at. ground arith
  dispatch_answers Packet.pingresp cl = λ at. ground arith
  dispatch_answers Packet.disconnect cl = λ at. ground arith

  after_dispatch_answers :
      (r : Client Node H × Outcome MqttError Bool)
      → r.1 ≢ panic
      → (after_dispatch walk config r).1 ≢ panicked
  after_dispatch_answers (cl, ok true) h = λ at. ground arith
  after_dispatch_answers (cl, ok false) h = λ at. ground arith
  after_dispatch_answers (cl, err e) h = λ at. ground arith
  after_dispatch_answers (cl, panic) h = absurd (h refl)

  after_ping_answers :
      (r : Client Node H × Outcome MqttError (Unit {0}))
      → r.1 ≢ panic
      → (after_ping walk config r).1 ≢ panicked
  after_ping_answers (cl, ok u) h = λ at. ground arith
  after_ping_answers (cl, err e) h = λ at. ground arith
  after_ping_answers (cl, panic) h = absurd (h refl)

  select_arm_answers :
      (selected : Selected) (cl : Client Node H)
      → selected ≢ Selected.read panic
      → (select_arm walk config selected cl).1 ≢ panicked
  select_arm_answers (Selected.read (ok p)) cl h =
      after_dispatch_answers (dispatch_client_inbound walk config p cl) (dispatch_answers p cl)
  select_arm_answers (Selected.read (err MqttError.io)) cl h = λ at. ground arith
  select_arm_answers (Selected.read (err _)) cl h = λ at. ground arith
  select_arm_answers (Selected.read panic) cl h = absurd (h refl)
  select_arm_answers Selected.ping_due cl h =
      after_ping_answers (on_channel {Node = Node} {H = H} (send_packet Packet.pingreq) cl)
        (send_packet_answers Packet.pingreq cl.channel)
  select_arm_answers Selected.shutdown_notified cl h = λ at. ground arith

  -- A turn panics only if its read did.
  pub client_turn_answers :
      (selected : Selected) (cl : Client Node H)
      → selected ≢ Selected.read panic
      → (client_turn walk config selected cl).1 ≢ panicked
  unfolding client_turn
  client_turn_answers selected cl h = if_open cl.channel.is_open (select_arm_answers selected cl h)
    where
      if_open :
          (b : Bool)
          → (select_arm walk config selected cl).1 ≢ panicked
          → (if b then select_arm walk config selected cl else (cl, break)).1 ≢ panicked
      if_open true h = h
      if_open false h = λ at. ground arith
