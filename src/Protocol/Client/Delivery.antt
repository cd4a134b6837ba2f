-- ===== src/Protocol/Client/Delivery.antt =====
-- protocol/client.rs: an inbound PUBLISH of qos 2, up to the endpoints.
use hotaru_mqtt.Base.{
  ◌≡◌, refl, ap, ◌∙◌, List, [], ◌∷◌, ◌++◌, Option, none, some, ==_refl, true, false, Bytes, ok,
}
use hotaru_mqtt.Request.{PacketId, IncomingPublish}
use hotaru_mqtt.Request.Qos.{exactly_once}
use hotaru_mqtt.Packet.{Packet, PublishPacket}
use hotaru_mqtt.DashMap.{insert, IsUnique, nat_key}
use hotaru_mqtt.DashMap.Laws.{get-insert_self, get-remove, insert-IsUnique}
use hotaru_mqtt.Session.{MqttSession, stash_qos2_publish, take_qos2_publish}
use hotaru_mqtt.Channel.{WriteCmd, send_packet}
use hotaru_mqtt.Channel.Sending.{packet_accepted}
use hotaru_mqtt.Broker.{incoming_from_packet}
use hotaru_mqtt.Client.{MqttClientConfig}
use hotaru_mqtt.Action.{and_then, pure, modify, ◌>>◌}
use hotaru_mqtt.Protocol.{ack_inbound_publish_pre_chain, with_session}
use hotaru_mqtt.Protocol.Client.{
  Client, put, on_channel, spawn_all, dispatch_stored, dispatch_incoming_to_endpoints_owned,
  dispatch_client_inbound,
}

-- `p` as a PUBLISH of qos 2 with an id.
abbrev pub exactly : PacketId → PublishPacket → PublishPacket
exactly id p = record p { qos = exactly_once; packet_id = some id }

abbrev pub sends : Packet → List WriteCmd
sends p = WriteCmd.packet p ∷ []

-- What a first and a second PUBREL find.
pub found_once :
    (id : PacketId) (a b : IncomingPublish) (s : MqttSession)
    → IsUnique s.qos2_recv
    → ((take_qos2_publish id (stash_qos2_publish id b (stash_qos2_publish id a s))).1 ≡ some b)
      × ((take_qos2_publish id
            (take_qos2_publish id (stash_qos2_publish id b (stash_qos2_publish id a s))).0).1
          ≡ none)
unfolding take_qos2_publish stash_qos2_publish
found_once id a b s u = (
  get-insert_self id b (insert id a s.qos2_recv),
  get-remove id id (insert id b (insert id a s.qos2_recv))
        (insert-IsUnique id b (insert id a s.qos2_recv) (insert-IsUnique id a s.qos2_recv u))
      ∙ rw (==_refl id) refl,
)

module _ {Node H : Type 0} (walk : Bytes → List Node) (config : MqttClientConfig H) where
  abbrev after_publish : PacketId → PublishPacket → Client Node H → Client Node H
  after_publish id p cl = record cl {
    channel = record cl.channel {
      session = stash_qos2_publish id (incoming_from_packet (exactly id p)) cl.channel.session;
      queue = cl.channel.queue ++ sends (Packet.pubrec id);
    };
  }

  publish_dispatched :
      (id : PacketId) (p : PublishPacket) (cl : Client Node H)
      → cl.channel.writer_alive ≡ true
      → dispatch_client_inbound walk config (Packet.publish (exactly id p)) cl
        ≡ (after_publish id p cl, ok false)
  unfolding dispatch_client_inbound ack_inbound_publish_pre_chain hotaru_mqtt.Request.Qos.eq
  publish_dispatched id p cl alive =
      ap (λ r. and_then (put {Node = Node} {H = H} cl r) (λ u. pure false))
        (packet_accepted (Packet.pubrec id)
          (with_session (stash_qos2_publish id (incoming_from_packet (exactly id p))) cl.channel)
          alive)

  abbrev after_pubrel : PacketId → Option IncomingPublish → Client Node H → Client Node H
  after_pubrel id stored cl = dispatch_stored walk config stored (record cl {
    channel = record cl.channel {
      session = (take_qos2_publish id cl.channel.session).0;
      queue = cl.channel.queue ++ sends (Packet.pubcomp id);
    };
  })

  release_dispatched :
      (id : PacketId) (stored : Option IncomingPublish) (cl : Client Node H)
      → cl.channel.writer_alive ≡ true
      → (modify (dispatch_stored walk config stored)
            >> (on_channel (send_packet (Packet.pubcomp id)) >> pure false))
          (record cl {
            channel = record cl.channel { session = (take_qos2_publish id cl.channel.session).0 };
          })
        ≡ (after_pubrel id stored cl, ok false)
  unfolding dispatch_incoming_to_endpoints_owned
  release_dispatched id none cl alive =
      ap (λ r. and_then (put {Node = Node} {H = H} cl r) (λ u. pure false))
        (packet_accepted (Packet.pubcomp id)
          (record cl.channel { session = (take_qos2_publish id cl.channel.session).0 }) alive)
  release_dispatched id (some inc) cl alive =
      ap
        (λ r.
          and_then
            (put {Node = Node} {H = H}
              (record cl {
                spawned = cl.spawned ++ spawn_all (walk inc.topic) config.default_inbound inc;
              })
              r)
            (λ u. pure false))
        (packet_accepted (Packet.pubcomp id)
          (record cl.channel { session = (take_qos2_publish id cl.channel.session).0 }) alive)

  pubrel_dispatched :
      (id : PacketId) (cl : Client Node H)
      → cl.channel.writer_alive ≡ true
      → dispatch_client_inbound walk config (Packet.pubrel id) cl
        ≡ (after_pubrel id (take_qos2_publish id cl.channel.session).1 cl, ok false)
  unfolding dispatch_client_inbound
  pubrel_dispatched id cl alive = release_dispatched id _ cl alive

  -- A PUBLISH of qos 2 and a second one under the same id start no endpoint; the first PUBREL
  -- starts the endpoints on the second one, once, and a further PUBREL starts none. Over a live
  -- writer each of the four packets is answered, in order.
  pub delivered_once :
      (id : PacketId) (p again : PublishPacket) (cl : Client Node H)
      → IsUnique cl.channel.session.qos2_recv
      → cl.channel.writer_alive ≡ true
      → ((dispatch_client_inbound walk config
            (Packet.publish (exactly id again))
            (dispatch_client_inbound walk config (Packet.publish (exactly id p)) cl).0).0.spawned
          ≡ cl.spawned)
        × ((dispatch_client_inbound walk config
              (Packet.pubrel id)
              (dispatch_client_inbound walk config
                (Packet.publish (exactly id again))
                (dispatch_client_inbound walk config
                  (Packet.publish (exactly id p))
                  cl).0).0).0.spawned
            ≡ cl.spawned
              ++ spawn_all
                  (walk again.topic)
                  config.default_inbound
                  (incoming_from_packet (exactly id again)))
        × ((dispatch_client_inbound walk config
              (Packet.pubrel id)
              (dispatch_client_inbound walk config
                (Packet.pubrel id)
                (dispatch_client_inbound walk config
                  (Packet.publish (exactly id again))
                  (dispatch_client_inbound walk config
                    (Packet.publish (exactly id p))
                    cl).0).0).0).0.spawned
            ≡ cl.spawned
              ++ spawn_all
                  (walk again.topic)
                  config.default_inbound
                  (incoming_from_packet (exactly id again)))
        × ((dispatch_client_inbound walk config
              (Packet.pubrel id)
              (dispatch_client_inbound walk config
                (Packet.pubrel id)
                (dispatch_client_inbound walk config
                  (Packet.publish (exactly id again))
                  (dispatch_client_inbound walk config
                    (Packet.publish (exactly id p))
                    cl).0).0).0).0.channel.queue
            ≡ (((cl.channel.queue ++ sends (Packet.pubrec id)) ++ sends (Packet.pubrec id))
                ++ sends (Packet.pubcomp id))
              ++ sends (Packet.pubcomp id))
  unfolding dispatch_incoming_to_endpoints_owned incoming_from_packet
  delivered_once id p again cl u alive =
      let (first, second) =
        found_once id (incoming_from_packet (exactly id p))
          (incoming_from_packet (exactly id again)) cl.channel.session u in
      let stashed : Client Node H = after_publish id again (after_publish id p cl) in
      rw
        (
          publish_dispatched id p cl alive,
          publish_dispatched id again (after_publish id p cl) alive,
          pubrel_dispatched id stashed alive,
          first,
          pubrel_dispatched id
              (after_pubrel id (some (incoming_from_packet (exactly id again))) stashed) alive,
          second,
        )
        (refl, refl, refl, refl)
