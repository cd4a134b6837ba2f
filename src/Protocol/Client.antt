-- ===== src/Protocol/Client.antt =====
-- protocol/client.rs: the pieces of `handle_client`, each one run of the task between two awaits,
-- and the dispatch of inbound packets. A task that the dispatch spawns is an entry of `spawned`:
-- an endpoint of the router with what it is given, or the fallback handler.
pub mod Delivery
pub mod Run
pub mod Answers
pub mod Termination
pub mod Interrupt
use hotaru_mqtt.Base.{
  ℕ, List, [], ◌∷◌, ◌++◌, map, Bool, true, false, Option, none, some, ◌==◌, if◌then◌else◌, Bytes,
  Outcome, ok, err, panic,
}
use hotaru_mqtt.Request.{PacketId, IncomingPublish, WillMessage, TopicFilter, Credentials}
use hotaru_mqtt.Request.Qos
use hotaru_mqtt.Request.Qos.{exactly_once}
use hotaru_mqtt.Error.{MqttError, TimeoutKind, Violation}
use hotaru_mqtt.Packet.{Packet, PublishPacket, ConnectPacket, WillPacket, TopicSubscription}
use hotaru_mqtt.Packet.ConnackReturnCode.{ConnackReturnCode}
use hotaru_mqtt.Session.{
  AckKind, BindInfo, set_bind, allocate_packet_id, wake_ack_waiter, wake_suback_waiter,
  wake_unsuback_waiter, clear_outbound_inflight, take_qos2_publish,
}
use hotaru_mqtt.Channel.{MqttChannel, send_packet}
use hotaru_mqtt.Broker.{incoming_from_packet}
use hotaru_mqtt.Action.{Action, Timed, elapsed, finished, pure, modify, ◌>>=◌, ◌>>◌}
use hotaru_mqtt.Client.{MqttClientConfig}
use hotaru_mqtt.Protocol.{ack_inbound_publish_pre_chain, with_session}

-- In seconds.
unfoldable pub client_ping_interval : ℕ → Option ℕ
client_ping_interval keep_alive = if keep_alive == 0 then none else some keep_alive

abbrev pub will_packet : Option WillMessage → Option WillPacket
will_packet none = none
will_packet (some w) =
    some (record { topic = w.topic; payload = w.payload; qos = w.qos; retain = w.retain })

abbrev pub username_of : Option Credentials → Option Bytes
username_of none = none
username_of (some c) = some c.username

abbrev pub password_of : Option Credentials → Option Bytes
password_of none = none
password_of (some c) = some c.password

unfoldable pub build_connect : {H : Type 0} → MqttClientConfig H → ConnectPacket
build_connect config = record {
  client_id = config.client_id;
  clean_session = config.clean_session;
  keep_alive = config.keep_alive_secs;
  username = username_of config.credentials;
  password = password_of config.credentials;
  will = will_packet config.will;
}

-- The answer to CONNECT.
abbrev pub accepted : ConnackReturnCode → Outcome MqttError (Unit {0})
accepted ConnackReturnCode.accepted = ok tt
accepted code = err (MqttError.protocol (Violation.connection_refused code))

unfoldable pub receive_connack : Timed (Outcome MqttError Packet) → Outcome MqttError (Unit {0})
receive_connack elapsed = err (MqttError.timeout TimeoutKind.connack)
receive_connack (finished (ok (Packet.connack ack))) = accepted ack.return_code
receive_connack (finished (ok p)) = err (MqttError.protocol Violation.expected_connack)
receive_connack (finished (err e)) = err e
receive_connack (finished panic) = panic

abbrev pub lift : {S A : Type 0} → Outcome MqttError A → Action S A
lift r s = (s, r)

abbrev pub topic_subscriptions : List TopicFilter → List TopicSubscription
topic_subscriptions = map (λ tf. record { topic = tf.filter; qos = tf.qos })

-- `allocate_packet_id` on the channel.
abbrev pub allocate : Action MqttChannel PacketId
allocate ch = let (s, id) = allocate_packet_id ch.session in (record ch { session = s }, ok id)

unfoldable pub subscribe_initially : List TopicFilter → Action MqttChannel (Unit {0})
subscribe_initially [] = pure tt
subscribe_initially (tf ∷ tfs) = do
  id ← allocate
  send_packet
      (Packet.subscribe (record { packet_id = id; subscriptions = topic_subscriptions (tf ∷ tfs) }))

unfoldable pub send_connect : {H : Type 0} → MqttClientConfig H → Action MqttChannel (Unit {0})
send_connect config = send_packet (Packet.connect (build_connect config))

-- From the answer to CONNECT to the loop.
unfoldable pub connected :
    {H : Type 0}
    → MqttClientConfig H
    → Timed (Outcome MqttError Packet)
    → Action MqttChannel (Unit {0})
connected config answer =
    let info : BindInfo = record {
      client_id = config.client_id;
      keep_alive = config.keep_alive_secs;
    } in
    (do
      lift (receive_connack answer)
      modify (with_session (λ s. (set_bind s info).0))
      subscribe_initially config.initial_subscriptions)

-- What the `select!` of a turn returns.
pub data Selected : Type 0 where
  read : Outcome MqttError Packet → Selected
  ping_due shutdown_notified : Selected

-- `return` leaves without the DISCONNECT, and a panic unwinds the task.
pub data Turn : Type 0 where
  continue break panicked : Turn
  return : MqttError → Turn

pub data Spawned (Node H : Type 0) : Type 0 where
  endpoint : Node → IncomingPublish → Spawned Node H
  fallback : H → IncomingPublish → Spawned Node H

pub record Client (Node H : Type 0) : Type 0 where
  pub channel : MqttChannel
  pub spawned : List (Spawned Node H)

module _ {Node H : Type 0} where
  abbrev pub put :
      {A : Type 0}
      → Client Node H
      → MqttChannel × Outcome MqttError A
      → Client Node H × Outcome MqttError A
  put cl (ch, r) = (record cl { channel = ch }, r)

  abbrev pub on_channel : {A : Type 0} → Action MqttChannel A → Action (Client Node H) A
  on_channel act cl = put cl (act cl.channel)

  -- One task for each endpoint that matches, or one for the fallback if none does.
  unfoldable pub spawn_all : List Node → Option H → IncomingPublish → List (Spawned Node H)
  spawn_all [] none inc = []
  spawn_all [] (some handler) inc = fallback handler inc ∷ []
  spawn_all (node ∷ nodes) handler inc = map (λ n. endpoint n inc) (node ∷ nodes)

  module _ (walk : Bytes → List Node) (config : MqttClientConfig H) where
    unfoldable pub dispatch_incoming_to_endpoints_owned :
        IncomingPublish → Client Node H → Client Node H
    dispatch_incoming_to_endpoints_owned inc cl = record cl {
      spawned = cl.spawned ++ spawn_all (walk inc.topic) config.default_inbound inc;
    }

    unfoldable pub dispatch_inbound_to_endpoints : PublishPacket → Client Node H → Client Node H
    dispatch_inbound_to_endpoints p cl = record cl {
      spawned =
          cl.spawned ++ spawn_all (walk p.topic) config.default_inbound (incoming_from_packet p);
    }

    abbrev pub take_stored : PacketId → Action MqttChannel (Option IncomingPublish)
    take_stored id ch =
        let (s, stored) = take_qos2_publish id ch.session in (record ch { session = s }, ok stored)

    abbrev pub dispatch_stored : Option IncomingPublish → Client Node H → Client Node H
    dispatch_stored none cl = cl
    dispatch_stored (some inc) cl = dispatch_incoming_to_endpoints_owned inc cl

    -- True for DISCONNECT.
    unfoldable pub dispatch_client_inbound : Packet → Action (Client Node H) Bool
    dispatch_client_inbound (Packet.publish p) = do
      on_channel (ack_inbound_publish_pre_chain p)
      (if Qos.eq p.qos exactly_once then pure tt else modify (dispatch_inbound_to_endpoints p))
      pure false
    dispatch_client_inbound (Packet.puback id) = do
      on_channel (modify (with_session (wake_ack_waiter id AckKind.puback)))
      on_channel (modify (with_session (clear_outbound_inflight id)))
      pure false
    dispatch_client_inbound (Packet.pubrec id) = do
      on_channel (modify (with_session (wake_ack_waiter id AckKind.pubrec)))
      on_channel (send_packet (Packet.pubrel id))
      pure false
    dispatch_client_inbound (Packet.pubcomp id) = do
      on_channel (modify (with_session (wake_ack_waiter id AckKind.pubcomp)))
      on_channel (modify (with_session (clear_outbound_inflight id)))
      pure false
    dispatch_client_inbound (Packet.pubrel id) = do
      stored ← on_channel (take_stored id)
      modify (dispatch_stored stored)
      on_channel (send_packet (Packet.pubcomp id))
      pure false
    dispatch_client_inbound (Packet.suback s) = do
      on_channel (modify (with_session (wake_suback_waiter s.packet_id s.return_codes)))
      pure false
    dispatch_client_inbound (Packet.unsuback id) = do
      on_channel (modify (with_session (wake_unsuback_waiter id)))
      pure false
    dispatch_client_inbound Packet.disconnect = pure true
    dispatch_client_inbound _ = pure false

    abbrev pub after_dispatch : Client Node H × Outcome MqttError Bool → Client Node H × Turn
    after_dispatch (cl, ok true) = (cl, break)
    after_dispatch (cl, ok false) = (cl, continue)
    after_dispatch (cl, err e) = (cl, return e)
    after_dispatch (cl, panic) = (cl, panicked)

    abbrev pub after_ping : Client Node H × Outcome MqttError (Unit {0}) → Client Node H × Turn
    after_ping (cl, ok u) = (cl, continue)
    after_ping (cl, err e) = (cl, break)
    after_ping (cl, panic) = (cl, panicked)

    abbrev pub select_arm : Selected → Client Node H → Client Node H × Turn
    select_arm (read (ok p)) cl = after_dispatch (dispatch_client_inbound p cl)
    select_arm (read (err MqttError.io)) cl = (cl, break)
    select_arm (read (err e)) cl = (cl, return e)
    select_arm (read panic) cl = (cl, panicked)
    select_arm ping_due cl = after_ping (on_channel (send_packet Packet.pingreq) cl)
    select_arm shutdown_notified cl = (cl, break)

    unfoldable pub client_turn : Selected → Client Node H → Client Node H × Turn
    client_turn selected cl = if cl.channel.is_open then select_arm selected cl else (cl, break)

-- After the loop: the DISCONNECT, whose failure nobody reads.
unfoldable pub disconnect : MqttChannel → MqttChannel
disconnect ch = (send_packet Packet.disconnect ch).0
