-- ===== src/Protocol/Send.antt =====
-- protocol/send.rs: the outbound path of both roles. An operation is cut at its awaits: it starts,
-- and is resumed with what came of its wait, the value that was sent, `none` where the sender was
-- dropped, or the time that was up first.
pub mod Steps
pub mod Flows
pub mod Failure
pub mod Race
use hotaru_mqtt.Base.{ℕ, List, false, Option, none, some, Bytes, Outcome, ok, err}
use hotaru_mqtt.Request.{
  PacketId, PublishRequest, PublishAck, TopicFilter, MqttRequest, MqttResponse, default_request,
}
use hotaru_mqtt.Request.Qos.{Qos, at_most_once, at_least_once, exactly_once}
use hotaru_mqtt.Request.SubackCode.{SubackCode}
use hotaru_mqtt.Error.{MqttError, TimeoutKind}
use hotaru_mqtt.Packet.{Packet, PublishPacket}
use hotaru_mqtt.DashMap.{get, nat_key}
use hotaru_mqtt.Session.{
  AckKind, Waiter, Resolution, MqttSession, park_publish_ack_waiter, park_suback_waiter,
  park_unsuback_waiter, cancel_ack_waiter,
}
use hotaru_mqtt.Channel.{MqttChannel, send_packet, send_publish}
use hotaru_mqtt.Context.{MqttContext}
use hotaru_mqtt.Action.{Action, Timed, elapsed, finished, pure, fail, modify, ◌>>=◌, ◌>>◌}
use hotaru_mqtt.Protocol.{with_session}
use hotaru_mqtt.Protocol.Client.{allocate, topic_subscriptions}

-- What an operation waits for, on the receiver of which waiter.
pub data Await : Type 0 where
  puback pubrec pubcomp suback unsuback : PacketId → Waiter → Await

pub data Progress : Type 0 where
  done : MqttResponse → Progress
  awaiting : Await → Progress

-- What the session does for a receiver that it returns.
abbrev pub parking : (MqttSession → MqttSession × Waiter) → Action MqttChannel Waiter
parking f ch = let (s, w) = f ch.session in (record ch { session = s }, ok w)

abbrev pub outgoing : PublishRequest → Option PacketId → PublishPacket
outgoing req id = record {
  topic = req.topic;
  payload = req.payload;
  dup = false;
  qos = req.qos;
  retain = req.retain;
  packet_id = id;
}

abbrev pub publish_by_qos : Qos → PublishRequest → Action MqttChannel Progress
publish_by_qos at_most_once req = do
  send_publish (outgoing req none)
  pure (done (MqttResponse.published PublishAck.sent))
publish_by_qos at_least_once req = do
  id ← allocate
  w ← parking (park_publish_ack_waiter id AckKind.puback)
  send_publish (outgoing req (some id))
  pure (awaiting (puback id w))
publish_by_qos exactly_once req = do
  id ← allocate
  w ← parking (park_publish_ack_waiter id AckKind.pubrec)
  send_publish (outgoing req (some id))
  pure (awaiting (pubrec id w))

unfoldable pub start_publish : PublishRequest → Action MqttChannel Progress
start_publish req = publish_by_qos req.qos req

unfoldable pub start_subscribe : List TopicFilter → Action MqttChannel Progress
start_subscribe filters = do
  id ← allocate
  w ← parking (park_suback_waiter id)
  send_packet
      (Packet.subscribe (record { packet_id = id; subscriptions = topic_subscriptions filters }))
  pure (awaiting (suback id w))

unfoldable pub start_unsubscribe : List Bytes → Action MqttChannel Progress
start_unsubscribe topics = do
  id ← allocate
  w ← parking (park_unsuback_waiter id)
  send_packet (Packet.unsubscribe (record { packet_id = id; topics = topics }))
  pure (awaiting (unsuback id w))

-- `timeout(DEFAULT_ACK_TIMEOUT, receiver).await.map_err(..)?.map_err(..)?`
unfoldable pub await_ack : {A : Type 0} → PacketId → Timed (Option A) → Action MqttChannel A
await_ack id elapsed = do
  modify (with_session (cancel_ack_waiter id))
  fail (MqttError.timeout TimeoutKind.ack)
await_ack id (finished none) = fail MqttError.channel_closed
await_ack id (finished (some a)) = pure a

unfoldable pub resume_puback : PacketId → Timed (Option PacketId) → Action MqttChannel Progress
resume_puback id woken = do
  acknowledged ← await_ack id woken
  pure (done (MqttResponse.published (PublishAck.acknowledged acknowledged)))

-- PUBREL was sent by the dispatch of PUBREC.
unfoldable pub resume_pubrec : PacketId → Timed (Option PacketId) → Action MqttChannel Progress
resume_pubrec id woken = do
  received ← await_ack id woken
  w ← parking (park_publish_ack_waiter id AckKind.pubcomp)
  pure (awaiting (pubcomp id w))

unfoldable pub resume_pubcomp : PacketId → Timed (Option PacketId) → Action MqttChannel Progress
resume_pubcomp id woken = do
  completed ← await_ack id woken
  pure (done (MqttResponse.published (PublishAck.completed completed)))

unfoldable pub resume_suback :
    PacketId → Timed (Option (List SubackCode)) → Action MqttChannel Progress
resume_suback id woken = do codes ← await_ack id woken; pure (done (MqttResponse.subscribed codes))

unfoldable pub resume_unsuback : PacketId → Timed (Option (Unit {0})) → Action MqttChannel Progress
resume_unsuback id woken = do answered ← await_ack id woken; pure (done MqttResponse.unsubscribed)

unfoldable pub start_request : MqttRequest → Action MqttChannel Progress
start_request (MqttRequest.publish req) = start_publish req
start_request (MqttRequest.subscribe filters) = start_subscribe filters
start_request (MqttRequest.unsubscribe topics) = start_unsubscribe topics

-- What a receiver that is read now has got, by the type of its value. A receiver with nothing is
-- read when its time is up.
abbrev pub woken_by :
    {A : Type 0} → (Resolution → Option A) → Waiter → MqttSession → Timed (Option A)
woken_by value w s = elim (get w s.resolved) [ none ↦ elapsed | some r ↦ finished (value r) ]

abbrev pub id_value : Resolution → Option PacketId
id_value (Resolution.acked id) = some id
id_value _ = none

abbrev pub codes_value : Resolution → Option (List SubackCode)
codes_value (Resolution.granted codes) = some codes
codes_value _ = none

abbrev pub unit_value : Resolution → Option (Unit {0})
unit_value Resolution.unsubscribed = some tt
unit_value _ = none

-- The rest of an operation, by what it waits for.
unfoldable pub resume : Await → Action MqttChannel Progress
resume (puback id w) ch = resume_puback id (woken_by id_value w ch.session) ch
resume (pubrec id w) ch = resume_pubrec id (woken_by id_value w ch.session) ch
resume (pubcomp id w) ch = resume_pubcomp id (woken_by id_value w ch.session) ch
resume (suback id w) ch = resume_suback id (woken_by codes_value w ch.session) ch
resume (unsuback id w) ch = resume_unsuback id (woken_by unit_value w ch.session) ch

-- `send_impl` up to its first await: the channel that is installed, the request, which a default
-- replaces in the context, and later the response.
unfoldable pub take_request :
    {Node : Type 0} → MqttContext Node → Outcome MqttError (ℕ × MqttRequest × MqttContext Node)
take_request ctx = elim ctx.channel [
  | none ↦ err MqttError.not_connected
  | some c ↦ ok (c, ctx.request, record ctx { request = MqttRequest.publish default_request })
]

unfoldable pub respond : {Node : Type 0} → MqttResponse → MqttContext Node → MqttContext Node
respond response ctx = record ctx { response = response }
