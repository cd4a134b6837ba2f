-- ===== src/Protocol/Server.antt =====
-- protocol/server.rs: the pieces of `handle_server`, each one run of a task between two awaits: the
-- admission of a CONNECT, one turn of the select loop, one round of the chain worker, and the
-- teardown. The router's walk over the endpoints of a topic and the run of an endpoint are the
-- parameters `walk` and `run_node`.
mod Admit
pub mod Run
pub mod Admission
pub mod Answers
pub mod Relay
pub mod Termination
unfoldable pub use Admit.*
use hotaru_mqtt.Base.{
  ℕ, zero, suc, ◌+◌, ◌*◌, ◌/◌, ◌%◌, List, [], ◌∷◌, ◌++◌, map, Bool, true, false, not, ◌&&◌, Option,
  none, some, ◌==◌, ltb, if◌then◌else◌, Bytes, is_empty, Outcome, ok, err, panic, ◌⊎◌, inl, inr,
}
use hotaru_mqtt.Request.{PacketId, IncomingPublish, WillMessage, TopicFilter}
use hotaru_mqtt.Request.SubackCode.{SubackCode}
use hotaru_mqtt.Request.Qos
use hotaru_mqtt.Request.Qos.{exactly_once}
use hotaru_mqtt.Error.{MqttError, TimeoutKind, Violation}
use hotaru_mqtt.Packet.{Packet, PublishPacket, ConnectPacket, WillPacket, TopicSubscription}
use hotaru_mqtt.Packet.ConnackReturnCode.{ConnackReturnCode}
use hotaru_mqtt.Safety.{MqttSafety, allows_disabled_keep_alive, max_keep_alive}
use hotaru_mqtt.Codec.Frame.{read_packet}
use hotaru_mqtt.Session.{
  AckKind, BindInfo, set_bind, wake_ack_waiter, clear_outbound_inflight, take_qos2_publish,
}
use hotaru_mqtt.Channel.{MqttChannel, close, send_packet}
use hotaru_mqtt.Context.{
  MqttContext, default_context, set_incoming, install_channel, set_endpoint, should_fanout,
}
use hotaru_mqtt.Broker.{
  Authenticator, ConnectionId, BrokerInner, set_channel, register_session, unregister_session,
  subscribe, unsubscribe, publish, incoming_from_packet,
}
use hotaru_mqtt.Action.{Action, Timed, elapsed, finished, pure, fail, modify, ◌>>=◌, ◌>>◌}
use hotaru_mqtt.Protocol.{ack_inbound_publish_pre_chain, with_session}

-- What the tasks of one connection share: the broker, with the connection's own channel, and the
-- queue from the reader to the chain worker.
pub record Server : Type 0 where
  pub inner : BrokerInner
  pub work : List PublishPacket
  pub worker_alive : Bool

abbrev pub put_inner :
    {A : Type 0} → Server → BrokerInner × Outcome MqttError A → Server × Outcome MqttError A
put_inner sv (st, r) = (record sv { inner = st }, r)

abbrev pub on_inner : {A : Type 0} → Action BrokerInner A → Action Server A
on_inner act sv = put_inner sv (act sv.inner)

-- `publish_work_queue.send`
unfoldable pub enqueue : PublishPacket → Action Server (Unit {0})
enqueue p sv =
    if sv.worker_alive
    then (record sv { work = sv.work ++ (p ∷ []) }, ok tt)
    else (sv, err MqttError.channel_closed)

abbrev pub released : PacketId → IncomingPublish → PublishPacket
released id stored = record {
  topic = stored.topic;
  payload = stored.payload;
  dup = false;
  qos = stored.qos;
  retain = stored.retain;
  packet_id = some id;
}

abbrev pub enqueue_released : PacketId → Option IncomingPublish → Action Server (Unit {0})
enqueue_released id none = pure tt
enqueue_released id (some stored) = enqueue (released id stored)

-- `take_qos2_publish` on the channel.
abbrev pub take_stored : PacketId → Action MqttChannel (Option IncomingPublish)
take_stored id ch =
    let (s, stored) = take_qos2_publish id ch.session in (record ch { session = s }, ok stored)

abbrev pub topic_filters : List TopicSubscription → List TopicFilter
topic_filters = map (λ ts. record { filter = ts.topic; qos = ts.qos })

-- `broker.subscribe`, as an action.
abbrev pub subscribe_action :
    Bytes → ConnectionId → List TopicFilter → Action BrokerInner (List SubackCode)
subscribe_action client c filters st =
    let (st', codes) = subscribe client c filters st in (st', ok codes)

unfoldable pub dispatch_server_inbound : Bytes → ConnectionId → Packet → Action Server (Unit {0})
dispatch_server_inbound client c (Packet.publish p) = do
  on_inner (on_channel c (ack_inbound_publish_pre_chain p))
  if Qos.eq p.qos exactly_once then pure tt else enqueue p
dispatch_server_inbound client c (Packet.subscribe s) = do
  codes ← on_inner (subscribe_action client c (topic_filters s.subscriptions))
  on_inner (
      on_channel c
        (send_packet (Packet.suback (record { packet_id = s.packet_id; return_codes = codes }))))
dispatch_server_inbound client c (Packet.unsubscribe u) = do
  on_inner (modify (unsubscribe client c u.topics))
  on_inner (on_channel c (send_packet (Packet.unsuback u.packet_id)))
dispatch_server_inbound client c Packet.pingreq =
    on_inner (on_channel c (send_packet Packet.pingresp))
dispatch_server_inbound client c (Packet.puback id) = do
  on_inner (on_channel c (modify (with_session (wake_ack_waiter id AckKind.puback))))
  on_inner (on_channel c (modify (with_session (clear_outbound_inflight id))))
dispatch_server_inbound client c (Packet.pubrec id) = do
  on_inner (on_channel c (modify (with_session (wake_ack_waiter id AckKind.pubrec))))
  on_inner (on_channel c (send_packet (Packet.pubrel id)))
dispatch_server_inbound client c (Packet.pubcomp id) = do
  on_inner (on_channel c (modify (with_session (wake_ack_waiter id AckKind.pubcomp))))
  on_inner (on_channel c (modify (with_session (clear_outbound_inflight id))))
dispatch_server_inbound client c (Packet.pubrel id) = do
  stored ← on_inner (on_channel c (take_stored id))
  enqueue_released id stored
  on_inner (on_channel c (send_packet (Packet.pubcomp id)))
dispatch_server_inbound client c (Packet.connect p) =
    fail (MqttError.protocol Violation.session_already_bound)
dispatch_server_inbound client c _ = pure tt

-- How a turn of the loop ends: with another turn, out of it, gracefully or with an error, or with
-- a panic, which unwinds the task.
pub data Turn : Type 0 where
  continue : Turn
  break : (graceful : Bool) → Option MqttError → Turn
  panicked : Turn

abbrev pub after_dispatch : Server × Outcome MqttError (Unit {0}) → Server × Turn
after_dispatch (sv, ok u) = (sv, continue)
after_dispatch (sv, err e) = (sv, break false (some e))
after_dispatch (sv, panic) = (sv, panicked)

-- What the `select!` of a turn returns.
pub data Selected : Type 0 where
  read : ReadOutcome → Selected
  shutdown_notified : Selected

abbrev pub select_arm : Bytes → ConnectionId → Selected → Server → Server × Turn
select_arm client c shutdown_notified sv = (sv, break false none)
select_arm client c (read deadline_elapsed) sv = (sv, break false none)
select_arm client c (read unwound) sv = (sv, panicked)
select_arm client c (read (failed MqttError.io)) sv = (sv, break false none)
select_arm client c (read (failed e)) sv = (sv, break false (some e))
select_arm client c (read (packet Packet.disconnect)) sv = (sv, break true none)
select_arm client c (read (packet p)) sv = after_dispatch (dispatch_server_inbound client c p sv)

unfoldable pub server_turn : Bytes → ConnectionId → Selected → Server → Server × Turn
server_turn client c selected sv =
    if (sv.inner.channels c).is_open
    then select_arm client c selected sv
    else (sv, break false none)

-- What the loop leaves to be reported after the teardown.
abbrev pub terminal : Option MqttError → Outcome MqttError (Unit {0})
terminal none = ok tt
terminal (some e) = err e

abbrev pub publish_decided : Bytes → Option PublishPacket → BrokerInner → BrokerInner
publish_decided source none st = st
publish_decided source (some p) st = publish source p st

module _ {Node : Type 0} (walk : Bytes → List Node)
    (run_node : Node → MqttContext Node → MqttError ⊎ MqttContext Node) where
  abbrev pub mutate : PublishPacket → Option IncomingPublish → PublishPacket
  mutate current none = current
  mutate current (some inc) = record current {
    topic = inc.topic;
    payload = inc.payload;
    qos = inc.qos;
    retain = inc.retain;
  }

  abbrev pub after_node : MqttError ⊎ MqttContext Node → Bool → PublishPacket → Bool × PublishPacket
  after_node (inr out) fanout current = (fanout && should_fanout out, mutate current out.incoming)
  after_node (inl e) fanout current = (false, current)

  -- The loop over the nodes that the cursor finds.
  unfoldable pub chain_loop : ConnectionId → List Node → Bool → PublishPacket → Bool × PublishPacket
  chain_loop c [] fanout current = (fanout, current)
  chain_loop c (node ∷ nodes) fanout current =
      let ctx =
        set_endpoint node
          (install_channel c (set_incoming (incoming_from_packet current) default_context)) in
      let (fanout', current') = after_node (run_node node ctx) fanout current in
      chain_loop c nodes fanout' current'

  unfoldable pub run_server_chain_then_decide_fanout :
      ConnectionId → PublishPacket → Option PublishPacket
  run_server_chain_then_decide_fanout c p =
      let (fanout, current) = chain_loop c (walk p.topic) true p in
      if fanout then some current else none

  -- One round of `run_publish_chain_worker`.
  unfoldable pub worker_round : ConnectionId → Bytes → PublishPacket → BrokerInner → BrokerInner
  worker_round c source p st = publish_decided source (run_server_chain_then_decide_fanout c p) st

  -- The rounds that are left when its queue has lost its sender.
  unfoldable pub worker_drain :
      ConnectionId → Bytes → List PublishPacket → BrokerInner → BrokerInner
  worker_drain c source [] st = st
  worker_drain c source (p ∷ work) st = worker_drain c source work (worker_round c source p st)

  -- What follows the loop.
  unfoldable pub teardown :
      Bytes
      → ConnectionId
      → Bool
      → Option MqttError
      → Server
      → BrokerInner × Outcome MqttError (Unit {0})
  teardown client c graceful error sv =
      let closed = set_channel c (close (sv.inner.channels c)) sv.inner in
      let drained = worker_drain c client sv.work closed in
      (unregister_session client c graceful drained, terminal error)
