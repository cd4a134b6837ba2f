-- ===== src/Broker/Publish.antt =====
-- broker.rs: the fan-out of a PUBLISH, and of a Will.
use hotaru_mqtt.Base.{List, [], ◌∷◌, false, Option, none, some, ltb, if◌then◌else◌, Bytes, str_eq}
use hotaru_mqtt.Request.{WillMessage}
use hotaru_mqtt.Request.Qos.{Qos, as_u8, min_qos}
use hotaru_mqtt.Packet.{PublishPacket}
use hotaru_mqtt.Topic.Split.{split}
use hotaru_mqtt.DashMap.{get, str_key}
use hotaru_mqtt.Session.{MqttSession, allocate_packet_id, track_outbound_inflight}
use hotaru_mqtt.Channel.{MqttChannel, send_publish}
use hotaru_mqtt.Broker.Tree.{matching}
use hotaru_mqtt.Broker.State.{BrokerInner, set_channel}

-- The packet that one subscriber is sent, and its session.
unfoldable pub adjust : PublishPacket → Qos → MqttSession → MqttSession × PublishPacket
adjust packet sub_qos session =
    let effective_qos = min_qos packet.qos sub_qos in
    let (allocated, id) = allocate_packet_id session in
    let adjusted = record packet {
      dup = false;
      qos = effective_qos;
      retain = false;
      packet_id = none;
    } in
    if ltb 0 (as_u8 effective_qos)
    then (track_outbound_inflight id packet allocated, record adjusted { packet_id = some id })
    else (session, adjusted)

unfoldable pub deliver : PublishPacket → Qos → MqttChannel → MqttChannel
deliver packet sub_qos ch =
    let (session, adjusted) = adjust packet sub_qos ch.session in
    (send_publish adjusted (record ch { session = session })).0

-- The body of the loop over `matching`.
unfoldable pub publish_one : Bytes → PublishPacket → Bytes → Qos → BrokerInner → BrokerInner
publish_one source packet sub_id sub_qos st =
    if str_eq sub_id source then st else elim (get sub_id st.sessions) [
      | none ↦ st
      | some entry ↦
          set_channel entry.connection_id (deliver packet sub_qos (st.channels entry.connection_id))
            st
    ]

unfoldable pub publish_loop : Bytes → PublishPacket → List (Bytes × Qos) → BrokerInner → BrokerInner
publish_loop source packet [] st = st
publish_loop source packet ((sub_id, sub_qos) ∷ rest) st =
    publish_loop source packet rest (publish_one source packet sub_id sub_qos st)

unfoldable pub publish : Bytes → PublishPacket → BrokerInner → BrokerInner
publish source packet st =
    publish_loop source packet (matching (split packet.topic) st.subscriptions) st

abbrev pub will_packet : WillMessage → PublishPacket
will_packet will = record {
  topic = will.topic;
  payload = will.payload;
  dup = false;
  qos = will.qos;
  retain = will.retain;
  packet_id = none;
}

unfoldable pub publish_will : Option WillMessage → BrokerInner → BrokerInner
publish_will none st = st
publish_will (some will) st = publish [] (will_packet will) st
