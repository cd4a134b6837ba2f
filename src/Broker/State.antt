-- ===== src/Broker/State.antt =====
-- broker.rs: the state of a broker, its constructors, and the store of its channels.
use hotaru_mqtt.Base.{ℕ, List, [], Bool, length, Option, ◌==◌, if◌then◌else◌, Bytes}
use hotaru_mqtt.Request.{IncomingPublish, WillMessage}
use hotaru_mqtt.Request.Qos.{Qos}
use hotaru_mqtt.Packet.{ConnectPacket, PublishPacket}
use hotaru_mqtt.Safety
use hotaru_mqtt.Safety.{MqttSafety}
use hotaru_mqtt.DashMap.{str_key}
use hotaru_mqtt.Channel.{MqttChannel}
use hotaru_mqtt.Broker.Auth.{
  Authenticator, AuthResult, accept_all_authenticator, deny_all_authenticator,
}
use hotaru_mqtt.Broker.Tree.{SubscriptionTree}

abbrev pub ConnectionId : Type 0
ConnectionId = ℕ

pub record SubscriberEntry : Type 0 where
  pub connection_id : ConnectionId
  pub filters : List (Bytes × Qos)
  pub will : Option WillMessage
  pub clean_session : Bool

pub record BrokerInner : Type 0 where
  pub sessions : List (Bytes × SubscriberEntry)
  pub subscriptions : SubscriptionTree
  pub channels : ConnectionId → MqttChannel

pub record Broker (Addr : Type 0) : Type 0 where
  pub inner : BrokerInner
  pub authenticator : Authenticator Addr
  pub safety : MqttSafety

-- `Broker::build`, over the channels that exist.
unfoldable pub build :
    {Addr : Type 0} → (ConnectionId → MqttChannel) → Authenticator Addr → MqttSafety → Broker Addr
build chans auth safety = record {
  inner = record { sessions = []; subscriptions = []; channels = chans };
  authenticator = auth;
  safety = safety;
}

-- The constructors of a broker.
module _ {Addr : Type 0} (chans : ConnectionId → MqttChannel) where
  unfoldable pub new : Broker Addr
  unfolding build
  new = build chans deny_all_authenticator Safety.new

  unfoldable pub accept_all : Broker Addr
  unfolding build
  accept_all = build chans accept_all_authenticator Safety.new

  unfoldable pub with_authenticator : Authenticator Addr → Broker Addr
  unfolding build
  with_authenticator auth = build chans auth Safety.new

  unfoldable pub with_safety : MqttSafety → Broker Addr
  unfolding build
  with_safety safety = build chans deny_all_authenticator safety

  unfoldable pub accept_all_with_safety : MqttSafety → Broker Addr
  unfolding build
  accept_all_with_safety safety = build chans accept_all_authenticator safety

  unfoldable pub with_authenticator_and_safety : Authenticator Addr → MqttSafety → Broker Addr
  unfolding build
  with_authenticator_and_safety auth safety = build chans auth safety

-- What a handler of the server is given.
unfoldable pub incoming_from_packet : PublishPacket → IncomingPublish
incoming_from_packet p = record {
  topic = p.topic;
  payload = p.payload;
  qos = p.qos;
  retain = p.retain;
  dup = p.dup;
  packet_id = p.packet_id;
}

unfoldable pub authenticate :
    {Addr : Type 0} → Broker Addr → ConnectPacket → Option Addr → AuthResult
authenticate broker connect addr = broker.authenticator connect addr

abbrev pub set_channel : ConnectionId → MqttChannel → BrokerInner → BrokerInner
set_channel c ch st = record st { channels = λ d. if c == d then ch else st.channels d }

unfoldable pub session_count : {Addr : Type 0} → Broker Addr → ℕ
session_count b = length b.inner.sessions

unfoldable pub safety_of : {Addr : Type 0} → Broker Addr → MqttSafety
safety_of b = b.safety
