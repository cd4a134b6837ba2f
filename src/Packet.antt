-- ===== src/Packet.antt =====
-- packet.rs: the packets of the wire protocol. A `str` and a `Bytes` are lists of bytes; a u16 is
-- a number below 65536, which `Codec.WellFormed` states where it matters.
pub mod PacketType
pub mod ConnackReturnCode
pub mod Names
use hotaru_mqtt.Base.{ℕ, Bool, List, Option, some, Bytes}
use hotaru_mqtt.Request.{PacketId}
use hotaru_mqtt.Request.Qos.{Qos}
use hotaru_mqtt.Request.SubackCode.{SubackCode}

abbrev pub mqtt_spec_max_packet_size : ℕ
mqtt_spec_max_packet_size = 268_435_455

pub record PublishPacket : Type 0 where
  pub topic : Bytes
  pub payload : Bytes
  pub dup : Bool
  pub qos : Qos
  pub retain : Bool
  pub packet_id : Option PacketId

unfoldable pub with_id : PublishPacket → PacketId → PublishPacket
with_id p id = record p { packet_id = some id }

pub record WillPacket : Type 0 where
  pub topic : Bytes
  pub payload : Bytes
  pub qos : Qos
  pub retain : Bool

pub record ConnectPacket : Type 0 where
  pub client_id : Bytes
  pub clean_session : Bool
  pub keep_alive : ℕ
  pub username : Option Bytes
  pub password : Option Bytes
  pub will : Option WillPacket

pub record ConnackPacket : Type 0 where
  pub session_present : Bool
  pub return_code : ConnackReturnCode.ConnackReturnCode

pub record TopicSubscription : Type 0 where
  pub topic : Bytes
  pub qos : Qos

pub record SubscribePacket : Type 0 where
  pub packet_id : PacketId
  pub subscriptions : List TopicSubscription

pub record SubackPacket : Type 0 where
  pub packet_id : PacketId
  pub return_codes : List SubackCode

pub record UnsubscribePacket : Type 0 where
  pub packet_id : PacketId
  pub topics : List Bytes

pub data Packet : Type 0 where
  connect : ConnectPacket → Packet
  connack : ConnackPacket → Packet
  publish : PublishPacket → Packet
  puback pubrec pubrel pubcomp : PacketId → Packet
  subscribe : SubscribePacket → Packet
  suback : SubackPacket → Packet
  unsubscribe : UnsubscribePacket → Packet
  unsuback : PacketId → Packet
  pingreq pingresp disconnect : Packet
