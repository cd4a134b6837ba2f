-- ===== src/Request.antt =====
-- request.rs: quality of service, packet identifiers, SUBACK codes, and the values that users
-- exchange with the protocol.
pub mod Qos
pub mod SubackCode
use hotaru_mqtt.Base.{ℕ, Bool, false, List, [], Option, Bytes}
use Qos.{at_most_once}

abbrev pub PacketId : Type 0
PacketId = ℕ

pub record PublishRequest : Type 0 where
  pub topic : Bytes
  pub payload : Bytes
  pub qos : Qos.Qos
  pub retain : Bool

pub record IncomingPublish : Type 0 where
  pub topic : Bytes
  pub payload : Bytes
  pub qos : Qos.Qos
  pub retain : Bool
  pub dup : Bool
  pub packet_id : Option PacketId

pub data PublishAck : Type 0 where
  sent : PublishAck
  acknowledged : PacketId → PublishAck
  completed : PacketId → PublishAck

pub record TopicFilter : Type 0 where
  pub filter : Bytes
  pub qos : Qos.Qos

pub record Credentials : Type 0 where
  pub username : Bytes
  pub password : Bytes

pub record WillMessage : Type 0 where
  pub topic : Bytes
  pub payload : Bytes
  pub qos : Qos.Qos
  pub retain : Bool

pub data MqttRequest : Type 0 where
  publish : PublishRequest → MqttRequest
  subscribe : List TopicFilter → MqttRequest
  unsubscribe : List Bytes → MqttRequest

pub data MqttResponse : Type 0 where
  published : PublishAck → MqttResponse
  subscribed : List SubackCode.SubackCode → MqttResponse
  unsubscribed : MqttResponse

-- `PublishRequest::default()`
unfoldable pub default_request : PublishRequest
default_request = record { topic = []; payload = []; qos = at_most_once; retain = false }

-- `TopicFilter::new`, `Credentials::new` and `WillMessage::new`
unfoldable pub new_topic_filter : Bytes → Qos.Qos → TopicFilter
new_topic_filter filter qos = record { filter = filter; qos = qos }

unfoldable pub new_credentials : Bytes → Bytes → Credentials
new_credentials username password = record { username = username; password = password }

unfoldable pub new_will : Bytes → Bytes → Qos.Qos → Bool → WillMessage
new_will topic payload qos retain = record {
  topic = topic;
  payload = payload;
  qos = qos;
  retain = retain;
}
