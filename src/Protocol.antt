-- ===== src/Protocol.antt =====
-- protocol/mod.rs: `MqttProtocol`, and what both roles do with an inbound PUBLISH. Its children are
-- the files of protocol/.
pub mod Server
pub mod Client
pub mod Send
pub mod System
pub mod Handshake
pub mod EndToEnd
use hotaru_mqtt.Base.{
  ℕ, List, [], ◌∷◌, Bool, true, false, Option, none, some, ◌==◌, Bytes, shr, Outcome, ok, err,
}
use hotaru_mqtt.Request.Qos.{Qos, at_most_once, at_least_once, exactly_once}
use hotaru_mqtt.Error.{MqttError}
use hotaru_mqtt.Packet.{Packet, PublishPacket}
use hotaru_mqtt.Session.{MqttSession, stash_qos2_publish}
use hotaru_mqtt.Channel
use hotaru_mqtt.Channel.{MqttChannel, ProtocolRole, close, send_packet}
use hotaru_mqtt.Broker.{ConnectionId, incoming_from_packet}
use hotaru_mqtt.Action.{Action, pure, modify, ◌>>=◌, ◌>>◌}

-- In client mode the slot is a `OnceLock`, empty or set.
pub record MqttProtocol : Type 0 where
  pub role : ProtocolRole
  pub session_channel : Option (Option ConnectionId)

unfoldable pub server : MqttProtocol
server = record { role = ProtocolRole.server; session_channel = none }

unfoldable pub client : MqttProtocol
client = record { role = ProtocolRole.client; session_channel = some none }

unfoldable pub detect : Bytes → Bool
detect [] = false
detect (b ∷ rest) = shr b 4 == 1

-- `slot.set`: the first channel stays.
abbrev pub stash : Option (Option ConnectionId) → ConnectionId → Option (Option ConnectionId)
stash none c = none
stash (some none) c = some (some c)
stash (some (some old)) c = some (some old)

-- The new channel is `c`.
unfoldable pub open_channel : Bytes → ConnectionId → MqttProtocol → MqttProtocol × MqttChannel
open_channel reader c protocol = (
  record protocol { session_channel = stash protocol.session_channel c },
  Channel.new reader protocol.role c,
)

unfoldable pub acquire_channel : MqttProtocol → Outcome MqttError ConnectionId
acquire_channel protocol = elim protocol.session_channel [
  | none ↦ err MqttError.configuration
  | some slot ↦ elim slot [ none ↦ err MqttError.not_connected | some c ↦ ok c ]
]

-- The channel of `handle` after the loop of its role has returned.
unfoldable pub handle_end :
    {A : Type 0} → Outcome MqttError A → MqttChannel → MqttChannel × Outcome MqttError A
handle_end result ch = (close ch, result)

abbrev pub with_session : (MqttSession → MqttSession) → MqttChannel → MqttChannel
with_session f ch = record ch { session = f ch.session }

-- The arm for an id that is there or not: `if let Some(id) = packet_id`.
abbrev pub when_some :
    {A : Type 0} → Option A → (A → Action MqttChannel (Unit {0})) → Action MqttChannel (Unit {0})
when_some none f = pure tt
when_some (some a) f = f a

abbrev pub ack_by_qos : Qos → PublishPacket → Action MqttChannel (Unit {0})
ack_by_qos at_most_once publish = pure tt
ack_by_qos at_least_once publish = when_some publish.packet_id λ id. send_packet (Packet.puback id)
ack_by_qos exactly_once publish = when_some publish.packet_id λ id. do
  modify (with_session (stash_qos2_publish id (incoming_from_packet publish)))
  send_packet (Packet.pubrec id)

unfoldable pub ack_inbound_publish_pre_chain : PublishPacket → Action MqttChannel (Unit {0})
ack_inbound_publish_pre_chain publish = ack_by_qos publish.qos publish
