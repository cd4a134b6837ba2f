-- ===== src/Codec/Typed.antt =====
-- codec/decode.rs: what the types of packet.rs and request.rs say of a packet that is read.
pub mod Rules
pub mod Fields
pub mod Parsers
pub mod Lists
pub mod Frames
use hotaru_mqtt.Base.{
  ℕ, ◌≡◌, Bool, true, false, List, [], ◌∷◌, Option, none, some, All, Bytes, IsByte, IsU16,
}
use hotaru_mqtt.Request.Qos.{Qos, at_most_once, at_least_once, exactly_once}
use hotaru_mqtt.Packet.{Packet}
use hotaru_mqtt.Codec.WellFormed.{IsStr, IsConnect, IsInhabited}

-- A QoS 0 packet carries no identifier, any other a u16.
abbrev pub HasId : Qos → Option ℕ → Type 0
HasId at_most_once none = Unit {0}
HasId at_most_once (some id) = ⊥
HasId at_least_once none = ⊥
HasId at_least_once (some id) = IsU16 id
HasId exactly_once none = ⊥
HasId exactly_once (some id) = IsU16 id

module _ (valid_utf8 : Bytes → Bool) where
  abbrev pub IsTyped : Packet → Type 0
  IsTyped (Packet.connect c) = IsConnect valid_utf8 c
  IsTyped (Packet.connack ack) = Unit {0}
  IsTyped (Packet.publish p) =
      IsStr valid_utf8 p.topic × HasId p.qos p.packet_id × All IsByte p.payload
  IsTyped (Packet.puback id) = IsU16 id
  IsTyped (Packet.pubrec id) = IsU16 id
  IsTyped (Packet.pubrel id) = IsU16 id
  IsTyped (Packet.pubcomp id) = IsU16 id
  IsTyped (Packet.subscribe s) =
      IsU16 s.packet_id
      × All (λ t. IsStr valid_utf8 t.topic) s.subscriptions
      × IsInhabited s.subscriptions
  IsTyped (Packet.suback s) = IsU16 s.packet_id × IsInhabited s.return_codes
  IsTyped (Packet.unsubscribe u) =
      IsU16 u.packet_id × All (IsStr valid_utf8) u.topics × IsInhabited u.topics
  IsTyped (Packet.unsuback id) = IsU16 id
  IsTyped Packet.pingreq = Unit {0}
  IsTyped Packet.pingresp = Unit {0}
  IsTyped Packet.disconnect = Unit {0}
