-- ===== src/Codec/WellFormed.antt =====
-- The packets that the wire format can carry: what the types of request.rs and packet.rs say of
-- a value (a u16 is below 65536, a `str` is UTF-8), and what the MQTT rules ask of a sender.
use hotaru_mqtt.Base.{
  ℕ, ◌<◌, ◌≡◌, List, [], ◌∷◌, Bool, true, Option, none, some, length, All, Bytes, IsU16,
  to_be_bytes, if◌then◌else◌,
}
use hotaru_mqtt.Request.Qos.{Qos, at_most_once, at_least_once, exactly_once}
use hotaru_mqtt.Packet.{Packet, WillPacket, ConnectPacket}
use hotaru_mqtt.Packet.ConnackReturnCode
use hotaru_mqtt.Codec.Encode.{
  connect_body, publish_body, write_subscriptions, write_codes, write_topics,
}

-- The length prefix of a field has two bytes.
abbrev pub Fits : Bytes → Type 0
Fits b = IsU16 (length b)

-- An optional field meets `P` if it is there.
abbrev pub Maybe {ℓ} : {A : Type ℓ} → (A → Type 0) → Option A → Type 0
Maybe P none = Unit {0}
Maybe P (some a) = P a

-- At least one entry.
abbrev pub IsInhabited {ℓ} : {A : Type ℓ} → List A → Type 0
IsInhabited [] = ⊥
IsInhabited (x ∷ xs) = Unit {0}

-- A QoS 0 packet carries no identifier, any other a nonzero one.
abbrev pub IdMatches : Qos → Option ℕ → Type 0
IdMatches at_most_once none = Unit {0}
IdMatches at_most_once (some id) = ⊥
IdMatches at_least_once none = ⊥
IdMatches at_least_once (some id) = (0 < id) × IsU16 id
IdMatches exactly_once none = ⊥
IdMatches exactly_once (some id) = (0 < id) × IsU16 id

-- The body behind the fixed header, and its length on the wire.
unfoldable pub body_of : Packet → Bytes
body_of (Packet.connect c) = connect_body c
body_of (Packet.connack ack) =
    (if ack.session_present then 0x01 else 0x00) ∷ ConnackReturnCode.as_u8 ack.return_code ∷ []
body_of (Packet.publish p) = publish_body p p.packet_id
body_of (Packet.puback id) = to_be_bytes id
body_of (Packet.pubrec id) = to_be_bytes id
body_of (Packet.pubrel id) = to_be_bytes id
body_of (Packet.pubcomp id) = to_be_bytes id
body_of (Packet.subscribe s) = write_subscriptions (to_be_bytes s.packet_id) s.subscriptions
body_of (Packet.suback s) = write_codes (to_be_bytes s.packet_id) s.return_codes
body_of (Packet.unsubscribe u) = write_topics (to_be_bytes u.packet_id) u.topics
body_of (Packet.unsuback id) = to_be_bytes id
body_of Packet.pingreq = []
body_of Packet.pingresp = []
body_of Packet.disconnect = []

module _ (valid_utf8 : Bytes → Bool) where
  abbrev pub IsStr : Bytes → Type 0
  IsStr s = (valid_utf8 s ≡ true) × Fits s

  abbrev pub IsWill : WillPacket → Type 0
  IsWill w = IsStr w.topic × Fits w.payload

  pub record IsConnect (c : ConnectPacket) : Type 0 where
    pub id_str : IsStr c.client_id
    pub alive_u16 : IsU16 c.keep_alive
    pub will_ok : Maybe IsWill c.will
    pub user_ok : Maybe IsStr c.username
    pub pass_ok : Maybe Fits c.password

  abbrev pub IsWellFormed : Packet → Type 0
  IsWellFormed (Packet.connect c) = IsConnect c
  IsWellFormed (Packet.connack ack) = Unit {0}
  IsWellFormed (Packet.publish p) = IsStr p.topic × IdMatches p.qos p.packet_id
  IsWellFormed (Packet.puback id) = IsU16 id
  IsWellFormed (Packet.pubrec id) = IsU16 id
  IsWellFormed (Packet.pubrel id) = IsU16 id
  IsWellFormed (Packet.pubcomp id) = IsU16 id
  IsWellFormed (Packet.subscribe s) =
      IsU16 s.packet_id × All (λ t. IsStr t.topic) s.subscriptions × IsInhabited s.subscriptions
  IsWellFormed (Packet.suback s) = IsU16 s.packet_id × IsInhabited s.return_codes
  IsWellFormed (Packet.unsubscribe u) =
      IsU16 u.packet_id × All IsStr u.topics × IsInhabited u.topics
  IsWellFormed (Packet.unsuback id) = IsU16 id
  IsWellFormed Packet.pingreq = Unit {0}
  IsWellFormed Packet.pingresp = Unit {0}
  IsWellFormed Packet.disconnect = Unit {0}
