-- ===== src/Safety.antt =====
-- safety.rs: `MqttSafety`, the limits on what a peer may ask for.
use hotaru_mqtt.Base.{ℕ, ◌*◌, ◌≤◌, Bool, true, false, Option, none, some, arith, min}
use hotaru_mqtt.Packet.{mqtt_spec_max_packet_size}

abbrev pub default_max_packet_size : ℕ
default_max_packet_size = 1024 * 1024

abbrev pub default_max_keep_alive : ℕ
default_max_keep_alive = 3600

pub record MqttSafety : Type 0 where
  pub packet_size : Option ℕ
  pub keep_alive : Option ℕ
  pub disabled_keep_alive : Option Bool

-- `Option::unwrap_or`
abbrev pub unwrap_or {ℓ} : {A : Type ℓ} → Option A → A → A
unwrap_or none d = d
unwrap_or (some a) d = a

unfoldable pub new : MqttSafety
new = record { packet_size = none; keep_alive = none; disabled_keep_alive = none }

unfoldable pub max_packet_size : MqttSafety → ℕ
max_packet_size s = unwrap_or s.packet_size default_max_packet_size

unfoldable pub with_max_packet_size : MqttSafety → ℕ → MqttSafety
with_max_packet_size s n = record s { packet_size = some (min n mqtt_spec_max_packet_size) }

unfoldable pub max_keep_alive : MqttSafety → ℕ
max_keep_alive s = unwrap_or s.keep_alive default_max_keep_alive

unfoldable pub with_max_keep_alive : MqttSafety → ℕ → MqttSafety
with_max_keep_alive s secs = record s { keep_alive = some secs }

unfoldable pub allows_disabled_keep_alive : MqttSafety → Bool
allows_disabled_keep_alive s = unwrap_or s.disabled_keep_alive false

unfoldable pub allow_disabled_keep_alive : MqttSafety → MqttSafety
allow_disabled_keep_alive s = record s { disabled_keep_alive = some true }

-- The ways to build a configuration: its fields are private.
pub data Builds : MqttSafety → Type 0 where
  default : Builds new
  packet_size : {s : MqttSafety} (n : ℕ) → Builds s → Builds (with_max_packet_size s n)
  keep_alive : {s : MqttSafety} (secs : ℕ) → Builds s → Builds (with_max_keep_alive s secs)
  disabled : {s : MqttSafety} → Builds s → Builds (allow_disabled_keep_alive s)

-- Every configuration that the setters can build caps packets at what the wire can express.
pub max_packet_size-le : {s : MqttSafety} → Builds s → max_packet_size s ≤ mqtt_spec_max_packet_size
unfolding max_packet_size new with_max_packet_size with_max_keep_alive allow_disabled_keep_alive
max_packet_size-le default = omega arith
max_packet_size-le (packet_size n b) = omega arith
max_packet_size-le (keep_alive secs b) = max_packet_size-le b
max_packet_size-le (disabled b) = max_packet_size-le b
