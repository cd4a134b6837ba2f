-- ===== src/Error.antt =====
-- error.rs: the error hierarchy. Error texts are left out: `io`, `configuration`,
-- `not_connected` and `unsupported` carry no message.
use hotaru_mqtt.Base.{ℕ}
use hotaru_mqtt.Packet.ConnackReturnCode.{ConnackReturnCode}

pub data TimeoutKind : Type 0 where
  connack connect_receive ack : TimeoutKind

pub data Violation : Type 0 where
  expected_connack expected_connect : Violation
  connection_refused : ConnackReturnCode → Violation
  unexpected_packet : Violation
  invalid_protocol_name : Violation
  unsupported_protocol_level : ℕ → Violation
  empty_topic topic_too_long wildcard_in_publish_topic : Violation
  hash_wildcard_not_terminal wildcard_mixed_with_literal session_already_bound : Violation
  packet_too_large : (len max : ℕ) → Violation

pub data CodecError : Type 0 where
  unexpected_eof : CodecError
  invalid_packet_type : ℕ → CodecError
  malformed_length invalid_utf8 : CodecError
  payload_too_long : (len max : ℕ) → CodecError
  qos_invalid : ℕ → CodecError
  reserved_flag_set missing_packet_id zero_packet_id : CodecError
  topic_too_long : (len max : ℕ) → CodecError
  body_too_long : (len max : ℕ) → CodecError

pub data MqttError : Type 0 where
  io channel_closed ack_timeout : MqttError
  timeout : TimeoutKind → MqttError
  configuration not_connected : MqttError
  protocol : Violation → MqttError
  codec : CodecError → MqttError
  unsupported : MqttError
