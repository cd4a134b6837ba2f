-- ===== src/Session/Ids.antt =====
-- Packet identifiers: what `allocate_packet_id` gives out.
use hotaru_mqtt.Base.{ℕ, ◌≤◌, ◌<◌, ◌≡◌, ◌↔◌, arith}
use hotaru_mqtt.Session.{MqttSession, allocate_packet_id}

-- The id that a call gives out, and the session after it.
abbrev pub given : MqttSession → ℕ
unfolding allocate_packet_id
given s = (allocate_packet_id s).1

abbrev pub after : MqttSession → MqttSession
unfolding allocate_packet_id
after s = (allocate_packet_id s).0

-- An allocated packet id is between 1 and 65535, and the counter stays a u16.
pub allocate_packet_id_lem :
    (s : MqttSession) → (1 ≤ given s) × (given s < 65536) × ((after s).pkt_counter < 65536)
unfolding allocate_packet_id
allocate_packet_id_lem s = ground arith

-- For a counter that is a u16, two allocations in a row give the same id exactly if the counter
-- was 65535 before the first.
pub allocate_packet_id_repeats :
    (s : MqttSession)
    → s.pkt_counter < 65536
    → (given s ≡ given (after s)) ↔ (s.pkt_counter ≡ 65535)
unfolding allocate_packet_id
allocate_packet_id_repeats s h = ground arith
