-- ===== src/Tests/Data.antt =====
-- Values that the tests share.
use hotaru_mqtt.Base.{[], ◌∷◌, Bool, true, false, ◌&&◌, some, ltb, Bytes}
use hotaru_mqtt.Request.Qos.{at_least_once}
use hotaru_mqtt.Packet.{PublishPacket}
use hotaru_mqtt.DashMap.{nat_key, str_key}

abbrev pub ascii : Bytes → Bool
ascii [] = true
ascii (b ∷ s) = ltb b 128 && ascii s

abbrev pub room_topic : Bytes
room_topic = b'a' ∷ b'/' ∷ b'b' ∷ []

abbrev pub room_filter : Bytes
room_filter = b'a' ∷ b'/' ∷ b'+' ∷ []

abbrev pub hello : PublishPacket
hello = record {
  topic = room_topic;
  payload = 1 ∷ 2 ∷ [];
  dup = false;
  qos = at_least_once;
  retain = false;
  packet_id = some 10;
}

abbrev pub hello_bytes : Bytes
hello_bytes = 50 ∷ 9 ∷ 0 ∷ 3 ∷ 97 ∷ 47 ∷ 98 ∷ 0 ∷ 10 ∷ 1 ∷ 2 ∷ []
