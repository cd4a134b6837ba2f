-- ===== src/Tests/Session.antt =====
-- The theorems on sessions at concrete sessions.
use hotaru_mqtt.Base.{◌≡◌, ◌↔◌, refl, [], ◌∷◌, false, none, some, arith, ltb, ◌==◌, if◌then◌else◌}
use hotaru_mqtt.Request.{IncomingPublish}
use hotaru_mqtt.Request.Qos.{exactly_once}
use hotaru_mqtt.DashMap.{IsUnique, contains_key, nat_key, str_key}
use hotaru_mqtt.Session
use hotaru_mqtt.Session.Qos2.{held, take_qos2_publish-stash_qos2_publish}
use hotaru_mqtt.Session.{
  stash_qos2_publish, take_qos2_publish, AckKind, AckSlot, Resolution, MqttSession, kind_slot,
  wake_ack_waiter, wake_suback_waiter, wake_unsuback_waiter, park_publish_ack_waiter, abandon,
}
use hotaru_mqtt.Session.Ids.{given, after, allocate_packet_id_repeats}
use hotaru_mqtt.Session.Waking.{Wakes, wake_ack_waiter_lem}
use hotaru_mqtt.Session.Accounts.{Step, Reachable, parked, settled, abandon_settles}
use hotaru_mqtt.Tests.Data.{room_topic}

-- A session that waits for the PUBACK of 7 and the SUBACK of 8.
abbrev waiting : MqttSession
waiting = record {
  pkt_counter = 65535;
  bind = none;
  qos2_recv = [];
  outbound_inflight = [];
  resolved = [];
  pending_acks = (7, AckSlot.puback 0) ∷ (8, AckSlot.suback 1) ∷ [];
  next_waiter = 2;
}

allocate_packet_id_repeats_example :
    (given waiting ≡ given (after waiting)) ↔ (waiting.pkt_counter ≡ 65535)
allocate_packet_id_repeats_example = allocate_packet_id_repeats waiting (omega arith)

waiting-IsUnique : IsUnique waiting.pending_acks
unfolding contains_key
waiting-IsUnique = (refl, (refl, tt))

wake_ack_waiter_lem_example :
    Wakes 7
      (kind_slot AckKind.puback)
      (Resolution.acked 7)
      waiting
      (wake_ack_waiter 7 AckKind.puback waiting)
      8
wake_ack_waiter_lem_example = wake_ack_waiter_lem 7 AckKind.puback waiting 8 waiting-IsUnique

abbrev parked_once : MqttSession
parked_once = (park_publish_ack_waiter 7 AckKind.puback Session.new).0

parked_once-Reachable : Reachable parked_once
parked_once-Reachable = Reachable.more Reachable.start (Step.park_ack 7 AckKind.puback)

abandon_settles_example :
    (parked 0 (abandon parked_once) ≡ 0)
    × (settled 0 (abandon parked_once) ≡ (if ltb 0 parked_once.next_waiter then 1 else 0))
abandon_settles_example = abandon_settles 0 parked_once-Reachable

abbrev arrived : IncomingPublish
arrived = record {
  topic = room_topic;
  payload = 1 ∷ [];
  qos = exactly_once;
  retain = false;
  dup = false;
  packet_id = some 3;
}

take_qos2_publish-stash_qos2_publish_example :
    ((take_qos2_publish 3 (stash_qos2_publish 3 arrived waiting)).1 ≡ some arrived)
    × ((take_qos2_publish 3 (take_qos2_publish 3 (stash_qos2_publish 3 arrived waiting)).0).1
        ≡ none)
    × (held 4 (take_qos2_publish 3 (stash_qos2_publish 3 arrived waiting)).0
        ≡ (if 3 == 4 then none else held 4 waiting))
take_qos2_publish-stash_qos2_publish_example =
    take_qos2_publish-stash_qos2_publish 3 4 arrived waiting tt
