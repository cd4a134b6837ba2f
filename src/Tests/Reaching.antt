-- ===== src/Tests/Reaching.antt =====
-- What a PUBLISH reaches, at a concrete broker.
use hotaru_mqtt.Base.{
  ◌≡◌, ◌<◌, ◌↔◌, refl, [], ◌∷◌, true, false, none, some, Bytes, str_eq, is_empty, length, ok,
}
use hotaru_mqtt.Request.{TopicFilter}
use hotaru_mqtt.Request.Qos.{Qos, at_least_once}
use hotaru_mqtt.Request.SubackCode.{SubackCode}
use hotaru_mqtt.Topic.{
  validate_filter_loop, validate_segment, validate_subscribe_filter, check_length,
}
use hotaru_mqtt.Topic.Split.{split, contains}
use hotaru_mqtt.DashMap.{get, contains_key, str_key}
use hotaru_mqtt.Broker.{BrokerInner, filter_matches, match_loop, publish, subscribe}
use hotaru_mqtt.Broker.Atomic.{new_entry}
use hotaru_mqtt.Broker.Invariant.{IsConsistent}
use hotaru_mqtt.Broker.Table.{qos_of}
use hotaru_mqtt.Broker.Reaching.{publish_reaches}
use hotaru_mqtt.Broker.Granting.{subscribed_is_reached}
use hotaru_mqtt.Protocol.System.Owner.{owner}
use hotaru_mqtt.Tests.Data.{room_filter, hello}
use hotaru_mqtt.Tests.Peers.{fresh, client}

abbrev publisher : Bytes
publisher = b'p' ∷ []

-- The client `c` on the connection 5, without subscriptions.
abbrev quiet_room : BrokerInner
quiet_room = record {
  sessions = (client, new_entry 5 none true) ∷ [];
  subscriptions = [];
  channels = λ c. fresh;
}

quiet_room-IsConsistent : IsConsistent quiet_room
unfolding contains_key
quiet_room-IsConsistent = ((refl, tt), tt, tt)

room_owner : owner client quiet_room ≡ some 5
unfolding get str_eq
room_owner = refl

abbrev room : TopicFilter
room = record { filter = room_filter; qos = at_least_once }

room_accepted : validate_subscribe_filter room_filter ≡ ok tt
unfolding validate_subscribe_filter validate_filter_loop validate_segment check_length split
    contains str_eq is_empty
room_accepted = refl

room_matches : filter_matches room_filter (split hello.topic) ≡ true
unfolding filter_matches match_loop split str_eq
room_matches = refl

not_publisher : str_eq client publisher ≡ false
unfolding str_eq
not_publisher = refl

publish_reaches_example :
    (length fresh.queue < length ((publish publisher hello quiet_room).channels 5).queue) ↔ (
      (k : Bytes) × (filter : Bytes) × (q : Qos) × (filter_matches filter (split hello.topic)
        ≡ true)
      × (qos_of k filter quiet_room.subscriptions ≡ some q)
      × (str_eq k publisher ≡ false)
      × (owner k quiet_room ≡ some 5))
publish_reaches_example = publish_reaches publisher hello quiet_room 5 quiet_room-IsConsistent refl

subscribed_is_reached_example :
    ((subscribe client 5 (room ∷ []) quiet_room).1 ≡ SubackCode.granted at_least_once ∷ [])
    × (length fresh.queue
        < length
            ((publish publisher hello (subscribe client 5 (room ∷ []) quiet_room).0).channels
              5).queue)
subscribed_is_reached_example =
    subscribed_is_reached client publisher 5 room hello quiet_room quiet_room-IsConsistent
      room_owner refl room_accepted room_matches not_publisher
