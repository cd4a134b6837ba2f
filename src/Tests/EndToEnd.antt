-- ===== src/Tests/EndToEnd.antt =====
-- A PUBLISH on its way to the endpoints of a subscriber, at a concrete broker.
use hotaru_mqtt.Base.{ℕ, ◌≡◌, refl, [], ◌∷◌, ◌++◌, true, none, Bytes, str_eq, arith, ok}
use hotaru_mqtt.Request.Qos.{at_least_once, as_u8}
use hotaru_mqtt.Packet.{Packet, PublishPacket}
use hotaru_mqtt.Topic.Split.{split}
use hotaru_mqtt.DashMap.{get, str_key}
use hotaru_mqtt.Channel.{writer_step}
use hotaru_mqtt.Codec.Frame.{read_packet}
use hotaru_mqtt.Broker.{
  BrokerInner, filter_matches, match_loop, matching, publish, incoming_from_packet,
}
use hotaru_mqtt.Broker.Atomic.{new_entry}
use hotaru_mqtt.Broker.Fanout.{served_in, IsCopy}
use hotaru_mqtt.Protocol.Client.{Client, dispatch_client_inbound, spawn_all}
use hotaru_mqtt.Protocol.EndToEnd.{published_is_delivered}
use hotaru_mqtt.Tests.Data.{ascii, room_filter, hello}
use hotaru_mqtt.Tests.Peers.{fresh, client, walk, config, client_of_session}

abbrev publisher : Bytes
publisher = b'p' ∷ []

-- The client `c` on the connection 5, subscribed to `a/+`.
abbrev room : BrokerInner
room = record {
  sessions = (client, new_entry 5 none true) ∷ [];
  subscriptions = (room_filter, (client, at_least_once) ∷ []) ∷ [];
  channels = λ c. fresh;
}

abbrev reader : Client ℕ ℕ
reader = client_of_session fresh.session

one_served :
    served_in publisher (matching (split hello.topic) room.subscriptions) 5 room.sessions ≡ 1
unfolding matching filter_matches match_loop split str_eq get
one_served = refl

low_qos : as_u8 hello.qos ≡ 1
unfolding as_u8
low_qos = refl

published_is_delivered_example :
    (out : PublishPacket) × IsCopy hello out
    × (read_packet ascii (writer_step ((publish publisher hello room).channels 5)).wire 100
        ≡ ok (Packet.publish out, []))
    × ((dispatch_client_inbound walk config (Packet.publish out) reader).0.spawned
        ≡ reader.spawned
          ++ spawn_all (walk hello.topic) config.default_inbound (incoming_from_packet out))
published_is_delivered_example =
    published_is_delivered walk config ascii 100 publisher hello room 5 reader refl refl refl
      one_served (refl, omega arith) (omega arith) (omega arith) (omega (arith, low_qos)) refl
