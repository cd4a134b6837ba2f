-- ===== src/Tests/Relay.antt =====
-- The path of a PUBLISH of qos 2 through the server, at a concrete broker.
use hotaru_mqtt.Base.{ℕ, ◌≡◌, refl, [], ◌∷◌, ◌++◌, true, none, some, arith, Bytes, List}
use hotaru_mqtt.Request.Qos.{at_least_once}
use hotaru_mqtt.Packet.{Packet}
use hotaru_mqtt.Topic.Split.{split}
use hotaru_mqtt.DashMap.{nat_key, str_key}
use hotaru_mqtt.Broker.{BrokerInner, matching}
use hotaru_mqtt.Broker.Atomic.{new_entry}
use hotaru_mqtt.Broker.Fanout.{Gains, served_in}
use hotaru_mqtt.Protocol.Client.Delivery.{exactly, sends}
use hotaru_mqtt.Protocol.Server.{
  Server, dispatch_server_inbound, worker_drain, run_server_chain_then_decide_fanout, chain_loop,
}
use hotaru_mqtt.Protocol.Server.Relay.{received}
use hotaru_mqtt.Protocol.Server.Relay.Once.{relayed_once}
use hotaru_mqtt.Tests.Data.{room_filter, hello}
use hotaru_mqtt.Tests.Peers.{fresh, client, run_node}

abbrev subscriber : Bytes
subscriber = b's' ∷ []

-- The client `c` on the connection 5, and a subscriber on the connection 6.
abbrev room : BrokerInner
room = record {
  sessions = (client, new_entry 5 none true) ∷ (subscriber, new_entry 6 none true) ∷ [];
  subscriptions = (room_filter, (subscriber, at_least_once) ∷ []) ∷ [];
  channels = λ c. fresh;
}

abbrev serving : Server
serving = record { inner = room; work = []; worker_alive = true }

abbrev no_endpoints : Bytes → List ℕ
no_endpoints topic = []

passed_on :
    run_server_chain_then_decide_fanout no_endpoints run_node 5 (received 3 hello)
    ≡ some (received 3 hello)
unfolding run_server_chain_then_decide_fanout chain_loop
passed_on = refl

abbrev turns : Packet → Server → Server
turns p sv = (dispatch_server_inbound client 5 p sv).0

abbrev twice : Server
twice = turns (Packet.publish (exactly 3 hello)) (turns (Packet.publish (exactly 3 hello)) serving)

abbrev released_twice : Server
released_twice = turns (Packet.pubrel 3) (turns (Packet.pubrel 3) twice)

relayed_once_example :
    (twice.work ≡ [])
    × (released_twice.work ≡ received 3 hello ∷ [])
    × ((released_twice.inner.channels 5).queue
        ≡ (((fresh.queue ++ sends (Packet.pubrec 3)) ++ sends (Packet.pubrec 3))
            ++ sends (Packet.pubcomp 3))
          ++ sends (Packet.pubcomp 3))
    × Gains
        (received 3 hello)
        (served_in client
          (matching (split (received 3 hello).topic) room.subscriptions)
          6
          room.sessions)
        fresh
        ((worker_drain no_endpoints run_node 5 client released_twice.work
            released_twice.inner).channels
          6)
relayed_once_example =
    relayed_once client 5 no_endpoints run_node 3 hello hello (received 3 hello) 6 serving tt refl
      refl refl (λ e. omega arith) refl passed_on
