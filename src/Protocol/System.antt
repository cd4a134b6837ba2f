-- ===== src/Protocol/System.antt =====
-- protocol/server.rs: all connections of a broker at once. Each connection runs `handle_server` and
-- its chain worker; the steps of different connections come in any order, and a channel may change
-- at any time, for its writer and the user's own sends.
pub mod Owner
pub mod Dispatch
pub mod Leaks
use hotaru_mqtt.Base.{
  ℕ, ◌≡◌, List, [], ◌∷◌, Bool, true, false, Option, none, some, ◌==◌, if◌then◌else◌, Bytes, Outcome,
  ok, err, panic, ◌⊎◌,
}
use hotaru_mqtt.Error.{MqttError}
use hotaru_mqtt.Packet.{PublishPacket, ConnectPacket}
use hotaru_mqtt.Safety.{MqttSafety, max_packet_size}
use hotaru_mqtt.Channel.{MqttChannel, close}
use hotaru_mqtt.Context.{MqttContext}
use hotaru_mqtt.Broker.{
  Authenticator, Broker, ConnectionId, BrokerInner, build, set_channel, unregister_session,
}
use hotaru_mqtt.Protocol.Server.{
  Server, Selected, Turn, continue, break, panicked, admit, server_turn, read_packet_before,
  worker_round, terminal,
}

-- How far `handle_server` has come. In `serving` and `winding` the session stands under a client
-- id; `winding` is what follows the loop, up to the end of the worker.
pub data Phase : Type 0 where
  connecting : Phase
  serving : Bytes → Phase
  winding : Bytes → (graceful : Bool) → Option MqttError → Phase
  returned : Outcome MqttError (Unit {0}) → Phase

abbrev pub client_of : Phase → Option Bytes
client_of connecting = none
client_of (serving client) = some client
client_of (winding client graceful error) = some client
client_of (returned result) = none

pub record Conn : Type 0 where
  pub phase : Phase
  pub work : List PublishPacket

pub record System : Type 0 where
  pub inner : BrokerInner
  pub conns : ConnectionId → Conn

abbrev pub set_conn : ConnectionId → Conn → System → System
set_conn c conn sys = record sys { conns = λ d. if c == d then conn else sys.conns d }

abbrev pub phase_at : ConnectionId → System → Phase
phase_at c sys = (sys.conns c).phase

abbrev pub put : ConnectionId → BrokerInner → Phase → List PublishPacket → System → System
put c inner phase work sys =
    set_conn c (record { phase = phase; work = work }) (record sys { inner = inner })

-- `admit` has returned.
abbrev pub admitted : ConnectionId → System → BrokerInner × Outcome MqttError Bytes → System
admitted c sys (st, ok client) = put c st (serving client) [] sys
admitted c sys (st, err e) = put c st (returned (err e)) [] sys
admitted c sys (st, panic) = put c st (returned panic) [] sys

-- A turn has ended; out of the loop, the queue loses its sender and the channel is closed.
abbrev pub turned : ConnectionId → Bytes → System → Server × Turn → System
turned c client sys (sv, continue) = put c sv.inner (serving client) sv.work sys
turned c client sys (sv, panicked) = put c sv.inner (returned panic) sv.work sys
turned c client sys (sv, break graceful error) =
    put c (set_channel c (close (sv.inner.channels c)) sv.inner) (winding client graceful error)
      sv.work sys

abbrev pub server_of : ConnectionId → System → Server
server_of c sys = record { inner = sys.inner; work = (sys.conns c).work; worker_alive = true }

module _ {Node Addr : Type 0} (walk : Bytes → List Node)
    (run_node : Node → MqttContext Node → MqttError ⊎ MqttContext Node)
    (authenticator : Authenticator Addr) (safety : MqttSafety) where
  pub data Step : System → System → Type 0 where
    -- No CONNECT, or none in time.
    refused :
        {sys : System} (c : ConnectionId) (e : MqttError)
        → phase_at c sys ≡ connecting
        → Step sys (put c sys.inner (returned (err e)) [] sys)
    connect :
        {sys : System} (c : ConnectionId) (addr : Option Addr) (p : ConnectPacket)
        → phase_at c sys ≡ connecting
        → Step sys (admitted c sys (admit authenticator safety addr c p sys.inner))
    -- A turn that reads from what is on the wire, within a deadline or not, and one whose wait for
    -- a packet the shutdown signal ends.
    turn :
        {sys : System} (c : ConnectionId) (client : Bytes) (valid_utf8 : Bytes → Bool)
        (wire : Bytes) (deadline : Option ℕ) (late : Bool)
        → phase_at c sys ≡ serving client
        → Step sys (
            turned c client sys (
              server_turn client c
                (Selected.read
                  (read_packet_before valid_utf8 wire (max_packet_size safety) deadline late).0)
                (server_of c sys)))
    notified :
        {sys : System} (c : ConnectionId) (client : Bytes)
        → phase_at c sys ≡ serving client
        → Step sys (
            turned c client sys (server_turn client c Selected.shutdown_notified (server_of c sys)))
    -- A round of the worker, while the reader runs or after it.
    work :
        {sys : System} (c : ConnectionId) (client : Bytes) (p : PublishPacket)
        (rest : List PublishPacket)
        → client_of (phase_at c sys) ≡ some client
        → (sys.conns c).work ≡ p ∷ rest
        → Step sys
            (put c (worker_round walk run_node c client p sys.inner) (phase_at c sys) rest sys)
    -- The worker has drained its queue.
    unregister :
        {sys : System} (c : ConnectionId) (client : Bytes) (graceful : Bool)
        (error : Option MqttError)
        → phase_at c sys ≡ winding client graceful error
        → (sys.conns c).work ≡ []
        → Step sys (
            put c
              (unregister_session client c graceful sys.inner)
              (returned (terminal error))
              []
              sys)
    channel :
        {sys : System} (c : ConnectionId) (ch : MqttChannel)
        → Step sys (record sys { inner = set_channel c ch sys.inner })

  -- A new broker, over channels that have all still to connect.
  abbrev pub initial : (ConnectionId → MqttChannel) → System
  initial chans = record {
    inner = (build chans authenticator safety).inner;
    conns = λ c. record { phase = connecting; work = [] };
  }

  pub data Reachable : System → Type 0 where
    start : (chans : ConnectionId → MqttChannel) → Reachable (initial chans)
    more : {sys sys' : System} → Reachable sys → Step sys sys' → Reachable sys'
