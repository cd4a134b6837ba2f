-- ===== src/Protocol/Server/Run.antt =====
-- protocol/server.rs: `handle_server` as a whole, on a finite wire. What the other tasks do to the
-- shared state before a turn is the parameter `others`; which arm of the `select!` is taken, and
-- whether a deadline passes, are the parameters `shutdown` and `late`, all by what is left on the wire.
use hotaru_mqtt.Base.{
  ℕ, zero, suc, length, List, [], Bool, true, false, Option, none, some, if◌then◌else◌, Bytes,
  Outcome, ok, err, panic, ◌⊎◌,
}
use hotaru_mqtt.Error.{MqttError}
use hotaru_mqtt.Packet.{Packet, ConnectPacket}
use hotaru_mqtt.Safety.{MqttSafety, max_packet_size}
use hotaru_mqtt.Codec.Frame.{read_packet}
use hotaru_mqtt.Context.{MqttContext}
use hotaru_mqtt.Channel.{take_reader}
use hotaru_mqtt.Broker.{Authenticator, ConnectionId, BrokerInner, set_channel}
use hotaru_mqtt.Action.{Timed, elapsed, finished}
use hotaru_mqtt.Protocol.Server.{
  Server, Selected, Turn, continue, break, panicked, admit, receive_connect, read_packet_before,
  server_read_deadline, server_turn, teardown,
}

-- The first packet, as far as CONNECT is concerned, and what follows it.
abbrev pub first_read :
    Bool → Outcome MqttError (Packet × Bytes) → Timed (Outcome MqttError Packet) × Bytes
first_read true r = (elapsed, [])
first_read false (ok (p, rest)) = (finished (ok p), rest)
first_read false (err e) = (finished (err e), [])
first_read false panic = (finished panic, [])

module _ {Node Addr : Type 0} (walk : Bytes → List Node)
    (run_node : Node → MqttContext Node → MqttError ⊎ MqttContext Node)
    (authenticator : Authenticator Addr) (safety : MqttSafety) (valid_utf8 : Bytes → Bool)
    (late shutdown : Bytes → Bool) (others : Bytes → Server → Server) where
  -- What the `select!` of a turn returns, and what is left on the wire.
  unfoldable pub select : ℕ → Bytes → Selected × Bytes
  unfolding read_packet_before server_read_deadline
  select keep_alive wire =
      if shutdown wire
      then (Selected.shutdown_notified, wire)
      else (let (outcome, rest) =
            read_packet_before valid_utf8 wire (max_packet_size safety)
              (server_read_deadline keep_alive) (late wire) in
          (Selected.read outcome, rest))

  -- The loop, with the turn that ended it; `none` is a loop that has not ended.
  unfoldable pub serve : ℕ → Bytes → ConnectionId → ℕ → Bytes → Server → Option (Server × Turn)
  unfolding select server_turn
  serve zero client c keep_alive wire sv = none
  serve (suc fuel) client c keep_alive wire sv =
      let (selected, rest) = select keep_alive wire in
      let (sv', turn) = server_turn client c selected (others wire sv) in
      elim turn [
        | continue ↦ serve fuel client c keep_alive rest sv'
        | break graceful error ↦ some (sv', break graceful error)
        | panicked ↦ some (sv', panicked)
      ]

  abbrev pub ended :
      Bytes
      → ConnectionId
      → Option (Server × Turn)
      → Option (BrokerInner × Outcome MqttError (Unit {0}))
  ended client c none = none
  ended client c (some (sv, continue)) = none
  ended client c (some (sv, panicked)) = some (sv.inner, panic)
  ended client c (some (sv, break graceful error)) =
      some (teardown walk run_node client c graceful error sv)

  -- What follows the admission.
  abbrev pub after_admit :
      ConnectionId
      → ℕ
      → Bytes
      → BrokerInner × Outcome MqttError Bytes
      → Option (BrokerInner × Outcome MqttError (Unit {0}))
  after_admit c keep_alive rest (st, ok client) = ended client c (
      serve (suc (length rest)) client c keep_alive rest
        (record { inner = st; work = []; worker_alive = true }))
  after_admit c keep_alive rest (st, err e) = some (st, err e)
  after_admit c keep_alive rest (st, panic) = some (st, panic)

  abbrev pub after_connect :
      Option Addr
      → ConnectionId
      → Bytes
      → Outcome MqttError ConnectPacket
      → BrokerInner
      → Option (BrokerInner × Outcome MqttError (Unit {0}))
  after_connect addr c rest (ok p) st =
      after_admit c p.keep_alive rest (admit authenticator safety addr c p st)
  after_connect addr c rest (err e) st = some (st, err e)
  after_connect addr c rest panic st = some (st, panic)

  -- With the reader, or without one.
  abbrev pub after_reader :
      Option Addr
      → ConnectionId
      → Option Bytes
      → BrokerInner
      → Option (BrokerInner × Outcome MqttError (Unit {0}))
  after_reader addr c none st = some (st, err MqttError.configuration)
  after_reader addr c (some wire) st =
      let (answer, rest) =
        first_read (late wire) (read_packet valid_utf8 wire (max_packet_size safety)) in
      after_connect addr c rest (receive_connect answer) st

  -- Under a runtime in which the broker is registered.
  unfoldable pub handle_server :
      Option Addr → ConnectionId → BrokerInner → Option (BrokerInner × Outcome MqttError (Unit {0}))
  handle_server addr c st =
      let (ch, reader) = take_reader (st.channels c) in
      after_reader addr c reader (set_channel c ch st)

-- The broker that the runtime has, or none.
unfoldable pub handle_server_with :
    {Node Addr : Type 0}
    → Option (Authenticator Addr × MqttSafety)
    → (Bytes → List Node)
    → (Node → MqttContext Node → MqttError ⊎ MqttContext Node)
    → (Bytes → Bool)
    → (Bytes → Bool)
    → (Bytes → Bool)
    → (Bytes → Server → Server)
    → Option Addr
    → ConnectionId
    → BrokerInner
    → Option (BrokerInner × Outcome MqttError (Unit {0}))
handle_server_with none walk run_node valid_utf8 late shutdown others addr c st =
    some (st, err MqttError.configuration)
handle_server_with (some (auth, safety)) walk run_node valid_utf8 late shutdown others addr c st =
    handle_server walk run_node auth safety valid_utf8 late shutdown others addr c st
