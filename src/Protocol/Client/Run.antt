-- ===== src/Protocol/Client/Run.antt =====
-- protocol/client.rs: `handle_client` as a whole, on a finite wire and for a finite number of ticks
-- of the ping timer. `tick` says whether the timer fires before a read is done and how many bytes
-- the read has taken by then: the `select!` drops the read, and those bytes with it. `late` is the
-- timeout of the CONNACK, and `others` what other tasks do to the channel before a turn.
use hotaru_mqtt.Base.{
  ℕ, zero, suc, ◌+◌, length, List, [], drop, Bool, true, false, Option, none, some, if◌then◌else◌,
  Bytes, Outcome, ok, err, panic,
}
use hotaru_mqtt.Error.{MqttError}
use hotaru_mqtt.Packet.{Packet}
use hotaru_mqtt.Safety.{max_packet_size}
use hotaru_mqtt.Codec.Frame.{read_packet}
use hotaru_mqtt.Channel.{MqttChannel, take_reader}
use hotaru_mqtt.Client.{MqttClientConfig}
use hotaru_mqtt.Action.{Timed, elapsed, finished}
use hotaru_mqtt.Protocol.Client.{
  Client, Selected, Turn, continue, break, return, panicked, client_turn, connected, send_connect,
  disconnect,
}

-- The answer to CONNECT, and what follows it.
abbrev pub first_read :
    Bool → Outcome MqttError (Packet × Bytes) → Timed (Outcome MqttError Packet) × Bytes
first_read true r = (elapsed, [])
first_read false (ok (p, rest)) = (finished (ok p), rest)
first_read false (err e) = (finished (err e), [])
first_read false panic = (finished panic, [])

-- A read of the loop.
abbrev pub selected_read : ℕ → Outcome MqttError (Packet × Bytes) → Selected × ℕ × Bytes
selected_read ticks (ok (p, rest)) = (Selected.read (ok p), ticks, rest)
selected_read ticks (err e) = (Selected.read (err e), ticks, [])
selected_read ticks panic = (Selected.read panic, ticks, [])

module _ {Node H : Type 0} (walk : Bytes → List Node) (config : MqttClientConfig H)
    (valid_utf8 : Bytes → Bool) (late : Bool) (shutdown : Bytes → Bool)
    (tick : ℕ → Bytes → Option ℕ) (others : Bytes → MqttChannel → MqttChannel) where
  -- What the `select!` of a turn returns, with the ticks and the bytes that are left.
  unfoldable pub select : ℕ → Bytes → Selected × ℕ × Bytes
  select zero wire =
      if shutdown wire
      then (Selected.shutdown_notified, zero, wire)
      else selected_read zero (read_packet valid_utf8 wire (max_packet_size config.safety))
  select (suc ticks) wire =
      if shutdown wire
      then (Selected.shutdown_notified, suc ticks, wire)
      else elim (tick ticks wire) [
        | none ↦
            selected_read (suc ticks) (read_packet valid_utf8 wire (max_packet_size config.safety))
        | some taken ↦ (Selected.ping_due, ticks, drop taken wire)
      ]

  -- The loop, with the turn that ended it; `none` is a loop that has not ended.
  unfoldable pub serve : ℕ → ℕ → Bytes → Client Node H → Option (Client Node H × Turn)
  unfolding select client_turn
  serve zero ticks wire cl = none
  serve (suc fuel) ticks wire cl =
      let (selected, left, rest) = select ticks wire in
      let (cl', turn) =
        client_turn walk config selected (record cl { channel = others wire cl.channel }) in
      elim turn [
        | continue ↦ serve fuel left rest cl'
        | break ↦ some (cl', break)
        | return e ↦ some (cl', return e)
        | panicked ↦ some (cl', panicked)
      ]

  -- What follows the loop.
  abbrev pub ended :
      Option (Client Node H × Turn) → Option (Client Node H × Outcome MqttError (Unit {0}))
  ended none = none
  ended (some (cl, continue)) = none
  ended (some (cl, panicked)) = some (cl, panic)
  ended (some (cl, break)) = some (record cl { channel = disconnect cl.channel }, ok tt)
  ended (some (cl, return e)) = some (cl, err e)

  -- After the handshake.
  abbrev pub after_connected :
      ℕ
      → Bytes
      → MqttChannel × Outcome MqttError (Unit {0})
      → Option (Client Node H × Outcome MqttError (Unit {0}))
  after_connected ticks rest (ch, ok u) =
      ended (serve (suc (length rest + ticks)) ticks rest (record { channel = ch; spawned = [] }))
  after_connected ticks rest (ch, err e) = some (record { channel = ch; spawned = [] }, err e)
  after_connected ticks rest (ch, panic) = some (record { channel = ch; spawned = [] }, panic)

  abbrev pub after_send :
      ℕ
      → Bytes
      → MqttChannel × Outcome MqttError (Unit {0})
      → Option (Client Node H × Outcome MqttError (Unit {0}))
  after_send ticks wire (ch, ok u) =
      let (answer, rest) =
        first_read late (read_packet valid_utf8 wire (max_packet_size config.safety)) in
      after_connected ticks rest (connected config answer ch)
  after_send ticks wire (ch, err e) = some (record { channel = ch; spawned = [] }, err e)
  after_send ticks wire (ch, panic) = some (record { channel = ch; spawned = [] }, panic)

  abbrev pub after_reader :
      ℕ → Option Bytes → MqttChannel → Option (Client Node H × Outcome MqttError (Unit {0}))
  after_reader ticks none ch =
      some (record { channel = ch; spawned = [] }, err MqttError.configuration)
  after_reader ticks (some wire) ch = after_send ticks wire (send_connect config ch)

  -- Under a runtime in which the configuration is registered.
  unfoldable pub handle_client :
      ℕ → MqttChannel → Option (Client Node H × Outcome MqttError (Unit {0}))
  unfolding take_reader
  handle_client ticks ch = let (ch', reader) = take_reader ch in after_reader ticks reader ch'

-- The configuration that the runtime has, or none.
unfoldable pub handle_client_with :
    {Node H : Type 0}
    → Option (MqttClientConfig H)
    → (Bytes → List Node)
    → (Bytes → Bool)
    → Bool
    → (Bytes → Bool)
    → (ℕ → Bytes → Option ℕ)
    → (Bytes → MqttChannel → MqttChannel)
    → ℕ
    → MqttChannel
    → Option (Client Node H × Outcome MqttError (Unit {0}))
handle_client_with none walk valid_utf8 late shutdown tick others ticks ch =
    some (record { channel = ch; spawned = [] }, err MqttError.configuration)
handle_client_with (some config) walk valid_utf8 late shutdown tick others ticks ch =
    handle_client walk config valid_utf8 late shutdown tick others ticks ch
