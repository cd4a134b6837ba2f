-- ===== src/Protocol/Server/Termination.antt =====
-- protocol/server.rs: `handle_server` returns.
use hotaru_mqtt.Base.{
  ℕ, zero, suc, ◌≡◌, ◌⊎◌, ◌≢◌, ◌<◌, refl, length, List, [], ◌∷◌, Bool, true, false, Option, none,
  some, inl, inr, arith, Bool-cases, Option-cases, Bytes, Outcome, ok, err, panic, shr, Safe,
}
use hotaru_mqtt.Error.{MqttError}
use hotaru_mqtt.Packet.{Packet, ConnectPacket}
use hotaru_mqtt.Packet.PacketType.{try_from}
use hotaru_mqtt.Safety.{MqttSafety, max_packet_size}
use hotaru_mqtt.Codec.Varint.{read_exact, read_remaining_length}
use hotaru_mqtt.Codec.Primitives.{index}
use hotaru_mqtt.Codec.Frame.{read_packet, decode_packet_from_bytes}
use hotaru_mqtt.Codec.Agreement.{PacketAgrees, decoders_agree}
use hotaru_mqtt.Context.{MqttContext}
use hotaru_mqtt.Broker.{Authenticator, ConnectionId, BrokerInner}
use hotaru_mqtt.Protocol.Server.{
  Server, Selected, ReadOutcome, Turn, continue, break, panicked, receive_connect,
  read_packet_before, read_outcome, server_read_deadline, server_turn, teardown, select_arm,
}
use hotaru_mqtt.Protocol.Server.Answers.{admit_answers, server_turn_answers}
use hotaru_mqtt.Protocol.Server.Run.{
  first_read, select, serve, ended, after_admit, after_connect, after_reader, handle_server,
}

-- A read that returns a packet has taken a byte, and no read panics.
abbrev pub Reads : Bytes → Outcome MqttError (Packet × Bytes) → Type 0
Reads wire = Safe (λ x. length x.1 < length wire)

from_agrees :
    (wire : Bytes) (max_size : ℕ) (d : Outcome MqttError (Option Packet × Bytes))
    (r : Outcome MqttError (Packet × Bytes))
    → PacketAgrees wire max_size d r
    → Reads wire r
from_agrees wire max_size (ok (none, rest)) r (h, same) = rw h tt
from_agrees wire max_size (ok (some p, rest)) r (h, less, high) = rw h less
from_agrees wire max_size (err e) r h = rw h tt
from_agrees wire max_size panic r h = absurd h

pub read_packet_lem :
    (valid_utf8 : Bytes → Bool) (wire : Bytes) (max_size : ℕ)
    → Reads wire (read_packet valid_utf8 wire max_size)
unfolding read_packet read_exact index read_remaining_length
read_packet_lem valid_utf8 [] max_size = tt
read_packet_lem valid_utf8 (first ∷ []) max_size = elim (Option-cases (try_from (shr first 4))) [
  | inl e ↦ rw (read_packet, e) tt
  | inr (type, e) ↦ rw (read_packet, e) tt
]
read_packet_lem valid_utf8 (first ∷ second ∷ tail) max_size =
    from_agrees (first ∷ second ∷ tail) max_size
      (decode_packet_from_bytes valid_utf8 (first ∷ second ∷ tail) max_size)
      (read_packet valid_utf8 (first ∷ second ∷ tail) max_size)
      (decoders_agree valid_utf8 (first ∷ second ∷ tail) max_size (omega arith))

-- A turn that goes on leaves less on the wire, and none panics.
abbrev Goes : ℕ → ℕ → Turn → Type 0
Goes left right continue = left < right
Goes left right (break graceful error) = Unit {0}
Goes left right panicked = ⊥

goes : (left right : ℕ) (turn : Turn) → left < right → turn ≢ panicked → Goes left right turn
goes left right continue h k = h
goes left right (break graceful error) h k = tt
goes left right panicked h k = k refl

-- What a turn reads either ends the loop or takes a byte.
abbrev Takes : Bytes → Selected × Bytes → Type 0
Takes wire x =
    (client : Bytes) (c : ConnectionId) (sv : Server)
    → Goes (length x.1) (length wire) (server_turn client c x.0 sv).1

turn-Goes :
    (client : Bytes) (c : ConnectionId) (selected : Selected) (sv : Server) (left right : ℕ)
    → Goes left right (select_arm client c selected sv).1
    → Goes left right (server_turn client c selected sv).1
unfolding server_turn
turn-Goes client c selected sv left right h = elim (Bool-cases (sv.inner.channels c).is_open) [
  | inl e ↦ rw (server_turn, e) h
  | inr e ↦ rw (server_turn, e) tt
]

failed-Goes :
    (client : Bytes) (c : ConnectionId) (e : MqttError) (sv : Server) (left right : ℕ)
    → Goes left right (select_arm client c (Selected.read (ReadOutcome.failed e)) sv).1
failed-Goes client c MqttError.io sv left right = tt
failed-Goes client c _ sv left right = tt

read_Takes :
    (wire : Bytes) (r : Outcome MqttError (Packet × Bytes))
    → Reads wire r
    → Takes wire (Selected.read (read_outcome r).0, (read_outcome r).1)
read_Takes wire (ok (p, rest)) h client c sv =
    goes (length rest) (length wire) _ h
      (server_turn_answers client c (Selected.read (ReadOutcome.packet p)) sv (λ at. ground arith))
read_Takes wire (err e) h client c sv =
    turn-Goes client c (Selected.read (ReadOutcome.failed e)) sv 0 (length wire)
      (failed-Goes client c e sv 0 (length wire))
read_Takes wire panic h client c sv = absurd h

read_outcome_lem :
    (wire : Bytes) (r : Outcome MqttError (Packet × Bytes))
    → Reads wire r
    → Selected.read (read_outcome r).0 ≢ Selected.read ReadOutcome.unwound
read_outcome_lem wire (ok (p, rest)) h = λ at. ground arith
read_outcome_lem wire (err e) h = λ at. ground arith
read_outcome_lem wire panic h = absurd h

read_packet_before-Takes :
    (valid_utf8 : Bytes → Bool) (wire : Bytes) (max_size : ℕ) (deadline : Option ℕ) (late : Bool)
    → Takes wire (
      Selected.read (read_packet_before valid_utf8 wire max_size deadline late).0,
      (read_packet_before valid_utf8 wire max_size deadline late).1,
    )
unfolding read_packet_before
read_packet_before-Takes valid_utf8 wire max_size none late client c sv =
    read_Takes wire _ (read_packet_lem valid_utf8 wire max_size) client c sv
read_packet_before-Takes valid_utf8 wire max_size (some limit) true client c sv =
    turn-Goes client c (Selected.read ReadOutcome.deadline_elapsed) sv (length wire) (length wire)
      tt
read_packet_before-Takes valid_utf8 wire max_size (some limit) false client c sv =
    read_Takes wire _ (read_packet_lem valid_utf8 wire max_size) client c sv

-- No read of the loop panics.
pub read_packet_before_lem :
    (valid_utf8 : Bytes → Bool) (wire : Bytes) (max_size : ℕ) (deadline : Option ℕ) (late : Bool)
    → Selected.read (read_packet_before valid_utf8 wire max_size deadline late).0
      ≢ Selected.read ReadOutcome.unwound
unfolding read_packet_before
read_packet_before_lem valid_utf8 wire max_size none late =
    read_outcome_lem wire _ (read_packet_lem valid_utf8 wire max_size)
read_packet_before_lem valid_utf8 wire max_size (some limit) true = λ at. ground arith
read_packet_before_lem valid_utf8 wire max_size (some limit) false =
    read_outcome_lem wire _ (read_packet_lem valid_utf8 wire max_size)

Turn-cases :
    (turn : Turn)
    → (turn ≡ continue)
      ⊎ (((graceful : Bool) × (error : Option MqttError) × (turn ≡ break graceful error))
          ⊎ (turn ≡ panicked))
Turn-cases continue = inl refl
Turn-cases (break graceful error) = inr (inl (graceful, error, refl))
Turn-cases panicked = inr (inr refl)

-- The loop has ended, and without a panic.
abbrev Leaves : Option (Server × Turn) → Type 0
Leaves none = ⊥
Leaves (some (sv, continue)) = ⊥
Leaves (some (sv, break graceful error)) = Unit {0}
Leaves (some (sv, panicked)) = ⊥

-- A result, and no panic.
abbrev Returns : Option (BrokerInner × Outcome MqttError (Unit {0})) → Type 0
Returns none = ⊥
Returns (some (st, r)) = r ≢ panic

from_Returns :
    (out : Option (BrokerInner × Outcome MqttError (Unit {0}))) (st' : BrokerInner)
    → Returns out
    → (out ≢ none) × (out ≢ some (st', panic))
from_Returns none st' h = absurd h
from_Returns (some (st, r)) st' h = ((λ at. ground arith), λ at. h (ground arith))

receive_connect_answers :
    (late : Bool) (wire : Bytes) (r : Outcome MqttError (Packet × Bytes))
    → Reads wire r
    → receive_connect (first_read late r).0 ≢ panic
unfolding receive_connect
receive_connect_answers true wire r h = λ at. ground arith
receive_connect_answers false wire (ok (Packet.connect p, rest)) h = λ at. ground arith
receive_connect_answers false wire (ok (_, rest)) h = λ at. ground arith
receive_connect_answers false wire (err e) h = λ at. ground arith
receive_connect_answers false wire panic h = absurd h

module _ {Node Addr : Type 0} (walk : Bytes → List Node)
    (run_node : Node → MqttContext Node → MqttError ⊎ MqttContext Node)
    (authenticator : Authenticator Addr) (safety : MqttSafety) (valid_utf8 : Bytes → Bool)
    (late shutdown : Bytes → Bool) (others : Bytes → Server → Server) where
  select-Takes :
      (keep_alive : ℕ) (wire : Bytes)
      → Takes wire (
          select walk run_node authenticator safety valid_utf8 late shutdown others keep_alive wire)
  unfolding select
  select-Takes keep_alive wire client c sv = elim (Bool-cases (shutdown wire)) [
    | inl e ↦ rw e (turn-Goes client c Selected.shutdown_notified sv (length wire) (length wire) tt)
    | inr e ↦ rw e (
        read_packet_before-Takes valid_utf8 wire (max_packet_size safety)
          (server_read_deadline keep_alive) (late wire) client c sv)
  ]

  serve_returns :
      (fuel : ℕ) (client : Bytes) (c : ConnectionId) (keep_alive : ℕ) (wire : Bytes) (sv : Server)
      → length wire < fuel
      → Leaves (
          serve walk run_node authenticator safety valid_utf8 late shutdown others fuel client c
            keep_alive wire sv)
  unfolding serve
  serve_returns zero client c keep_alive wire sv h = absurd (omega arith)
  serve_returns (suc fuel) client c keep_alive wire sv h =
      let x : Selected × Bytes =
        select walk run_node authenticator safety valid_utf8 late shutdown others keep_alive wire in
      let takes = select-Takes keep_alive wire client c (others wire sv) in
      elim (Turn-cases (server_turn client c x.0 (others wire sv)).1) [
        | inl e ↦
            rw (serve, e)
              (serve_returns fuel client c keep_alive x.1
                (server_turn client c x.0 (others wire sv)).0
                (let less : length x.1 < length wire = (rw e at takes) in omega arith))
        | inr (inl (graceful, error, e)) ↦ rw (serve, e) tt
        | inr (inr e) ↦ absurd (rw e at takes)
      ]

  ended-Returns :
      (client : Bytes) (c : ConnectionId) (out : Option (Server × Turn))
      → Leaves out
      → Returns
          (ended walk run_node authenticator safety valid_utf8 late shutdown others client c out)
  unfolding teardown
  ended-Returns client c none h = absurd h
  ended-Returns client c (some (sv, continue)) h = absurd h
  ended-Returns client c (some (sv, panicked)) h = absurd h
  ended-Returns client c (some (sv, break graceful none)) h = λ at. ground arith
  ended-Returns client c (some (sv, break graceful (some e))) h = λ at. ground arith

  after_admit-Returns :
      (c : ConnectionId) (keep_alive : ℕ) (rest : Bytes) (r : BrokerInner × Outcome MqttError Bytes)
      → r.1 ≢ panic
      → Returns (
          after_admit walk run_node authenticator safety valid_utf8 late shutdown others c
            keep_alive rest r)
  after_admit-Returns c keep_alive rest (st, ok client) h = ended-Returns client c _ (
      serve_returns (suc (length rest)) client c keep_alive rest
        (record { inner = st; work = []; worker_alive = true }) (omega arith))
  after_admit-Returns c keep_alive rest (st, err e) h = λ at. ground arith
  after_admit-Returns c keep_alive rest (st, panic) h = absurd (h refl)

  after_connect-Returns :
      (addr : Option Addr) (c : ConnectionId) (rest : Bytes) (r : Outcome MqttError ConnectPacket)
      (st : BrokerInner)
      → r ≢ panic
      → Returns (
          after_connect walk run_node authenticator safety valid_utf8 late shutdown others addr c
            rest r st)
  after_connect-Returns addr c rest (ok p) st h =
      after_admit-Returns c p.keep_alive rest _ (admit_answers authenticator safety addr c p st)
  after_connect-Returns addr c rest (err e) st h = λ at. ground arith
  after_connect-Returns addr c rest panic st h = absurd (h refl)

  after_reader-Returns :
      (addr : Option Addr) (c : ConnectionId) (reader : Option Bytes) (st : BrokerInner)
      → Returns (
          after_reader walk run_node authenticator safety valid_utf8 late shutdown others addr c
            reader st)
  after_reader-Returns addr c none st = λ at. ground arith
  after_reader-Returns addr c (some wire) st = after_connect-Returns addr c _ _ st (
      receive_connect_answers (late wire) wire _
        (read_packet_lem valid_utf8 wire (max_packet_size safety)))

  -- On a finite wire, whatever the other tasks do to the shared state between its turns and
  -- whatever deadlines pass, the server task of a connection runs out of no fuel: it returns, and
  -- does not panic.
  pub handle_server_returns :
      (addr : Option Addr) (c : ConnectionId) (st st' : BrokerInner)
      → (handle_server walk run_node authenticator safety valid_utf8 late shutdown others addr c st
          ≢ none)
        × (handle_server walk run_node authenticator safety valid_utf8 late shutdown others addr c
              st
            ≢ some (st', panic))
  unfolding handle_server
  handle_server_returns addr c st st' = from_Returns _ st' (after_reader-Returns addr c _ _)
