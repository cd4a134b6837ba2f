-- ===== src/Protocol/Client/Termination.antt =====
-- protocol/client.rs: `handle_client` returns.
use hotaru_mqtt.Base.{
  ℕ, zero, suc, ◌≡◌, ◌≢◌, ◌⊎◌, ◌+◌, ◌<◌, ◌≤◌, refl, length, List, [], ◌∷◌, drop, Bool, true, false,
  Option, none, some, inl, inr, arith, if◌then◌else◌, Bool-cases, Option-cases, Bytes, Outcome, ok,
  err, panic,
}
use hotaru_mqtt.Error.{MqttError}
use hotaru_mqtt.Request.{TopicFilter}
use hotaru_mqtt.Packet.{Packet}
use hotaru_mqtt.Packet.ConnackReturnCode.{ConnackReturnCode}
use hotaru_mqtt.Safety.{max_packet_size}
use hotaru_mqtt.Channel.{MqttChannel, send_packet}
use hotaru_mqtt.Channel.Sending.{send_packet_answers}
use hotaru_mqtt.Client.{MqttClientConfig}
use hotaru_mqtt.Action.{and_then, Timed}
use hotaru_mqtt.Protocol.Client.{
  Client, Selected, Turn, continue, break, return, panicked, client_turn, connected,
  receive_connack, accepted, send_connect, subscribe_initially, select_arm, after_ping, on_channel,
}
use hotaru_mqtt.Protocol.Client.Answers.{client_turn_answers}
use hotaru_mqtt.Protocol.Server.Termination.{Reads, read_packet_lem}
use hotaru_mqtt.Protocol.Client.Run.{
  first_read, selected_read, select, serve, ended, after_connected, after_send, after_reader,
  handle_client,
}

-- A turn that goes on leaves fewer bytes or ticks, and none panics.
abbrev Goes : ℕ → ℕ → Turn → Type 0
Goes left right continue = left < right
Goes left right break = Unit {0}
Goes left right (return e) = Unit {0}
Goes left right panicked = ⊥

goes : (left right : ℕ) (turn : Turn) → left < right → turn ≢ panicked → Goes left right turn
goes left right continue h k = h
goes left right break h k = tt
goes left right (return e) h k = tt
goes left right panicked h k = k refl

Turn-cases :
    (turn : Turn)
    → (turn ≡ continue)
      ⊎ ((turn ≡ break) ⊎ (((e : MqttError) × (turn ≡ return e)) ⊎ (turn ≡ panicked)))
Turn-cases continue = inl refl
Turn-cases break = inr (inl refl)
Turn-cases (return e) = inr (inr (inl (e, refl)))
Turn-cases panicked = inr (inr (inr refl))

-- The loop has ended, and without a panic.
abbrev Leaves : {Node H : Type 0} → Option (Client Node H × Turn) → Type 0
Leaves none = ⊥
Leaves (some (cl, continue)) = ⊥
Leaves (some (cl, break)) = Unit {0}
Leaves (some (cl, return e)) = Unit {0}
Leaves (some (cl, panicked)) = ⊥

length-drop_le : (n : ℕ) (xs : Bytes) → length (drop n xs) ≤ length xs
length-drop_le zero xs = omega arith
length-drop_le (suc n) [] = omega arith
length-drop_le (suc n) (x ∷ xs) = let rest = length-drop_le n xs in omega arith

-- A result, and no panic.
abbrev Returns : {Node H : Type 0} → Option (Client Node H × Outcome MqttError (Unit {0})) → Type 0
Returns none = ⊥
Returns (some (cl, r)) = r ≢ panic

from_Returns :
    {Node H : Type 0} (out : Option (Client Node H × Outcome MqttError (Unit {0})))
    (cl : Client Node H)
    → Returns out
    → (out ≢ none) × (out ≢ some (cl, panic))
from_Returns none cl h = absurd h
from_Returns (some (cl', r)) cl h = ((λ at. ground arith), λ at. h (ground arith))

accepted_answers : (code : ConnackReturnCode) → accepted code ≢ panic
accepted_answers ConnackReturnCode.accepted = λ at. ground arith
accepted_answers _ = λ at. ground arith

first_read_answers :
    (late : Bool) (wire : Bytes) (r : Outcome MqttError (Packet × Bytes))
    → Reads wire r
    → receive_connack (first_read late r).0 ≢ panic
unfolding receive_connack
first_read_answers true wire r h = λ at. ground arith
first_read_answers false wire (ok (Packet.connack ack, rest)) h = accepted_answers ack.return_code
first_read_answers false wire (ok (_, rest)) h = λ at. ground arith
first_read_answers false wire (err e) h = λ at. ground arith
first_read_answers false wire panic h = absurd h

subscribe_initially_answers :
    (filters : List TopicFilter) (ch : MqttChannel) → (subscribe_initially filters ch).1 ≢ panic
unfolding subscribe_initially
subscribe_initially_answers [] ch = λ at. ground arith
subscribe_initially_answers (tf ∷ tfs) ch = send_packet_answers _ _

and_then_answers :
    {A B : Type 0} (r : Outcome MqttError A) (ch : MqttChannel)
    (f : A → MqttChannel → MqttChannel × Outcome MqttError B)
    → r ≢ panic
    → ((a : A) → (f a ch).1 ≢ panic)
    → (and_then (ch, r) f).1 ≢ panic
and_then_answers (ok a) ch f h k = k a
and_then_answers (err e) ch f h k = λ at. ground arith
and_then_answers panic ch f h k = absurd (h refl)

connected_answers :
    {H : Type 0} (config : MqttClientConfig H) (answer : Timed (Outcome MqttError Packet))
    (ch : MqttChannel)
    → receive_connack answer ≢ panic
    → (connected config answer ch).1 ≢ panic
unfolding connected
connected_answers config answer ch h =
    and_then_answers (receive_connack answer) ch _ h
      (λ u. subscribe_initially_answers config.initial_subscriptions _)

module _ {Node H : Type 0} (walk : Bytes → List Node) (config : MqttClientConfig H) where
  if-Goes :
      (open_now : Bool) (left right : ℕ) (x : Client Node H × Turn) (cl : Client Node H)
      → Goes left right x.1
      → Goes left right (if open_now then x else (cl, break)).1
  if-Goes true left right x cl h = h
  if-Goes false left right x cl h = tt

  turn-Goes :
      (selected : Selected) (cl : Client Node H) (left right : ℕ)
      → Goes left right (select_arm walk config selected cl).1
      → Goes left right (client_turn walk config selected cl).1
  unfolding client_turn
  turn-Goes selected cl left right h =
      if-Goes cl.channel.is_open left right (select_arm walk config selected cl) cl h

  failed-Goes :
      (e : MqttError) (cl : Client Node H) (left right : ℕ)
      → Goes left right (select_arm walk config (Selected.read (err e)) cl).1
  failed-Goes MqttError.io cl left right = tt
  failed-Goes _ cl left right = tt

  -- What a turn reads either ends the loop or takes a byte or a tick.
  abbrev Takes : ℕ → Bytes → Selected × ℕ × Bytes → Type 0
  Takes ticks wire (selected, left, rest) =
      (cl : Client Node H)
      → Goes (length rest + left) (length wire + ticks) (client_turn walk config selected cl).1

  read-Takes :
      (ticks : ℕ) (wire : Bytes) (r : Outcome MqttError (Packet × Bytes))
      → Reads wire r
      → Takes ticks wire (selected_read ticks r)
  read-Takes ticks wire (ok (p, rest)) h cl =
      goes (length rest + ticks) (length wire + ticks) _ (omega arith)
        (client_turn_answers walk config (Selected.read (ok p)) cl (λ at. ground arith))
  read-Takes ticks wire (err e) h cl =
      turn-Goes (Selected.read (err e)) cl (0 + ticks) (length wire + ticks)
        (failed-Goes e cl (0 + ticks) (length wire + ticks))
  read-Takes ticks wire panic h cl = absurd h

  pinged-Goes :
      (left right : ℕ) (r : Client Node H × Outcome MqttError (Unit {0}))
      → left < right
      → r.1 ≢ panic
      → Goes left right (after_ping walk config r).1
  pinged-Goes left right (cl, ok u) h k = h
  pinged-Goes left right (cl, err e) h k = tt
  pinged-Goes left right (cl, panic) h k = k refl

  ping-Takes :
      (ticks taken : ℕ) (wire : Bytes)
      → Takes (suc ticks) wire (Selected.ping_due, ticks, drop taken wire)
  ping-Takes ticks taken wire cl =
      let fewer = length-drop_le taken wire in
      turn-Goes Selected.ping_due cl (length (drop taken wire) + ticks) (length wire + suc ticks) (
        pinged-Goes (length (drop taken wire) + ticks) (length wire + suc ticks)
          (on_channel {Node = Node} {H = H} (send_packet Packet.pingreq) cl) (omega arith)
          (send_packet_answers Packet.pingreq cl.channel))

  module _ (valid_utf8 : Bytes → Bool) (late : Bool) (shutdown : Bytes → Bool)
      (tick : ℕ → Bytes → Option ℕ) (others : Bytes → MqttChannel → MqttChannel) where
    shutdown-Takes :
        (ticks : ℕ) (wire : Bytes) → Takes ticks wire (Selected.shutdown_notified, ticks, wire)
    shutdown-Takes ticks wire cl =
        turn-Goes Selected.shutdown_notified cl (length wire + ticks) (length wire + ticks) tt

    select-Takes :
        (ticks : ℕ) (wire : Bytes)
        → Takes ticks wire (select walk config valid_utf8 late shutdown tick others ticks wire)
    unfolding select
    select-Takes zero wire = elim (Bool-cases (shutdown wire)) [
      | inl e ↦ rw (select, e) (shutdown-Takes zero wire)
      | inr e ↦
          rw (select, e)
            (read-Takes zero wire _
              (read_packet_lem valid_utf8 wire (max_packet_size config.safety)))
    ]
    select-Takes (suc ticks) wire = elim (Bool-cases (shutdown wire)) [
      | inl e ↦ rw (select, e) (shutdown-Takes (suc ticks) wire)
      | inr e ↦ elim (Option-cases (tick ticks wire)) [
        | inl f ↦
            rw (select, e, f)
              (read-Takes (suc ticks) wire _
                (read_packet_lem valid_utf8 wire (max_packet_size config.safety)))
        | inr (taken, f) ↦ rw (select, e, f) (ping-Takes ticks taken wire)
      ]
    ]

    serve_returns :
        (fuel ticks : ℕ) (wire : Bytes) (cl : Client Node H)
        → length wire + ticks < fuel
        → Leaves (serve walk config valid_utf8 late shutdown tick others fuel ticks wire cl)
    unfolding serve
    serve_returns zero ticks wire cl h = absurd (omega arith)
    serve_returns (suc fuel) ticks wire cl h =
        let x : Selected × ℕ × Bytes =
          select walk config valid_utf8 late shutdown tick others ticks wire in
        let now : Client Node H = record cl { channel = others wire cl.channel } in
        let takes = select-Takes ticks wire now in
        elim (Turn-cases (client_turn walk config x.0 now).1) [
          | inl e ↦
              rw (serve, e)
                (serve_returns fuel x.1 x.2 (client_turn walk config x.0 now).0 (
                  let less : length x.2 + x.1 < length wire + ticks = (rw e at takes) in
                  omega arith))
          | inr (inl e) ↦ rw (serve, e) tt
          | inr (inr (inl (error, e))) ↦ rw (serve, e) tt
          | inr (inr (inr e)) ↦ absurd (rw e at takes)
        ]

    ended-Returns :
        (out : Option (Client Node H × Turn))
        → Leaves out
        → Returns (ended walk config valid_utf8 late shutdown tick others out)
    ended-Returns none h = absurd h
    ended-Returns (some (cl, continue)) h = absurd h
    ended-Returns (some (cl, panicked)) h = absurd h
    ended-Returns (some (cl, break)) h = λ at. ground arith
    ended-Returns (some (cl, return e)) h = λ at. ground arith

    after_connected-Returns :
        (ticks : ℕ) (rest : Bytes) (r : MqttChannel × Outcome MqttError (Unit {0}))
        → r.1 ≢ panic
        → Returns (after_connected walk config valid_utf8 late shutdown tick others ticks rest r)
    after_connected-Returns ticks rest (ch, ok u) h = ended-Returns _ (
        serve_returns (suc (length rest + ticks)) ticks rest (record { channel = ch; spawned = [] })
          (omega arith))
    after_connected-Returns ticks rest (ch, err e) h = λ at. ground arith
    after_connected-Returns ticks rest (ch, panic) h = absurd (h refl)

    after_send-Returns :
        (ticks : ℕ) (wire : Bytes) (r : MqttChannel × Outcome MqttError (Unit {0}))
        → r.1 ≢ panic
        → Returns (after_send walk config valid_utf8 late shutdown tick others ticks wire r)
    after_send-Returns ticks wire (ch, ok u) h = after_connected-Returns ticks _ _ (
        connected_answers config _ ch (
          first_read_answers late wire _
            (read_packet_lem valid_utf8 wire (max_packet_size config.safety))))
    after_send-Returns ticks wire (ch, err e) h = λ at. ground arith
    after_send-Returns ticks wire (ch, panic) h = absurd (h refl)

    after_reader-Returns :
        (ticks : ℕ) (reader : Option Bytes) (ch : MqttChannel)
        → Returns (after_reader walk config valid_utf8 late shutdown tick others ticks reader ch)
    unfolding send_connect
    after_reader-Returns ticks none ch = λ at. ground arith
    after_reader-Returns ticks (some wire) ch =
        after_send-Returns ticks wire _ (send_packet_answers _ ch)

    -- On a finite wire, for a finite number of ticks of the ping timer, whenever they come and
    -- whatever the other tasks do to the channel between the turns, the client task of a
    -- connection runs out of no fuel: it returns, and does not panic.
    pub handle_client_returns :
        (ticks : ℕ) (ch : MqttChannel) (cl : Client Node H)
        → (handle_client walk config valid_utf8 late shutdown tick others ticks ch ≢ none)
          × (handle_client walk config valid_utf8 late shutdown tick others ticks ch
              ≢ some (cl, panic))
    unfolding handle_client
    handle_client_returns ticks ch cl = from_Returns _ cl (after_reader-Returns ticks _ _)
