-- ===== src/Protocol/Server/Admit.antt =====
-- protocol/server.rs: the reads of a connection, and its way from CONNECT to the loop.
use hotaru_mqtt.Base.{
  ℕ, zero, suc, ◌+◌, ◌*◌, ◌/◌, ◌%◌, [], ◌∷◌, ◌++◌, Bool, false, not, Option, none, some, ◌==◌, ltb,
  if◌then◌else◌, Bytes, is_empty, Outcome, ok, err, panic,
}
use hotaru_mqtt.Request.{WillMessage}
use hotaru_mqtt.Error.{MqttError, TimeoutKind, Violation}
use hotaru_mqtt.Packet.{Packet, ConnectPacket, WillPacket}
use hotaru_mqtt.Packet.ConnackReturnCode.{ConnackReturnCode}
use hotaru_mqtt.Safety.{MqttSafety, allows_disabled_keep_alive, max_keep_alive}
use hotaru_mqtt.Codec.Frame.{read_packet}
use hotaru_mqtt.Session.{BindInfo, set_bind}
use hotaru_mqtt.Channel.{MqttChannel, send_packet}
use hotaru_mqtt.Broker.{
  Authenticator, ConnectionId, BrokerInner, set_channel, register_session, unregister_session,
}
use hotaru_mqtt.Action.{Action, Timed, elapsed, finished, fail, ◌>>◌}
use hotaru_mqtt.Protocol.{with_session}

-- In milliseconds; the product of a u16 and 1500 is a u64.
unfoldable pub server_read_deadline : ℕ → Option ℕ
server_read_deadline keep_alive = if keep_alive == 0 then none else some (keep_alive * 1500)

-- What a read comes to; `unwound` is a panic.
pub data ReadOutcome : Type 0 where
  packet : Packet → ReadOutcome
  failed : MqttError → ReadOutcome
  deadline_elapsed : ReadOutcome
  unwound : ReadOutcome

abbrev pub read_outcome : Outcome MqttError (Packet × Bytes) → ReadOutcome × Bytes
read_outcome (ok (p, rest)) = (packet p, rest)
read_outcome (err e) = (failed e, [])
read_outcome panic = (unwound, [])

-- `late` says that a deadline, if there is one, passes before the read is done.
unfoldable pub read_packet_before :
    (Bytes → Bool) → Bytes → ℕ → Option ℕ → Bool → ReadOutcome × Bytes
read_packet_before valid_utf8 wire max_size deadline late = elim deadline [
  | none ↦ read_outcome (read_packet valid_utf8 wire max_size)
  | some limit ↦
      if late then (deadline_elapsed, wire) else read_outcome (read_packet valid_utf8 wire max_size)
]

-- What came of the wait for the first packet.
unfoldable pub receive_connect : Timed (Outcome MqttError Packet) → Outcome MqttError ConnectPacket
receive_connect elapsed = err (MqttError.timeout TimeoutKind.connect_receive)
receive_connect (finished (ok (Packet.connect c))) = ok c
receive_connect (finished (ok p)) = err (MqttError.protocol Violation.expected_connect)
receive_connect (finished (err e)) = err e
receive_connect (finished panic) = panic

unfoldable pub keep_alive_refused : MqttSafety → ℕ → Bool
keep_alive_refused safety keep_alive =
    if keep_alive == 0
    then not (allows_disabled_keep_alive safety)
    else ltb (max_keep_alive safety) keep_alive

-- The decimal digits of a u64, of which there are at most twenty.
abbrev digits : ℕ → ℕ → Bytes
digits zero n = []
digits (suc fuel) n =
    let more = digits fuel (n / 10) in
    if ltb n 10 then (n + 48) ∷ [] else more ++ ((n % 10 + 48) ∷ [])

-- `format!("hotaru-auto-{}", id)`
unfoldable pub auto_client_id : ConnectionId → Bytes
auto_client_id id =
    (b'h' ∷ b'o' ∷ b't' ∷ b'a' ∷ b'r' ∷ b'u' ∷ b'-' ∷ b'a' ∷ b'u' ∷ b't' ∷ b'o' ∷ b'-' ∷ [])
    ++ digits 20 id

abbrev pub will_message : Option WillPacket → Option WillMessage
will_message none = none
will_message (some w) =
    some (record { topic = w.topic; payload = w.payload; qos = w.qos; retain = w.retain })

-- An action on one channel of the store.
abbrev pub put_channel :
    {A : Type 0}
    → ConnectionId
    → BrokerInner
    → MqttChannel × Outcome MqttError A
    → BrokerInner × Outcome MqttError A
put_channel c st (ch, r) = (set_channel c ch st, r)

abbrev pub on_channel : {A : Type 0} → ConnectionId → Action MqttChannel A → Action BrokerInner A
on_channel c act st = put_channel c st (act (st.channels c))

-- The result of a send that nobody reads: `let _ = ...`.
abbrev pub ignore : {S A : Type 0} → Action S A → Action S (Unit {0})
ignore act s = ((act s).0, ok tt)

unfoldable pub refuse : ConnectionId → ConnackReturnCode → Action BrokerInner Bytes
refuse c code = do
  ignore (
      on_channel c
        (send_packet (Packet.connack (record { session_present = false; return_code = code }))))
  fail (MqttError.protocol (Violation.connection_refused code))

-- After the CONNACK: a session whose peer was not told of it is taken back.
abbrev pub answered :
    ConnectionId
    → Bytes
    → BrokerInner
    → Outcome MqttError (Unit {0})
    → BrokerInner × Outcome MqttError Bytes
answered c client acked (ok u) = (acked, ok client)
answered c client acked (err e) = (unregister_session client c false acked, err e)
answered c client acked panic = (acked, panic)

-- Registration, the bind, and the CONNACK. The client id under which the session stands.
unfoldable pub accept_connect : ConnectionId → Bytes → ConnectPacket → Action BrokerInner Bytes
accept_connect c client connect st =
    let (registered, present) =
      register_session client c (will_message connect.will) connect.clean_session st in
    let info : BindInfo = record { client_id = client; keep_alive = connect.keep_alive } in
    let bound =
      set_channel c (with_session (λ s. (set_bind s info).0) (registered.channels c)) registered in
    let (acked, sent) =
      on_channel c
        (send_packet (
          Packet.connack
            (record { session_present = present; return_code = ConnackReturnCode.accepted })))
        bound in
    answered c client acked sent

abbrev pub client_id_of : ConnectionId → ConnectPacket → Bytes
unfolding auto_client_id
client_id_of c connect = if is_empty connect.client_id then auto_client_id c else connect.client_id

-- From a CONNECT to the loop.
unfoldable pub admit :
    {Addr : Type 0}
    → Authenticator Addr
    → MqttSafety
    → Option Addr
    → ConnectionId
    → ConnectPacket
    → Action BrokerInner Bytes
unfolding client_id_of
admit authenticator safety addr c connect =
    let auth = authenticator connect addr in
    if keep_alive_refused safety connect.keep_alive
    then refuse c ConnackReturnCode.server_unavailable
    else if auth.accepted
    then accept_connect c (client_id_of c connect) connect
    else refuse c auth.return_code
