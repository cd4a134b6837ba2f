-- ===== src/Protocol/Server/Admission.antt =====
-- protocol/server.rs: what the admission of a CONNECT comes to.
use hotaru_mqtt.Base.{
  ℕ, ◌≡◌, ◌⊎◌, ◌≢◌, ◌∙◌, ◌++◌, ◌*◌, ap, str_eq_refl, ◌==◌, ltb, ltb→le, not, ◌≤◌, refl, [], ◌∷◌,
  true, false, Option, none, some, inl, inr, arith, if◌then◌else◌, Bool-cases, Bytes, Outcome, ok,
  err, panic,
}
use hotaru_mqtt.Error.{MqttError}
use hotaru_mqtt.Packet.{Packet, ConnectPacket}
use hotaru_mqtt.Packet.ConnackReturnCode.{ConnackReturnCode}
use hotaru_mqtt.Safety.{MqttSafety}
use hotaru_mqtt.Broker.{Authenticator, ConnectionId, BrokerInner}
use hotaru_mqtt.Protocol.Server.{
  admit, server_read_deadline, keep_alive_refused, client_id_of, refuse, answered, accept_connect,
}
use hotaru_mqtt.Channel.{MqttChannel}
use hotaru_mqtt.Protocol.Server.{will_message}
use hotaru_mqtt.Channel.{WriteCmd}
use hotaru_mqtt.Channel.Sending.{packet_accepted}
use hotaru_mqtt.Error.{Violation}
use hotaru_mqtt.Safety.{allows_disabled_keep_alive, max_keep_alive}
use hotaru_mqtt.Broker.{set_channel, register_session}
use hotaru_mqtt.Broker.Invariant.{IsConsistent}
use hotaru_mqtt.Protocol.System.Owner.{owner, register_session-owner}

-- The reason for a refusal.
abbrev pub refusal_code :
    {Addr : Type 0}
    → Authenticator Addr
    → MqttSafety
    → Option Addr
    → ConnectPacket
    → ConnackReturnCode
refusal_code authenticator safety addr p =
    if keep_alive_refused safety p.keep_alive
    then ConnackReturnCode.server_unavailable
    else (authenticator p addr).return_code

abbrev pub refusal : ConnackReturnCode → MqttChannel → MqttChannel
refusal code ch = record ch {
  queue =
      ch.queue
      ++ (WriteCmd.packet (Packet.connack (record { session_present = false; return_code = code }))
          ∷ []);
}

refuse_lem :
    (c : ConnectionId) (code : ConnackReturnCode) (st : BrokerInner)
    → (st.channels c).writer_alive ≡ true
    → refuse c code st ≡ (
      set_channel c (refusal code (st.channels c)) st,
      err (MqttError.protocol (Violation.connection_refused code)),
    )
unfolding refuse
refuse_lem c code st alive =
    ap (λ r. (set_channel c r.0 st, err (MqttError.protocol (Violation.connection_refused code))))
      (packet_accepted (Packet.connack (record { session_present = false; return_code = code }))
        (st.channels c) alive)

-- An answer under which a session stands.
answered_ok :
    (c : ConnectionId) (client k : Bytes) (acked : BrokerInner)
    (sent : Outcome MqttError (Unit {0}))
    → (answered c client acked sent).1 ≡ ok k
    → (k ≡ client) × ((answered c client acked sent).0 ≡ acked)
answered_ok c client k acked (ok u) h = (ground arith, refl)
answered_ok c client k acked (err e) h = absurd (ground arith)
answered_ok c client k acked panic h = absurd (ground arith)

accepted_lem :
    (c : ConnectionId) (client k : Bytes) (p : ConnectPacket) (st : BrokerInner)
    → IsConsistent st
    → (accept_connect c client p st).1 ≡ ok k
    → (k ≡ client) × (owner k (accept_connect c client p st).0 ≡ some c)
unfolding accept_connect
accepted_lem c client k p st cons h =
    let (same, left) = answered_ok c client k _ _ h in
    (
      same,
      ap (owner k) left
          ∙ ap (λ x. owner x (register_session client c (will_message p.will) p.clean_session st).0)
              same
          ∙ register_session-owner client client c (will_message p.will) p.clean_session st cons
          ∙ rw (str_eq_refl client) refl,
    )

refused_twice :
    (c : ConnectionId) (code : ConnackReturnCode) (st : BrokerInner) (k : Bytes)
    → (refuse c code st).1 ≢ ok k
unfolding refuse
refused_twice c code st k = λ at. ground arith

-- A keep-alive that is not refused.
deadline_lem :
    (safety : MqttSafety) (keep_alive : ℕ)
    → keep_alive_refused safety keep_alive ≡ false
    → ((server_read_deadline keep_alive ≡ none) × (allows_disabled_keep_alive safety ≡ true))
      ⊎ ((server_read_deadline keep_alive ≡ some (keep_alive * 1500))
          × (keep_alive * 1500 ≤ max_keep_alive safety * 1500))
unfolding keep_alive_refused server_read_deadline
deadline_lem safety keep_alive h = elim (Bool-cases (keep_alive == 0)) [
  | inl e ↦
      let allowed : not (allows_disabled_keep_alive safety) ≡ false =
        (rw (keep_alive_refused, e) at h) in
      inl (rw (server_read_deadline, e) refl, ground (arith, allowed))
  | inr e ↦
      let within : ltb (max_keep_alive safety) keep_alive ≡ false =
        (rw (keep_alive_refused, e) at h) in
      let bound : keep_alive ≤ max_keep_alive safety =
        ltb→le (max_keep_alive safety) keep_alive within in
      inr (rw (server_read_deadline, e) refl, omega arith)
]

module _ {Addr : Type 0} (authenticator : Authenticator Addr) (safety : MqttSafety)
    (addr : Option Addr) (c : ConnectionId) (p : ConnectPacket) (st : BrokerInner) where
  -- Over a live writer, a CONNECT with a keep-alive out of policy, or one that the authenticator
  -- refuses, changes nothing but the queue of its channel, which gets a CONNACK with the reason;
  -- the error returned carries the same reason.
  pub refused_lem :
      (keep_alive_refused safety p.keep_alive ≡ true) ⊎ ((authenticator p addr).accepted ≡ false)
      → (st.channels c).writer_alive ≡ true
      → admit authenticator safety addr c p st ≡ (
        set_channel c (refusal (refusal_code authenticator safety addr p) (st.channels c)) st,
        err (
            MqttError.protocol
              (Violation.connection_refused (refusal_code authenticator safety addr p))),
      )
  unfolding admit
  refused_lem (inl e) alive =
      rw (admit, e) (refuse_lem c ConnackReturnCode.server_unavailable st alive)
  refused_lem (inr f) alive = elim (Bool-cases (keep_alive_refused safety p.keep_alive)) [
    | inl e ↦ rw (admit, e) (refuse_lem c ConnackReturnCode.server_unavailable st alive)
    | inr e ↦ rw (admit, e, f) (refuse_lem c (authenticator p addr).return_code st alive)
  ]

  -- On consistent tables, an admission that succeeds is under the client id of the CONNECT, or a
  -- generated one, and leaves its session with this connection; the read deadline of the
  -- connection is one and a half times its keep-alive and at most that of the configured maximum,
  -- or there is none and the configuration allows that.
  pub admitted_lem :
      (client : Bytes)
      → (admit authenticator safety addr c p st).1 ≡ ok client
      → IsConsistent st
      → (client ≡ client_id_of c p)
        × (owner client (admit authenticator safety addr c p st).0 ≡ some c)
        × (((server_read_deadline p.keep_alive ≡ none) × (allows_disabled_keep_alive safety ≡ true))
            ⊎ ((server_read_deadline p.keep_alive ≡ some (p.keep_alive * 1500))
                × (p.keep_alive * 1500 ≤ max_keep_alive safety * 1500)))
  unfolding admit
  admitted_lem client h cons = elim (Bool-cases (keep_alive_refused safety p.keep_alive)) [
    | inl e ↦
        absurd (refused_twice c ConnackReturnCode.server_unavailable st client (rw (admit, e) at h))
    | inr e ↦ elim (Bool-cases (authenticator p addr).accepted) [
      | inl f ↦
          let (same, own) =
            accepted_lem c (client_id_of c p) client p st cons (rw (admit, e, f) at h) in
          (same, rw (admit, e, f) own, deadline_lem safety p.keep_alive e)
      | inr f ↦
          absurd
            (refused_twice c (authenticator p addr).return_code st client (rw (admit, e, f) at h))
    ]
  ]
