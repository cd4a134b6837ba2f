-- ===== src/Protocol/System/Leaks.antt =====
-- protocol/server.rs: which connections the session table names, through the steps of all of them.
use hotaru_mqtt.Base.{
  ◌≡◌, ◌≢◌, refl, sym, ap, ◌∙◌, List, [], Bool, false, Option, some, inl, inr, arith, ◌==◌, ==_iff,
  ==_refl, if◌then◌else◌, Bool-cases, Bytes, Outcome, ok, err, panic, ◌⊎◌,
}
use hotaru_mqtt.Error.{MqttError, Violation}
use hotaru_mqtt.Request.{WillMessage}
use hotaru_mqtt.Packet.{PublishPacket, ConnectPacket}
use hotaru_mqtt.Packet.ConnackReturnCode.{ConnackReturnCode}
use hotaru_mqtt.Safety.{MqttSafety, max_packet_size}
use hotaru_mqtt.Channel.{MqttChannel, close}
use hotaru_mqtt.Context.{MqttContext}
use hotaru_mqtt.Broker.{
  Authenticator, ConnectionId, BrokerInner, build, set_channel, register_session,
  unregister_session,
}
use hotaru_mqtt.Protocol.Server.{
  answered, Server, Selected, ReadOutcome, Turn, continue, break, panicked, admit, accept_connect,
  refuse, keep_alive_refused, client_id_of, will_message, server_turn,
  run_server_chain_then_decide_fanout, worker_round, terminal,
}
use hotaru_mqtt.Protocol.System.{
  Phase, connecting, serving, winding, returned, client_of, System, phase_at, put, admitted, turned,
  server_of, Step, Reachable, refused, connect, turn, notified, work, unregister, channel, start,
  more,
}
use hotaru_mqtt.DashMap.{get, str_key}
use hotaru_mqtt.Protocol.System.Owner.{owner, Fits, register_session-Fits, unregister_session-Fits}
use hotaru_mqtt.Channel.Sending.{send_packet_answers}
use hotaru_mqtt.Protocol.Server.Answers.{server_turn_answers}
use hotaru_mqtt.Protocol.Server.Termination.{read_packet_before_lem}
use hotaru_mqtt.Protocol.System.Dispatch.{server_turn-Fits, publish_decided-Fits}

-- What the connection `d` may have, before and after the phase of `c` is set.
abbrev Allowed : System → Bytes → ConnectionId → Type 0
Allowed sys k d = client_of (phase_at d sys) ≡ some k

module _ (c : ConnectionId) (inner : BrokerInner) (phase : Phase) (work : List PublishPacket)
    (sys : System) where
  phase_put :
      (d : ConnectionId)
      → phase_at d (put c inner phase work sys) ≡ (if c == d then phase else phase_at d sys)
  phase_put d = ground arith

  pub put_other :
      (k : Bytes) (d : ConnectionId)
      → d ≢ c
      → Allowed sys k d
      → Allowed (put c inner phase work sys) k d
  put_other k d ne h = elim (Bool-cases (c == d)) [
    | inl e ↦ absurd (ne (sym ((==_iff c d).0 e)))
    | inr e ↦ ap client_of (phase_put d ∙ rw e refl) ∙ h
  ]

  put_same : (k : Bytes) → client_of phase ≡ some k → Allowed (put c inner phase work sys) k c
  put_same k h = ap client_of (phase_put c ∙ rw (==_refl c) refl) ∙ h

  put-Fits :
      ((k : Bytes) → Allowed sys k c → client_of phase ≡ some k)
      → Fits (Allowed sys) inner
      → Fits (Allowed (put c inner phase work sys)) inner
  put-Fits same (cons, own) = (
    cons,
    λ k d h. elim (Bool-cases (c == d)) [
      | inl e ↦
          let at : c ≡ d = (==_iff c d).0 e in
          let mine : Allowed sys k c = ap (λ x. client_of (phase_at x sys)) at ∙ own k d h in
          ap client_of (phase_put d ∙ rw e refl) ∙ same k mine
      | inr e ↦ ap client_of (phase_put d ∙ rw e refl) ∙ own k d h
    ],
  )

  -- What the other connections may have does not change back.
  unput_other :
      (k : Bytes) (d : ConnectionId)
      → d ≢ c
      → Allowed (put c inner phase work sys) k d
      → Allowed sys k d
  unput_other k d ne h = elim (Bool-cases (c == d)) [
    | inl e ↦ absurd (ne (sym ((==_iff c d).0 e)))
    | inr e ↦ ap client_of (sym (phase_put d ∙ rw e refl)) ∙ h
  ]

  put_at : (k : Bytes) → Allowed (put c inner phase work sys) k c → client_of phase ≡ some k
  put_at k h = ap client_of (sym (phase_put c ∙ rw (==_refl c) refl)) ∙ h

some_eq : (a b : Bytes) → ◌≡◌ {A = Option Bytes} (some a) (some b) → a ≡ b
some_eq a b h = ground arith

module _ (c : ConnectionId) (sys : System) where
  answered_ok-Fits :
      (client : Bytes) (acked : BrokerInner)
      → Fits (Allowed (put c acked (serving client) [] sys)) acked
      → Fits (Allowed (admitted c sys (answered c client acked (ok tt)))) acked
  answered_ok-Fits client acked h = h

  answered_err-Fits :
      (client : Bytes) (acked : BrokerInner) (e : MqttError)
      → Fits (Allowed (put c acked (serving client) [] sys)) acked
      → Fits
          (Allowed (admitted c sys (answered c client acked (err e))))
          (unregister_session client c false acked)
  answered_err-Fits client acked e h =
      unregister_session-Fits (Allowed (put c acked (serving client) [] sys))
        (Allowed (put c (unregister_session client c false acked) (returned (err e)) [] sys)) c
        (λ k d ne x.
          put_other c (unregister_session client c false acked) (returned (err e)) [] sys k d ne
            (unput_other c acked (serving client) [] sys k d ne x))
        client false acked
        (λ k x. sym (some_eq client k (put_at c acked (serving client) [] sys k x))) h

  -- A connection that has no session yet.
  idle : phase_at c sys ≡ connecting → (k : Bytes) → ¬ (Allowed sys k c)
  idle new k h = ground arith

  register-Fits :
      (client : Bytes) (will : Option WillMessage) (clean : Bool) (st : BrokerInner)
      → phase_at c sys ≡ connecting
      → Fits (Allowed sys) st
      → Fits
          (Allowed (put c st (serving client) [] sys))
          (register_session client c will clean st).0
  register-Fits client will clean st new h =
      register_session-Fits (Allowed sys) (Allowed (put c st (serving client) [] sys)) c
        (put_other c st (serving client) [] sys) client will clean st (idle new)
        (put_same c st (serving client) [] sys client refl) h

  answered-Fits :
      (client : Bytes) (acked : BrokerInner) (sent : Outcome MqttError (Unit {0}))
      → sent ≢ panic
      → Fits (Allowed (put c acked (serving client) [] sys)) acked
      → Fits
          (Allowed (admitted c sys (answered c client acked sent)))
          (admitted c sys (answered c client acked sent)).inner
  answered-Fits client acked (ok u) ne h = h
  answered-Fits client acked (err e) ne h = answered_err-Fits client acked e h
  answered-Fits client acked panic ne h = absurd (ne refl)

  accept_connect-Fits :
      (client : Bytes) (p : ConnectPacket) (st : BrokerInner)
      → phase_at c sys ≡ connecting
      → Fits (Allowed sys) st
      → Fits
          (Allowed (admitted c sys (accept_connect c client p st)))
          (admitted c sys (accept_connect c client p st)).inner
  unfolding accept_connect
  accept_connect-Fits client p st new h =
      answered-Fits client _ _ (send_packet_answers _ _)
        (register-Fits client (will_message p.will) p.clean_session st new h)

  -- The refusal of a connection, before or after its CONNECT.
  refused-Fits :
      (result : Outcome MqttError (Unit {0})) (st : BrokerInner)
      → phase_at c sys ≡ connecting
      → Fits (Allowed sys) st
      → Fits (Allowed (put c st (returned result) [] sys)) st
  refused-Fits result st new h =
      put-Fits c st (returned result) [] sys (λ k x. absurd (idle new k x)) h

  refuse-Fits :
      (code : ConnackReturnCode)
      → phase_at c sys ≡ connecting
      → Fits (Allowed sys) sys.inner
      → Fits
          (Allowed (admitted c sys (refuse c code sys.inner)))
          (admitted c sys (refuse c code sys.inner)).inner
  unfolding refuse
  refuse-Fits code new h =
      refused-Fits (err (MqttError.protocol (Violation.connection_refused code))) sys.inner new h

  turned-Fits :
      (client : Bytes) (r : Server × Turn)
      → r.1 ≢ panicked
      → phase_at c sys ≡ serving client
      → Fits (Allowed sys) r.0.inner
      → Fits (Allowed (turned c client sys r)) (turned c client sys r).inner
  turned-Fits client (sv, continue) ne at h =
      put-Fits c sv.inner (serving client) sv.work sys (λ k x. sym (ap client_of at) ∙ x) h
  turned-Fits client (sv, panicked) ne at h = absurd (ne refl)
  turned-Fits client (sv, break graceful error) ne at h =
      put-Fits c (set_channel c (close (sv.inner.channels c)) sv.inner)
        (winding client graceful error) sv.work sys (λ k x. sym (ap client_of at) ∙ x) h

module _ {Node Addr : Type 0} (walk : Bytes → List Node)
    (run_node : Node → MqttContext Node → MqttError ⊎ MqttContext Node)
    (authenticator : Authenticator Addr) (safety : MqttSafety) where
  admit-Fits :
      (sys : System) (c : ConnectionId) (addr : Option Addr) (p : ConnectPacket)
      → phase_at c sys ≡ connecting
      → Fits (Allowed sys) sys.inner
      → Fits
          (Allowed (admitted c sys (admit authenticator safety addr c p sys.inner)))
          (admitted c sys (admit authenticator safety addr c p sys.inner)).inner
  unfolding admit
  admit-Fits sys c addr p new h = elim (Bool-cases (keep_alive_refused safety p.keep_alive)) [
    | inl e ↦ rw (admit, e) (refuse-Fits c sys ConnackReturnCode.server_unavailable new h)
    | inr e ↦ elim (Bool-cases (authenticator p addr).accepted) [
      | inl f ↦ rw (admit, e, f) (accept_connect-Fits c sys (client_id_of c p) p sys.inner new h)
      | inr f ↦ rw (admit, e, f) (refuse-Fits c sys (authenticator p addr).return_code new h)
    ]
  ]

  taken-Fits :
      (c : ConnectionId) (sys : System) (client : Bytes) (selected : Selected)
      → selected ≢ Selected.read ReadOutcome.unwound
      → phase_at c sys ≡ serving client
      → Fits (Allowed sys) sys.inner
      → let next = turned c client sys (server_turn client c selected (server_of c sys)) in
        Fits (Allowed next) next.inner
  taken-Fits c sys client selected no_panic at h =
      turned-Fits c sys client (server_turn client c selected (server_of c sys))
        (server_turn_answers client c selected (server_of c sys) no_panic) at
        (server_turn-Fits (Allowed sys) client c selected (server_of c sys) h)

  Step-Fits :
      {sys sys' : System}
      → Step walk run_node authenticator safety sys sys'
      → Fits (Allowed sys) sys.inner
      → Fits (Allowed sys') sys'.inner
  unfolding worker_round
  Step-Fits {sys} (refused c e new) h = refused-Fits c sys (err e) sys.inner new h
  Step-Fits {sys} (connect c addr p new) h = admit-Fits sys c addr p new h
  Step-Fits {sys} (turn c client valid_utf8 wire deadline late at) h =
      taken-Fits c sys client _
        (read_packet_before_lem valid_utf8 wire (max_packet_size safety) deadline late) at h
  Step-Fits {sys} (notified c client at) h =
      taken-Fits c sys client Selected.shutdown_notified (λ same. ground arith) at h
  Step-Fits {sys} (work c client p rest at queue) h =
      put-Fits c (worker_round walk run_node c client p sys.inner) (phase_at c sys) rest sys
        (λ k x. x)
        (publish_decided-Fits (Allowed sys) client
          (run_server_chain_then_decide_fanout walk run_node c p) sys.inner h)
  Step-Fits {sys} (unregister c client graceful error at queue) h =
      let ended : BrokerInner = unregister_session client c graceful sys.inner in
      unregister_session-Fits (Allowed sys)
        (Allowed (put c ended (returned (terminal error)) [] sys)) c
        (put_other c ended (returned (terminal error)) [] sys) client graceful sys.inner
        (λ k x. some_eq k client (sym x ∙ ap client_of at)) h
  Step-Fits {sys} (channel c ch) h = h

  unowned :
      (chans : ConnectionId → MqttChannel) (k : Bytes) (c : ConnectionId)
      → owner k (build chans authenticator safety).inner ≢ some c
  unfolding build get
  unowned chans k c h = ground arith

  Reachable-Fits :
      {sys : System}
      → Reachable walk run_node authenticator safety sys
      → Fits (Allowed sys) sys.inner
  unfolding build
  Reachable-Fits (start chans) = ((tt, tt, tt), λ k c h. absurd (unowned chans k c h))
  Reachable-Fits (more r step) = Step-Fits step (Reachable-Fits r)

  -- In every state that the connections of a new broker reach, by any interleaving of their
  -- admissions, turns, worker rounds and teardowns, while channels change in any way, a session
  -- in the table belongs to a connection that still serves or winds down that client, and not to
  -- one whose task has returned.
  pub sessions_are_served :
      {sys : System} (client : Bytes) (c : ConnectionId) (result : Outcome MqttError (Unit {0}))
      → Reachable walk run_node authenticator safety sys
      → owner client sys.inner ≡ some c
      → (client_of (phase_at c sys) ≡ some client) × (phase_at c sys ≢ returned result)
  sessions_are_served client c result r h =
      let (cons, own) = Reachable-Fits r in (own client c h, λ at. ground (arith, own client c h))
