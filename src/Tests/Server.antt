-- ===== src/Tests/Server.antt =====
-- The theorems on the server task at concrete brokers.
use hotaru_mqtt.Base.{
  ℕ, ◌≡◌, ◌≢◌, refl, List, [], ◌∷◌, ◌++◌, Bool, true, false, none, some, arith, ◌==◌, if◌then◌else◌,
  Bytes, str_eq, Outcome, ok, err, panic, inr, ◌⊎◌, ◌≤◌, ◌*◌, length,
}
use hotaru_mqtt.Error.{MqttError}
use hotaru_mqtt.DashMap.{get, insert, remove, nat_key, str_key}
use hotaru_mqtt.Safety
use hotaru_mqtt.Channel.{send_packet}
use hotaru_mqtt.Broker.{ConnectionId, build, register_session, accept_all_authenticator}
use hotaru_mqtt.Protocol.Server.{admit, accept_connect, keep_alive_refused}
use hotaru_mqtt.Protocol.System.{
  System, initial, admitted, phase_at, client_of, returned, start, more, connect,
}
use hotaru_mqtt.Protocol.System.Owner.{owner}
use hotaru_mqtt.Protocol.System.Leaks.{sessions_are_served}
use hotaru_mqtt.Broker.{
  BrokerInner, deny_all_authenticator, Authenticator, set_channel, incoming_from_packet,
}
use hotaru_mqtt.Error.{Violation}
use hotaru_mqtt.Safety.{allows_disabled_keep_alive}
use hotaru_mqtt.Protocol.Server.{Server, client_id_of, server_read_deadline}
use hotaru_mqtt.Protocol.Server.Run.{handle_server}
use hotaru_mqtt.Protocol.Server.Termination.{handle_server_returns}
use hotaru_mqtt.Protocol.Server.Admission.{refusal, refusal_code, refused_lem, admitted_lem}
use hotaru_mqtt.Tests.Data.{ascii}
use hotaru_mqtt.Tests.Peers.{fresh, walk, client, connect_packet, channels, run_node}

-- A broker on which the client `c` has connected over the connection 5.
abbrev before : System
before = initial walk run_node (accept_all_authenticator {Addr = ℕ}) Safety.new channels

abbrev after : System
after =
    admitted 5 before
      (admit (accept_all_authenticator {Addr = ℕ}) Safety.new none 5 connect_packet before.inner)

after_owner : owner client after.inner ≡ some 5
unfolding admit accept_connect register_session keep_alive_refused accept_all_authenticator build
    send_packet get insert Safety.max_keep_alive Safety.new hotaru_mqtt.Broker.accept
    hotaru_mqtt.Broker.take_over remove str_eq hotaru_mqtt.Base.is_empty
after_owner = refl

sessions_are_served_example :
    (client_of (phase_at 5 after) ≡ some client) × (phase_at 5 after ≢ returned (ok tt))
sessions_are_served_example =
    sessions_are_served walk run_node (accept_all_authenticator {Addr = ℕ}) Safety.new client 5
      (ok tt) (more (start channels) (connect 5 none connect_packet refl)) after_owner

abbrev auth : Authenticator ℕ
unfolding accept_all_authenticator
auth = accept_all_authenticator

abbrev no_others : Bytes → Server → Server
no_others wire sv = sv

-- A CONNECT of the client `c`, and a DISCONNECT.
abbrev session_bytes : Bytes
session_bytes =
    16 ∷ 13 ∷ 0 ∷ 4 ∷ b'M' ∷ b'Q' ∷ b'T' ∷ b'T' ∷ 4 ∷ 2 ∷ 0 ∷ 60 ∷ 0 ∷ 1 ∷ b'c' ∷ 224 ∷ 0 ∷ []

abbrev about_to_connect : BrokerInner
about_to_connect = set_channel 5 (record fresh { reader = some session_bytes }) before.inner

handle_server_returns_example :
    (handle_server walk run_node auth Safety.new ascii
        (λ w. false)
        (λ w. false)
        no_others
        none
        5
        about_to_connect
      ≢ none)
    × (handle_server walk run_node auth Safety.new ascii
          (λ w. false)
          (λ w. false)
          no_others
          none
          5
          about_to_connect
        ≢ some (before.inner, panic))
handle_server_returns_example =
    handle_server_returns walk run_node auth Safety.new ascii (λ w. false) (λ w. false) no_others
      none 5 about_to_connect before.inner

refused_lem_example :
    admit (deny_all_authenticator {Addr = ℕ}) Safety.new none 5 connect_packet before.inner ≡ (
      set_channel 5
          (refusal
            (refusal_code (deny_all_authenticator {Addr = ℕ}) Safety.new none connect_packet)
            fresh)
          before.inner,
      err (
          MqttError.protocol (
            Violation.connection_refused
              (refusal_code (deny_all_authenticator {Addr = ℕ}) Safety.new none connect_packet))),
    )
unfolding deny_all_authenticator build hotaru_mqtt.Broker.reject
refused_lem_example =
    refused_lem (deny_all_authenticator {Addr = ℕ}) Safety.new none 5 connect_packet before.inner
      (inr refl) refl

after_answer :
    (admit (accept_all_authenticator {Addr = ℕ}) Safety.new none 5 connect_packet before.inner).1
    ≡ ok client
unfolding admit accept_connect register_session keep_alive_refused accept_all_authenticator build
    send_packet get insert Safety.max_keep_alive Safety.new hotaru_mqtt.Broker.accept
    hotaru_mqtt.Broker.take_over remove str_eq hotaru_mqtt.Base.is_empty
after_answer = refl

admitted_lem_example :
    (client ≡ client_id_of 5 connect_packet)
    × (owner client
          (admit
            (accept_all_authenticator {Addr = ℕ})
            Safety.new
            none
            5
            connect_packet
            before.inner).0
        ≡ some 5)
    × (((server_read_deadline 60 ≡ none) × (allows_disabled_keep_alive Safety.new ≡ true))
        ⊎ ((server_read_deadline 60 ≡ some (60 * 1500))
            × (60 * 1500 ≤ Safety.max_keep_alive Safety.new * 1500)))
unfolding build
admitted_lem_example =
    admitted_lem (accept_all_authenticator {Addr = ℕ}) Safety.new none 5 connect_packet before.inner
      client after_answer (tt, tt, tt)
