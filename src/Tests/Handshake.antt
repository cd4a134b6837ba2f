-- ===== src/Tests/Handshake.antt =====
-- The handshake of a client with a broker, at concrete settings.
use hotaru_mqtt.Base.{ℕ, ◌≡◌, ◌≤◌, refl, [], not, ◌&&◌, none, some, arith, length, ok, is_empty}
use hotaru_mqtt.Safety
use hotaru_mqtt.Safety.{max_packet_size}
use hotaru_mqtt.Channel.{writer_step}
use hotaru_mqtt.DashMap.{get, str_key}
use hotaru_mqtt.Codec.Frame.{read_packet}
use hotaru_mqtt.Codec.WellFormed.{body_of, IsConnect}
use hotaru_mqtt.Codec.Encode.{
  connect_body, connect_header, write_password, write_username, write_will,
}
use hotaru_mqtt.Codec.Primitives.{write_arc_str}
use hotaru_mqtt.Action.{finished}
use hotaru_mqtt.Broker.{Authenticator, BrokerInner, accept, accept_all_authenticator, is_some}
use hotaru_mqtt.Broker.Unserved.{IsUnserved}
use hotaru_mqtt.Protocol.System.Owner.{owner}
use hotaru_mqtt.Protocol.Client.{build_connect, send_connect, connected}
use hotaru_mqtt.Protocol.Server.{admit, keep_alive_refused}
use hotaru_mqtt.Protocol.Handshake.{IsFresh, connect_of, info_of, connack_of}
use hotaru_mqtt.Protocol.Handshake.Agreement.{IsWelcome, handshake_agrees}
use hotaru_mqtt.Tests.Data.{ascii}
use hotaru_mqtt.Tests.Peers.{fresh, client, config}

abbrev auth : Authenticator ℕ
auth = accept_all_authenticator

abbrev empty : BrokerInner
empty = record { sessions = []; subscriptions = []; channels = λ c. fresh }

fresh-IsFresh : IsFresh fresh
fresh-IsFresh = record { alive = refl; no_queue = refl; no_wire = refl; unbound = refl }

connect_len : length (body_of (connect_of config)) ≡ 13
unfolding body_of connect_body build_connect write_password write_username write_will write_arc_str
    connect_header
connect_len = refl

connect_fits : 13 ≤ max_packet_size Safety.new
unfolding max_packet_size Safety.new
connect_fits = omega arith

config-IsConnect : IsConnect ascii (build_connect config)
unfolding build_connect
config-IsConnect = record {
  id_str = (refl, omega arith);
  alive_u16 = omega arith;
  will_ok = tt;
  user_ok = tt;
  pass_ok = tt;
}

welcome : IsWelcome ascii auth Safety.new none config 5
unfolding keep_alive_refused accept_all_authenticator is_empty Safety.max_keep_alive Safety.new
    accept
welcome = record {
  carried =
      (config-IsConnect, omega (arith, connect_len, connect_fits), omega (arith, connect_len));
  in_policy = refl;
  known = refl;
  named = refl;
}

no_session : IsUnserved 5 empty
unfolding get
no_session k h = ground (arith, h)

handshake_agrees_example :
    let asked = writer_step (send_connect config fresh).0 in
    let (st', r) = admit auth Safety.new none 5 (build_connect config) empty in
    let answered = writer_step (st'.channels 5) in
    let present = not config.clean_session && is_some (get client empty.sessions) in
    let done = connected config (finished (ok (connack_of present))) asked in
    (read_packet ascii asked.wire (max_packet_size Safety.new) ≡ ok (connect_of config, []))
    × (r ≡ ok client)
    × (owner client st' ≡ some 5)
    × (read_packet ascii answered.wire (max_packet_size Safety.new) ≡ ok (connack_of present, []))
    × (done.1 ≡ ok tt)
    × (done.0.session.bind ≡ some (info_of config))
    × (answered.session.bind ≡ some (info_of config))
handshake_agrees_example =
    handshake_agrees ascii auth Safety.new none config 5 fresh empty welcome fresh-IsFresh
      fresh-IsFresh (tt, tt, tt) no_session (omega (arith, connect_fits))
