-- ===== src/Protocol/Handshake.antt =====
-- protocol/client.rs and protocol/server.rs: CONNECT from the client over both writers and readers to
-- the server, and CONNACK back.
pub mod Agreement
use hotaru_mqtt.Base.{
  ℕ, ◌≡◌, ◌≤◌, refl, sym, ap, ◌∙◌, List, [], ◌∷◌, ◌++◌, append-nil, Bool, true, false, Option, none,
  some, length, arith, Bytes, is_empty, str_eq_refl, ok,
}
use hotaru_mqtt.Request.{TopicFilter}
use hotaru_mqtt.Packet.{Packet, ConnectPacket, mqtt_spec_max_packet_size}
use hotaru_mqtt.Packet.ConnackReturnCode.{ConnackReturnCode}
use hotaru_mqtt.Safety.{MqttSafety, max_packet_size}
use hotaru_mqtt.Session.{BindInfo, MqttSession, set_bind, allocate_packet_id}
use hotaru_mqtt.Channel.{MqttChannel, WriteCmd, writer_step}
use hotaru_mqtt.Channel.Sending.{packet_accepted}
use hotaru_mqtt.Channel.Wire.{IsCarried, one_written}
use hotaru_mqtt.Codec.WellFormed.{IsWellFormed, body_of}
use hotaru_mqtt.Codec.Frame.{read_packet}
use hotaru_mqtt.Client.{MqttClientConfig}
use hotaru_mqtt.Action.{finished}
use hotaru_mqtt.Broker.{Authenticator, BrokerInner, ConnectionId, set_channel, register_session}
use hotaru_mqtt.Broker.Invariant.{IsConsistent}
use hotaru_mqtt.Broker.Unserved.{IsUnserved, register_session-channels, set_channel_same}
use hotaru_mqtt.Protocol.{with_session}
use hotaru_mqtt.Protocol.System.Owner.{owner, register_session-owner}
use hotaru_mqtt.Protocol.Client.{
  build_connect, send_connect, connected, receive_connack, subscribe_initially, topic_subscriptions,
}
use hotaru_mqtt.Protocol.Server.{
  admit, accept_connect, answered, put_channel, keep_alive_refused, client_id_of, will_message,
}

-- A channel whose writer is alive, before its first packet.
pub record IsFresh (ch : MqttChannel) : Type 0 where
  pub alive : ch.writer_alive ≡ true
  pub no_queue : ch.queue ≡ []
  pub no_wire : ch.wire ≡ []
  pub unbound : ch.session.bind ≡ none

set_bind_lem :
    (s : MqttSession) (info : BindInfo)
    → s.bind ≡ none
    → (set_bind s info).0 ≡ record s { bind = some info }
unfolding set_bind
set_bind_lem s info h = rw (set_bind, h) refl

module _ {H : Type 0} (config : MqttClientConfig H) where
  abbrev pub info_of : BindInfo
  info_of = record { client_id = config.client_id; keep_alive = config.keep_alive_secs }

  abbrev pub connect_of : Packet
  connect_of = Packet.connect (build_connect config)

  -- The channel of the client after CONNECT.
  pub sent_lem :
      (ch : MqttChannel)
      → IsFresh ch
      → (send_connect config ch).0 ≡ record ch { queue = WriteCmd.packet connect_of ∷ [] }
  unfolding send_connect
  sent_lem ch f =
      ap (λ r. r.0) (packet_accepted connect_of ch f.alive)
      ∙ ap (λ q. record ch { queue = q ++ (WriteCmd.packet connect_of ∷ []) }) f.no_queue

  -- The first SUBSCRIBE leaves the bind.
  subscribe_initially_lem :
      (tfs : List TopicFilter) (ch : MqttChannel)
      → ch.writer_alive ≡ true
      → ((subscribe_initially tfs ch).1 ≡ ok tt)
        × ((subscribe_initially tfs ch).0.session.bind ≡ ch.session.bind)
  unfolding subscribe_initially allocate_packet_id
  subscribe_initially_lem [] ch alive = (refl, refl)
  subscribe_initially_lem (tf ∷ tfs) ch alive =
      let (s, id) = allocate_packet_id ch.session in
      let p =
        Packet.subscribe
          (record { packet_id = id; subscriptions = topic_subscriptions (tf ∷ tfs) }) in
      let e = packet_accepted p (record ch { session = s }) alive in
      (ap (λ r. r.1) e, ap (λ r. r.0.session.bind) e)

  pub connected_lem :
      (present : Bool) (ch : MqttChannel)
      → ch.writer_alive ≡ true
      → ch.session.bind ≡ none
      → let answer =
          Packet.connack
            (record { session_present = present; return_code = ConnackReturnCode.accepted }) in
        let done = connected config (finished (ok answer)) ch in
        (done.1 ≡ ok tt) × (done.0.session.bind ≡ some info_of)
  unfolding connected receive_connack
  connected_lem present ch alive unbound =
      let bound = with_session (λ s. (set_bind s info_of).0) ch in
      let (r, b) = subscribe_initially_lem config.initial_subscriptions bound alive in
      (r, b ∙ ap (λ s. s.bind) (set_bind_lem ch.session info_of unbound))

-- The CONNACK of an admission, and the channel of the server after it.
abbrev pub connack_of : Bool → Packet
connack_of present =
    Packet.connack (record { session_present = present; return_code = ConnackReturnCode.accepted })

abbrev pub greeted : BindInfo → Bool → MqttChannel → MqttChannel
greeted info present ch = record ch {
  session = record ch.session { bind = some info };
  queue = WriteCmd.packet (connack_of present) ∷ [];
}

pub accept_connect_lem :
    (c : ConnectionId) (client : Bytes) (p : ConnectPacket) (st : BrokerInner)
    → IsConsistent st
    → IsUnserved c st
    → IsFresh (st.channels c)
    → let registered = register_session client c (will_message p.will) p.clean_session st in
      let (st', r) = accept_connect c client p st in
      (r ≡ ok client)
      × (owner client st' ≡ some c)
      × (st'.channels c
          ≡ greeted
              (record { client_id = client; keep_alive = p.keep_alive })
              registered.1
              (st.channels c))
unfolding accept_connect
accept_connect_lem c client p st cons unserved f =
    let (registered, present) =
      register_session client c (will_message p.will) p.clean_session st in
    let info : BindInfo = record { client_id = client; keep_alive = p.keep_alive } in
    let bind_to : MqttChannel → MqttChannel = with_session (λ s. (set_bind s info).0) in
    let bound = set_channel c (bind_to (registered.channels c)) registered in
    let same : registered.channels c ≡ st.channels c =
      register_session-channels client c (will_message p.will) p.clean_session st cons.0 unserved in
    let bound_same : bound.channels c ≡ bind_to (st.channels c) =
      set_channel_same c (bind_to (registered.channels c)) registered ∙ ap bind_to same in
    let alive : (bound.channels c).writer_alive ≡ true =
      ap (λ ch. ch.writer_alive) bound_same ∙ f.alive in
    let answer : MqttChannel → MqttChannel =
      λ ch. record ch { queue = ch.queue ++ (WriteCmd.packet (connack_of present) ∷ []) } in
    let end : accept_connect c client p st
        ≡ (set_channel c (answer (bound.channels c)) bound, ok client) =
      ap (λ r. answered c client (put_channel c bound r).0 (put_channel c bound r).1)
        (packet_accepted (connack_of present) (bound.channels c) alive) in
    (
      ap (λ r. r.1) end,
      ap (λ r. owner client r.0) end
          ∙ register_session-owner client client c (will_message p.will) p.clean_session st cons
          ∙ rw (str_eq_refl client) refl,
      ap (λ r. r.0.channels c) end
          ∙ set_channel_same c (answer (bound.channels c)) bound
          ∙ ap answer bound_same
          ∙ ap
              (λ s. record (st.channels c) {
                session = s;
                queue = (st.channels c).queue ++ (WriteCmd.packet (connack_of present) ∷ []);
              })
              (set_bind_lem (st.channels c).session info f.unbound)
          ∙ ap
              (λ q. record (st.channels c) {
                session = record (st.channels c).session { bind = some info };
                queue = q ++ (WriteCmd.packet (connack_of present) ∷ []);
              })
              f.no_queue,
    )
