-- ===== src/Protocol/Handshake/Agreement.antt =====
-- protocol/client.rs and protocol/server.rs: what the two ends of a handshake come to.
use hotaru_mqtt.Base.{
  ℕ, ◌≡◌, ◌≤◌, refl, ap, ◌∙◌, [], Bool, true, false, not, ◌&&◌, Option, some, arith, Bytes,
  is_empty, ok,
}
use hotaru_mqtt.Safety.{MqttSafety, max_packet_size}
use hotaru_mqtt.Channel.{MqttChannel, writer_step}
use hotaru_mqtt.Codec.WellFormed.{body_of}
use hotaru_mqtt.Codec.Frame.{read_packet}
use hotaru_mqtt.DashMap.{get, str_key}
use hotaru_mqtt.Request.{WillMessage}
use hotaru_mqtt.Client.{MqttClientConfig}
use hotaru_mqtt.Action.{finished}
use hotaru_mqtt.Broker.{Authenticator, BrokerInner, ConnectionId, is_some, register_session}
use hotaru_mqtt.Broker.Invariant.{IsConsistent}
use hotaru_mqtt.Broker.Unserved.{IsUnserved}
use hotaru_mqtt.Protocol.System.Owner.{owner}
use hotaru_mqtt.Protocol.Client.{build_connect, send_connect, connected}
use hotaru_mqtt.Protocol.Server.{
  admit, accept_connect, keep_alive_refused, client_id_of, will_message,
}
use hotaru_mqtt.Channel.Wire.{IsCarried, one_written}
use hotaru_mqtt.Protocol.Handshake.{
  IsFresh, info_of, connect_of, sent_lem, connected_lem, connack_of, greeted, accept_connect_lem,
}

-- The flag of the CONNACK: the client had a session and asks for no clean one.
session_present :
    (client : Bytes) (c : ConnectionId) (will : Option WillMessage) (clean : Bool)
    (st : BrokerInner)
    → (register_session client c will clean st).1 ≡ (not clean && is_some (get client st.sessions))
unfolding register_session
session_present client c will true st = refl
session_present client c will false st = refl

module _ (valid_utf8 : Bytes → Bool) {Addr H : Type 0} (authenticator : Authenticator Addr)
    (safety : MqttSafety) (addr : Option Addr) (config : MqttClientConfig H)
    (c : ConnectionId) where
  -- A CONNECT that the server's policy lets in.
  pub record IsWelcome : Type 0 where
    pub carried : IsCarried valid_utf8 (max_packet_size safety) (connect_of config)
    pub in_policy : keep_alive_refused safety config.keep_alive_secs ≡ false
    pub known : (authenticator (build_connect config) addr).accepted ≡ true
    pub named : is_empty config.client_id ≡ false

  admit_welcome :
      (st : BrokerInner)
      → IsWelcome
      → admit authenticator safety addr c (build_connect config) st
        ≡ accept_connect c config.client_id (build_connect config) st
  unfolding admit build_connect
  admit_welcome st w = rw (admit, w.in_policy, w.known, client_id_of, w.named) refl

  -- The CONNACK is two bytes.
  connack-IsCarried :
      (present : Bool) (max_size : ℕ)
      → 2 ≤ max_size
      → IsCarried valid_utf8 max_size (connack_of present)
  unfolding body_of
  connack-IsCarried present max_size h = (tt, h, omega arith)

  -- For a configuration with a client id and a CONNECT that the wire format, the server's cap and
  -- the limit of the specification can carry, when the keep-alive is in the server's policy and
  -- its authenticator accepts, over a fresh channel at either end, on consistent tables in which
  -- no session is served over the server's connection, with a cap of at least two bytes at the
  -- client: after one round of the client's writer the server reads the CONNECT of the
  -- configuration; it is admitted under its client id, with a session for this connection; after
  -- one round of the server's writer the client reads a CONNACK that accepts, and says that a
  -- session is present exactly if the client had one in the table and asks for no clean one; the
  -- client goes on to its loop, and both sessions are bound to the same client id and keep-alive.
  pub handshake_agrees :
      (ch : MqttChannel) (st : BrokerInner)
      → IsWelcome
      → IsFresh ch
      → IsFresh (st.channels c)
      → IsConsistent st
      → IsUnserved c st
      → 2 ≤ max_packet_size config.safety
      → let asked = writer_step (send_connect config ch).0 in
        let (st', r) = admit authenticator safety addr c (build_connect config) st in
        let answered = writer_step (st'.channels c) in
        let present = not config.clean_session && is_some (get config.client_id st.sessions) in
        let done = connected config (finished (ok (connack_of present))) asked in
        (read_packet valid_utf8 asked.wire (max_packet_size safety) ≡ ok (connect_of config, []))
        × (r ≡ ok config.client_id)
        × (owner config.client_id st' ≡ some c)
        × (read_packet valid_utf8 answered.wire (max_packet_size config.safety)
            ≡ ok (connack_of present, []))
        × (done.1 ≡ ok tt)
        × (done.0.session.bind ≡ some (info_of config))
        × (answered.session.bind ≡ some (info_of config))
  unfolding build_connect
  handshake_agrees ch st w f g cons unserved two =
      let sent = (send_connect config ch).0 in
      let sent_eq = sent_lem config ch f in
      let (bytes, written, read) =
        one_written valid_utf8 (max_packet_size safety) (connect_of config) sent w.carried
          (ap (λ x. x.wire) sent_eq ∙ f.no_wire) (ap (λ x. x.queue) sent_eq) in
      let asked = writer_step sent in
      let asked_eq : asked ≡ record ch { queue = []; wire = bytes } =
        written ∙ ap (λ (x : MqttChannel). record x { queue = []; wire = bytes }) sent_eq in
      let entered = admit_welcome st w in
      let (r, own, greeting) =
        accept_connect_lem c config.client_id (build_connect config) st cons unserved g in
      let st' = (admit authenticator safety addr c (build_connect config) st).0 in
      let present = not config.clean_session && is_some (get config.client_id st.sessions) in
      let greeting' : st'.channels c ≡ greeted (info_of config) present (st.channels c) =
        ap (λ x. x.0.channels c) entered
        ∙ greeting
        ∙ ap (λ (b : Bool). greeted (info_of config) b (st.channels c))
            (session_present config.client_id c (will_message (build_connect config).will)
              config.clean_session st) in
      let (bytes', written', read') =
        one_written valid_utf8 (max_packet_size config.safety) (connack_of present) (st'.channels c)
          (connack-IsCarried present (max_packet_size config.safety) two)
          (ap (λ x. x.wire) greeting' ∙ g.no_wire) (ap (λ x. x.queue) greeting') in
      let (ended, bound) =
        connected_lem config present asked (ap (λ x. x.writer_alive) asked_eq ∙ f.alive)
          (ap (λ x. x.session.bind) asked_eq ∙ f.unbound) in
      (
        ap (λ x. read_packet valid_utf8 x.wire (max_packet_size safety)) asked_eq ∙ read,
        ap (λ x. x.1) entered ∙ r,
        ap (λ x. owner config.client_id x.0) entered ∙ own,
        ap (λ x. read_packet valid_utf8 x.wire (max_packet_size config.safety)) written' ∙ read',
        ended,
        bound,
        ap (λ x. x.session.bind)
            (written' ∙ ap (λ (x : MqttChannel). record x { queue = []; wire = bytes' }) greeting'),
      )
