-- ===== src/Protocol/Server/Relay.antt =====
-- protocol/server.rs: what a PUBLISH of qos 2 and a PUBREL do to the server, from the reader over the
-- chain worker to the queues of the subscribers.
pub mod Turns
pub mod Once
use hotaru_mqtt.Base.{
  ℕ, ◌≡◌, ◌≢◌, refl, sym, ap, ◌∙◌, List, [], ◌∷◌, ◌++◌, append-nil, append_assoc, Option, none,
  some, true, Bytes, Outcome, ok,
}
use hotaru_mqtt.Error.{MqttError}
use hotaru_mqtt.Request.Qos
use hotaru_mqtt.Request.{PacketId, IncomingPublish}
use hotaru_mqtt.Packet.{Packet, PublishPacket}
use hotaru_mqtt.Topic.Split.{split}
use hotaru_mqtt.DashMap.{IsUnique, str_key, nat_key}
use hotaru_mqtt.Session.{stash_qos2_publish, take_qos2_publish}
use hotaru_mqtt.Channel.{MqttChannel, send_packet}
use hotaru_mqtt.Channel.Sending.{packet_accepted}
use hotaru_mqtt.Context.{MqttContext}
use hotaru_mqtt.Action.{and_then, pure}
use hotaru_mqtt.Broker.{ConnectionId, set_channel, matching, publish, incoming_from_packet}
use hotaru_mqtt.Broker.Unserved.{set_channel_same, set_channel_other}
use hotaru_mqtt.Broker.Fanout.{Gains, served_in, publish_lem}
use hotaru_mqtt.Protocol.{ack_inbound_publish_pre_chain, with_session}
use hotaru_mqtt.Protocol.Client.Delivery.{exactly, sends, found_once}
use hotaru_mqtt.Protocol.Server.{
  Server, enqueue, enqueue_released, released, on_channel, on_inner, put_inner, put_channel,
  dispatch_server_inbound, run_server_chain_then_decide_fanout, worker_round, worker_drain,
}

-- The channel after a PUBLISH, and after a PUBREL.
abbrev pub stashed : PacketId → PublishPacket → MqttChannel → MqttChannel
stashed id p ch = record ch {
  session = stash_qos2_publish id (incoming_from_packet (exactly id p)) ch.session;
  queue = ch.queue ++ sends (Packet.pubrec id);
}

abbrev pub let_go : PacketId → MqttChannel → MqttChannel
let_go id ch = record ch {
  session = (take_qos2_publish id ch.session).0;
  queue = ch.queue ++ sends (Packet.pubcomp id);
}

-- What a PUBREL hands to the chain worker.
abbrev pub handed : PacketId → Option IncomingPublish → List PublishPacket
handed id none = []
handed id (some stored) = released id stored ∷ []

-- The channel after the four packets, and what the worker has got.
abbrev pub exchanged : PacketId → PublishPacket → PublishPacket → MqttChannel → MqttChannel
exchanged id p again ch = let_go id (let_go id (stashed id again (stashed id p ch)))

abbrev pub received : PacketId → PublishPacket → PublishPacket
received id again = released id (incoming_from_packet (exactly id again))

module _ (c : ConnectionId) where
  abbrev pub channel_of : Server → MqttChannel
  channel_of sv = sv.inner.channels c

  abbrev pub put_own : MqttChannel → Server → Server
  put_own ch sv = record sv { inner = set_channel c ch sv.inner }

  -- What a turn does to the server: `f` to its own channel, and `new` more for the chain worker.
  pub record Effect (f : MqttChannel → MqttChannel) (new : List PublishPacket) (sv sv' : Server)
      : Type 0 where
    pub work : sv'.work ≡ sv.work ++ new
    pub own : channel_of sv' ≡ f (channel_of sv)
    pub others : (d : ConnectionId) → c ≢ d → sv'.inner.channels d ≡ sv.inner.channels d
    pub sessions : sv'.inner.sessions ≡ sv.inner.sessions
    pub subscriptions : sv'.inner.subscriptions ≡ sv.inner.subscriptions
    pub worker : sv'.worker_alive ≡ sv.worker_alive

  pub put_own-Effect :
      (f : MqttChannel → MqttChannel) (sv : Server)
      → Effect f [] sv (put_own (f (channel_of sv)) sv)
  put_own-Effect f sv = record {
    work = sym (append-nil sv.work);
    own = set_channel_same c (f (channel_of sv)) sv.inner;
    others = λ d h. set_channel_other c d (f (channel_of sv)) sv.inner h;
    sessions = refl;
    subscriptions = refl;
    worker = refl;
  }

  pub Effect-trans :
      (f g : MqttChannel → MqttChannel) (a b : List PublishPacket) (sv sv' sv'' : Server)
      → Effect f a sv sv'
      → Effect g b sv' sv''
      → Effect (λ ch. g (f ch)) (a ++ b) sv sv''
  Effect-trans f g a b sv sv' sv'' p q = record {
    work = q.work ∙ ap (λ w. w ++ b) p.work ∙ append_assoc sv.work a b;
    own = q.own ∙ ap g p.own;
    others = λ d h. q.others d h ∙ p.others d h;
    sessions = q.sessions ∙ p.sessions;
    subscriptions = q.subscriptions ∙ p.subscriptions;
    worker = q.worker ∙ p.worker;
  }
