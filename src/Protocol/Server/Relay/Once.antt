-- ===== src/Protocol/Server/Relay/Once.antt =====
-- protocol/server.rs: a PUBLISH of qos 2 goes on once, however often it and its PUBREL are sent.
use hotaru_mqtt.Base.{ℕ, ◌≡◌, ◌≢◌, ap, ◌∙◌, List, [], ◌∷◌, ◌++◌, none, some, true, Bytes, ◌⊎◌}
use hotaru_mqtt.Error.{MqttError}
use hotaru_mqtt.Request.{PacketId}
use hotaru_mqtt.Packet.{Packet, PublishPacket}
use hotaru_mqtt.Topic.Split.{split}
use hotaru_mqtt.DashMap.{IsUnique, str_key, nat_key}
use hotaru_mqtt.Session.{take_qos2_publish}
use hotaru_mqtt.Channel.{MqttChannel}
use hotaru_mqtt.Context.{MqttContext}
use hotaru_mqtt.Broker.{ConnectionId, matching, publish, incoming_from_packet}
use hotaru_mqtt.Broker.Fanout.{Gains, served_in, publish_lem}
use hotaru_mqtt.Protocol.Client.Delivery.{exactly, sends, found_once}
use hotaru_mqtt.Protocol.Server.{
  Server, dispatch_server_inbound, run_server_chain_then_decide_fanout, worker_round, worker_drain,
}
use hotaru_mqtt.Protocol.Server.Relay.{
  stashed, let_go, handed, exchanged, received, channel_of, Effect, Effect-trans,
}
use hotaru_mqtt.Protocol.Server.Relay.Turns.{publish-Effect, pubrel-Effect}

Gains-same :
    (p : PublishPacket) (m n : ℕ) (a b after : MqttChannel)
    → m ≡ n
    → a ≡ b
    → Gains p m a after
    → Gains p n b after
Gains-same p m n a b after e f g = (rw (e, f) at g)

module _ (client : Bytes) (c : ConnectionId) where
  four_turns :
      (id : PacketId) (p again : PublishPacket) (sv one two three four : Server)
      → IsUnique (channel_of c sv).session.qos2_recv
      → Effect c (stashed id p) [] sv one
      → Effect c (stashed id again) [] one two
      → Effect c
          (let_go id)
          (handed id (take_qos2_publish id (channel_of c two).session).1)
          two
          three
      → Effect c
          (let_go id)
          (handed id (take_qos2_publish id (channel_of c three).session).1)
          three
          four
      → Effect c (exchanged id p again) (received id again ∷ []) sv four
  four_turns id p again sv one two three four u e1 e2 e3 e4 =
      let (first, second) =
        found_once id (incoming_from_packet (exactly id p))
          (incoming_from_packet (exactly id again)) (channel_of c sv).session u in
      let e12 = Effect-trans c (stashed id p) (stashed id again) [] [] sv one two e1 e2 in
      let e34 = Effect-trans c (let_go id) (let_go id) _ _ two three four e3 e4 in
      let found : (take_qos2_publish id (channel_of c two).session).1
          ≡ some (incoming_from_packet (exactly id again)) =
        ap (λ ch. (take_qos2_publish id ch.session).1) e12.own ∙ first in
      let gone : (take_qos2_publish id (channel_of c three).session).1 ≡ none =
        ap (λ ch. (take_qos2_publish id ch.session).1) (e3.own ∙ ap (let_go id) e12.own) ∙ second in
      (rw (found, gone) at
        (Effect-trans c (λ ch. stashed id again (stashed id p ch)) (λ ch. let_go id (let_go id ch))
          [] _ sv two four e12 e34))

  module _ {Node : Type 0} (walk : Bytes → List Node)
      (run_node : Node → MqttContext Node → MqttError ⊎ MqttContext Node) where
    drained-Gains :
        (f : MqttChannel → MqttChannel) (r out : PublishPacket) (d : ConnectionId) (sv sv' : Server)
        → Effect c f (r ∷ []) sv sv'
        → sv.work ≡ []
        → c ≢ d
        → (sv.inner.channels d).writer_alive ≡ true
        → run_server_chain_then_decide_fanout walk run_node c r ≡ some out
        → Gains out
            (served_in client
              (matching (split out.topic) sv.inner.subscriptions)
              d
              sv.inner.sessions)
            (sv.inner.channels d)
            ((worker_drain walk run_node c client sv'.work sv'.inner).channels d)
    unfolding worker_drain worker_round
    drained-Gains f r out d sv sv' e empty apart alive decided =
        let same = e.others d apart in
        let g = publish_lem client out sv'.inner d (ap (λ ch. ch.writer_alive) same ∙ alive) in
        let w : sv'.work ≡ r ∷ [] = e.work ∙ ap (λ x. x ++ (r ∷ [])) empty in
        let subs = matching (split out.topic) in
        let count =
          ap (λ x. served_in client (subs x) d sv'.inner.sessions) e.subscriptions
          ∙ ap (λ x. served_in client (subs sv.inner.subscriptions) d x) e.sessions in
        rw (w, decided)
          (Gains-same out _ _ (sv'.inner.channels d) (sv.inner.channels d)
            ((publish client out sv'.inner).channels d) count same g)

    -- Over a live writer, with a live chain worker that has nothing queued and a table with one
    -- entry for an id, a PUBLISH of qos 2 and a second one under the same id hand nothing to the
    -- chain worker; the first PUBREL hands it the second one, once, and a further PUBREL hands it
    -- nothing; each of the four packets is answered, in order. When the endpoints let the
    -- released packet go on as some packet, running the worker adds to the queue of any other
    -- connection whose writer is alive one copy of that for each matching subscription that is
    -- served over it, and nothing else.
    pub relayed_once :
        (id : PacketId) (p again out : PublishPacket) (d : ConnectionId) (sv : Server)
        → IsUnique (sv.inner.channels c).session.qos2_recv
        → (sv.inner.channels c).writer_alive ≡ true
        → sv.worker_alive ≡ true
        → sv.work ≡ []
        → c ≢ d
        → (sv.inner.channels d).writer_alive ≡ true
        → run_server_chain_then_decide_fanout walk run_node c (received id again) ≡ some out
        → let one = (dispatch_server_inbound client c (Packet.publish (exactly id p)) sv).0 in
          let two = (dispatch_server_inbound client c (Packet.publish (exactly id again)) one).0 in
          let three = (dispatch_server_inbound client c (Packet.pubrel id) two).0 in
          let four = (dispatch_server_inbound client c (Packet.pubrel id) three).0 in
          (two.work ≡ [])
          × (four.work ≡ received id again ∷ [])
          × ((four.inner.channels c).queue
              ≡ ((((sv.inner.channels c).queue ++ sends (Packet.pubrec id))
                    ++ sends (Packet.pubrec id))
                  ++ sends (Packet.pubcomp id))
                ++ sends (Packet.pubcomp id))
          × Gains out
              (served_in client
                (matching (split out.topic) sv.inner.subscriptions)
                d
                sv.inner.sessions)
              (sv.inner.channels d)
              ((worker_drain walk run_node c client four.work four.inner).channels d)
    relayed_once id p again out d sv u alive worker empty apart alive' decided =
        let one = (dispatch_server_inbound client c (Packet.publish (exactly id p)) sv).0 in
        let two = (dispatch_server_inbound client c (Packet.publish (exactly id again)) one).0 in
        let three = (dispatch_server_inbound client c (Packet.pubrel id) two).0 in
        let four = (dispatch_server_inbound client c (Packet.pubrel id) three).0 in
        let e1 = publish-Effect client c id p sv alive in
        let alive1 = ap (λ ch. ch.writer_alive) e1.own ∙ alive in
        let e2 = publish-Effect client c id again one alive1 in
        let alive2 = ap (λ ch. ch.writer_alive) e2.own ∙ alive1 in
        let worker2 = e2.worker ∙ e1.worker ∙ worker in
        let e3 = pubrel-Effect client c id two alive2 worker2 in
        let alive3 = ap (λ ch. ch.writer_alive) e3.own ∙ alive2 in
        let e4 = pubrel-Effect client c id three alive3 (e3.worker ∙ worker2) in
        let e = four_turns id p again sv one two three four u e1 e2 e3 e4 in
        (
          e2.work ∙ ap (λ w. w ++ []) (e1.work ∙ ap (λ w. w ++ []) empty),
          e.work ∙ ap (λ w. w ++ (received id again ∷ [])) empty,
          ap (λ ch. ch.queue) e.own,
          drained-Gains (exchanged id p again) (received id again) out d sv four e empty apart
              alive' decided,
        )
