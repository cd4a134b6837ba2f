-- ===== src/Protocol/Send/Race.antt =====
-- protocol/send.rs with the dispatch of client.rs: a PUBCOMP that comes before it is waited for.
use hotaru_mqtt.Base.{
  ◌≡◌, ◌≢◌, refl, ap, ◌∙◌, List, ◌∷◌, true, none, some, arith, ==_iff, ==_refl, Bytes, ok, err,
}
use hotaru_mqtt.Error.{MqttError, TimeoutKind}
use hotaru_mqtt.Request.{PacketId}
use hotaru_mqtt.Packet.{Packet}
use hotaru_mqtt.DashMap.{get, IsUnique, nat_key}
use hotaru_mqtt.DashMap.Laws.{get-remove}
use hotaru_mqtt.Session.{
  AckKind, AckSlot, Waiter, Resolution, MqttSession, wake_ack_waiter, clear_outbound_inflight,
  without_slot, resolve, park_publish_ack_waiter, park, insert_slot,
}
use hotaru_mqtt.Channel.{MqttChannel}
use hotaru_mqtt.Client.{MqttClientConfig}
use hotaru_mqtt.Protocol.Client.{Client, dispatch_client_inbound}
use hotaru_mqtt.Protocol.Send.{pubrec, pubcomp, awaiting, resume}
use hotaru_mqtt.Protocol.Send.Steps.{wake_parked, resume_received, pubrec_dispatched}
use hotaru_mqtt.Protocol.Send.Failure.{elapsed_lem}

-- An ack of an id that nobody waits for.
wake_absent :
    (id : PacketId) (kind : AckKind) (s : MqttSession)
    → get id s.pending_acks ≡ none
    → wake_ack_waiter id kind s ≡ s
unfolding wake_ack_waiter
wake_absent id kind s h = ground arith

-- The session after the PUBREC and the PUBCOMP of an id.
both_woken :
    (id : PacketId) (w : Waiter) (s : MqttSession)
    → IsUnique s.pending_acks
    → get id s.pending_acks ≡ some (AckSlot.pubrec w)
    → wake_ack_waiter id AckKind.pubcomp (wake_ack_waiter id AckKind.pubrec s)
      ≡ resolve (without_slot id s) w (Resolution.acked id)
both_woken id w s u h = rw (wake_parked id AckKind.pubrec w s h) (
    wake_absent id AckKind.pubcomp (resolve (without_slot id s) w (Resolution.acked id))
      (get-remove id id s.pending_acks u ∙ rw (==_refl id) refl))

get-hit :
    (w : Waiter) (r : Resolution) (m : List (Waiter × Resolution)) → get w ((w, r) ∷ m) ≡ some r
unfolding get
get-hit w r m = rw (==_refl w) refl

get-miss :
    (w v : Waiter) (r : Resolution) (m : List (Waiter × Resolution))
    → w ≢ v
    → get v ((w, r) ∷ m) ≡ get v m
unfolding get
get-miss w v r m h = ground (arith, ==_iff w v)

-- A waiter that is parked where none is, and gets nothing.
unresolved :
    (id : PacketId) (s : MqttSession)
    → get id s.pending_acks ≡ none
    → get s.next_waiter s.resolved ≡ none
    → get s.next_waiter (park_publish_ack_waiter id AckKind.pubcomp s).0.resolved ≡ none
unfolding park_publish_ack_waiter park insert_slot
unresolved id s free fresh = rw (park_publish_ack_waiter, park, insert_slot, free) fresh

-- An operation whose PUBREC has come, and whose PUBCOMP does not.
resumed_twice :
    (id : PacketId) (w : Waiter) (ch : MqttChannel)
    → get w ch.session.resolved ≡ some (Resolution.acked id)
    → get id ch.session.pending_acks ≡ none
    → get ch.session.next_waiter ch.session.resolved ≡ none
    → ((resume (pubrec id w) ch).1 ≡ ok (awaiting (pubcomp id ch.session.next_waiter)))
      × ((resume (pubcomp id ch.session.next_waiter) (resume (pubrec id w) ch).0).1
          ≡ err (MqttError.timeout TimeoutKind.ack))
resumed_twice id w ch h free fresh = (
  ap (λ r. r.1) (resume_received ch id id w h),
  ap (λ r. (resume (pubcomp id ch.session.next_waiter) r.0).1) (resume_received ch id id w h)
      ∙ ap (λ r. r.1)
          (elapsed_lem (pubcomp id ch.session.next_waiter) _ (unresolved id ch.session free fresh)),
)

module _ {Node H : Type 0} (walk : Bytes → List Node) (config : MqttClientConfig H) where
  -- Over a live writer, when PUBREC and PUBCOMP of an id are both dispatched before the operation
  -- that waits for PUBREC is resumed, the operation goes on to wait for PUBCOMP, and with no
  -- further ack it fails with a timeout.
  pub early_pubcomp_is_lost :
      (id : PacketId) (w : Waiter) (cl : Client Node H)
      → IsUnique cl.channel.session.pending_acks
      → cl.channel.writer_alive ≡ true
      → get id cl.channel.session.pending_acks ≡ some (AckSlot.pubrec w)
      → w ≢ cl.channel.session.next_waiter
      → get cl.channel.session.next_waiter cl.channel.session.resolved ≡ none
      → ((resume
            (pubrec id w)
            (dispatch_client_inbound walk config
              (Packet.pubcomp id)
              (dispatch_client_inbound walk config (Packet.pubrec id) cl).0).0.channel).1
          ≡ ok (awaiting (pubcomp id cl.channel.session.next_waiter)))
        × ((resume
              (pubcomp id cl.channel.session.next_waiter)
              (resume
                (pubrec id w)
                (dispatch_client_inbound walk config
                  (Packet.pubcomp id)
                  (dispatch_client_inbound walk config (Packet.pubrec id) cl).0).0.channel).0).1
            ≡ err (MqttError.timeout TimeoutKind.ack))
  unfolding dispatch_client_inbound clear_outbound_inflight
  early_pubcomp_is_lost id w cl u alive parked apart fresh =
      rw (pubrec_dispatched walk config id cl alive, both_woken id w cl.channel.session u parked)
        (resumed_twice id w _ (get-hit w (Resolution.acked id) cl.channel.session.resolved)
          (get-remove id id cl.channel.session.pending_acks u ∙ rw (==_refl id) refl)
          (get-miss w cl.channel.session.next_waiter (Resolution.acked id)
              cl.channel.session.resolved apart
            ∙ fresh))
