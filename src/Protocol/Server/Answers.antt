-- ===== src/Protocol/Server/Answers.antt =====
-- protocol/server.rs: the admission of a connection always comes to an answer, and no packet makes
-- a turn of its loop panic.
use hotaru_mqtt.Base.{
  ℕ, ◌≢◌, refl, Bool, true, false, Option, none, some, inl, inr, arith, Bool-cases, if◌then◌else◌,
  Bytes, Outcome, ok, err, panic,
}
use hotaru_mqtt.Error.{MqttError}
use hotaru_mqtt.Request.{PacketId, IncomingPublish}
use hotaru_mqtt.Request.Qos
use hotaru_mqtt.Request.Qos.{Qos, at_most_once, at_least_once, exactly_once}
use hotaru_mqtt.Packet.{Packet, PublishPacket, ConnectPacket}
use hotaru_mqtt.Packet.ConnackReturnCode.{ConnackReturnCode}
use hotaru_mqtt.Safety.{MqttSafety}
use hotaru_mqtt.Channel.{MqttChannel}
use hotaru_mqtt.Action.{Action, and_then, pure}
use hotaru_mqtt.Broker.{Authenticator, ConnectionId, BrokerInner}
use hotaru_mqtt.Protocol.{ack_by_qos, ack_inbound_publish_pre_chain}
use hotaru_mqtt.Protocol.Server.{
  Server, Selected, ReadOutcome, panicked, admit, keep_alive_refused, client_id_of, refuse,
  answered, accept_connect, enqueue, enqueue_released, released, dispatch_server_inbound,
  after_dispatch, select_arm, server_turn,
}
use hotaru_mqtt.Channel.Sending.{send_packet_answers}

refuse_answers :
    (c : ConnectionId) (code : ConnackReturnCode) (st : BrokerInner) → (refuse c code st).1 ≢ panic
unfolding refuse
refuse_answers c code st = λ at. ground arith

answered_answers :
    (c : ConnectionId) (client : Bytes) (st : BrokerInner) (sent : Outcome MqttError (Unit {0}))
    → sent ≢ panic
    → (answered c client st sent).1 ≢ panic
answered_answers c client st (ok u) h = λ at. ground arith
answered_answers c client st (err e) h = λ at. ground arith
answered_answers c client st panic h = absurd (h refl)

accept_connect_answers :
    (c : ConnectionId) (client : Bytes) (p : ConnectPacket) (st : BrokerInner)
    → (accept_connect c client p st).1 ≢ panic
unfolding accept_connect
accept_connect_answers c client p st = answered_answers c client _ _ (send_packet_answers _ _)

pub admit_answers :
    {Addr : Type 0} (authenticator : Authenticator Addr) (safety : MqttSafety) (addr : Option Addr)
    (c : ConnectionId) (p : ConnectPacket) (st : BrokerInner)
    → (admit authenticator safety addr c p st).1 ≢ panic
unfolding admit
admit_answers authenticator safety addr c p st =
    elim (Bool-cases (keep_alive_refused safety p.keep_alive)) [
      | inl e ↦ rw (admit, e) (refuse_answers c ConnackReturnCode.server_unavailable st)
      | inr e ↦ elim (Bool-cases (authenticator p addr).accepted) [
        | inl f ↦ rw (admit, e, f) (accept_connect_answers c (client_id_of c p) p st)
        | inr f ↦ rw (admit, e, f) (refuse_answers c (authenticator p addr).return_code st)
      ]
    ]

-- A step and what follows it.
pub and_then_answers :
    {S A B : Type 0} (r : S × Outcome MqttError A) (f : A → Action S B)
    → r.1 ≢ panic
    → ((a : A) (s : S) → (f a s).1 ≢ panic)
    → (and_then r f).1 ≢ panic
and_then_answers (s, ok a) f h k = k a s
and_then_answers (s, err e) f h k = λ at. ground arith
and_then_answers (s, panic) f h k = absurd (h refl)

pub ack_answers :
    (p : PublishPacket) (q : Qos) (id : Option ℕ) (ch : MqttChannel)
    → (ack_by_qos q (record p { packet_id = id }) ch).1 ≢ panic
ack_answers p at_most_once id ch = λ at. ground arith
ack_answers p at_least_once none ch = λ at. ground arith
ack_answers p at_least_once (some id) ch = send_packet_answers _ _
ack_answers p exactly_once none ch = λ at. ground arith
ack_answers p exactly_once (some id) ch = send_packet_answers _ _

enqueue_answers : (p : PublishPacket) (sv : Server) → (enqueue p sv).1 ≢ panic
unfolding enqueue
enqueue_answers p sv = elim (Bool-cases sv.worker_alive) [
  | inl e ↦ rw (enqueue, e) (λ at. ground arith)
  | inr e ↦ rw (enqueue, e) (λ at. ground arith)
]

enqueue_unless_answers :
    (stored : Bool) (p : PublishPacket) (sv : Server)
    → ((if stored then pure tt else enqueue p) sv).1 ≢ panic
enqueue_unless_answers true p sv = λ at. ground arith
enqueue_unless_answers false p sv = enqueue_answers p sv

enqueue_released_answers :
    (id : PacketId) (stored : Option IncomingPublish) (sv : Server)
    → (enqueue_released id stored sv).1 ≢ panic
enqueue_released_answers id none sv = λ at. ground arith
enqueue_released_answers id (some inc) sv = enqueue_answers (released id inc) sv

-- No packet makes the dispatch panic.
pub dispatch_answers :
    (client : Bytes) (c : ConnectionId) (p : Packet) (sv : Server)
    → (dispatch_server_inbound client c p sv).1 ≢ panic
unfolding dispatch_server_inbound ack_inbound_publish_pre_chain
dispatch_answers client c (Packet.publish p) sv =
    and_then_answers _ _ (ack_answers p p.qos p.packet_id (sv.inner.channels c))
      λ u s. enqueue_unless_answers (Qos.eq p.qos exactly_once) p s
dispatch_answers client c (Packet.subscribe s) sv = send_packet_answers _ _
dispatch_answers client c (Packet.unsubscribe u) sv = send_packet_answers _ _
dispatch_answers client c Packet.pingreq sv = send_packet_answers _ _
dispatch_answers client c (Packet.puback id) sv = λ at. ground arith
dispatch_answers client c (Packet.pubrec id) sv = send_packet_answers _ _
dispatch_answers client c (Packet.pubcomp id) sv = λ at. ground arith
dispatch_answers client c (Packet.pubrel id) sv =
    and_then_answers _ _ (enqueue_released_answers id _ _) λ u s. send_packet_answers _ _
dispatch_answers client c (Packet.connect p) sv = λ at. ground arith
dispatch_answers client c (Packet.connack a) sv = λ at. ground arith
dispatch_answers client c (Packet.suback s) sv = λ at. ground arith
dispatch_answers client c (Packet.unsuback id) sv = λ at. ground arith
dispatch_answers client c Packet.pingresp sv = λ at. ground arith
dispatch_answers client c Packet.disconnect sv = λ at. ground arith

after_dispatch_answers :
    (r : Server × Outcome MqttError (Unit {0})) → r.1 ≢ panic → (after_dispatch r).1 ≢ panicked
after_dispatch_answers (sv, ok u) h = λ at. ground arith
after_dispatch_answers (sv, err e) h = λ at. ground arith
after_dispatch_answers (sv, panic) h = absurd (h refl)

select_arm_answers :
    (client : Bytes) (c : ConnectionId) (selected : Selected) (sv : Server)
    → selected ≢ Selected.read ReadOutcome.unwound
    → (select_arm client c selected sv).1 ≢ panicked
select_arm_answers client c Selected.shutdown_notified sv h = λ at. ground arith
select_arm_answers client c (Selected.read ReadOutcome.deadline_elapsed) sv h = λ at. ground arith
select_arm_answers client c (Selected.read ReadOutcome.unwound) sv h = absurd (h refl)
select_arm_answers client c (Selected.read (ReadOutcome.failed MqttError.io)) sv h =
    λ at. ground arith
select_arm_answers client c (Selected.read (ReadOutcome.failed _)) sv h = λ at. ground arith
select_arm_answers client c (Selected.read (ReadOutcome.packet Packet.disconnect)) sv h =
    λ at. ground arith
select_arm_answers client c (Selected.read (ReadOutcome.packet p)) sv h =
    after_dispatch_answers (dispatch_server_inbound client c p sv) (dispatch_answers client c p sv)

-- A turn panics only if its read did.
pub server_turn_answers :
    (client : Bytes) (c : ConnectionId) (selected : Selected) (sv : Server)
    → selected ≢ Selected.read ReadOutcome.unwound
    → (server_turn client c selected sv).1 ≢ panicked
unfolding server_turn
server_turn_answers client c selected sv h = elim (Bool-cases (sv.inner.channels c).is_open) [
  | inl e ↦ rw (server_turn, e) (select_arm_answers client c selected sv h)
  | inr e ↦ rw (server_turn, e) (λ at. ground arith)
]
