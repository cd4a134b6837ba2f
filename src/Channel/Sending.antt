-- ===== src/Channel/Sending.antt =====
-- channel.rs: what a send does.
use hotaru_mqtt.Base.{
  ◌≡◌, ◌≢◌, ap, [], ◌∷◌, ◌++◌, true, inl, inr, arith, if◌then◌else◌, Bool-cases, ok, err, panic,
}
use hotaru_mqtt.Error.{MqttError}
use hotaru_mqtt.Packet.{Packet, PublishPacket}
use hotaru_mqtt.Channel.{MqttChannel, WriteCmd, send_packet, send_publish}

pub publish_accepted :
    (p : PublishPacket) (ch : MqttChannel)
    → ch.writer_alive ≡ true
    → send_publish p ch ≡ (record ch { queue = ch.queue ++ (WriteCmd.publish p ∷ []) }, ok tt)
unfolding send_publish
publish_accepted p ch alive =
    ap
      (λ b.
        if b
        then (record ch { queue = ch.queue ++ (WriteCmd.publish p ∷ []) }, ok tt)
        else (ch, err MqttError.channel_closed))
      alive

pub packet_accepted :
    (p : Packet) (ch : MqttChannel)
    → ch.writer_alive ≡ true
    → send_packet p ch ≡ (record ch { queue = ch.queue ++ (WriteCmd.packet p ∷ []) }, ok tt)
unfolding send_packet
packet_accepted p ch alive =
    ap
      (λ b.
        if b
        then (record ch { queue = ch.queue ++ (WriteCmd.packet p ∷ []) }, ok tt)
        else (ch, err MqttError.channel_closed))
      alive

pub send_packet_answers : (p : Packet) (ch : MqttChannel) → (send_packet p ch).1 ≢ panic
unfolding send_packet
send_packet_answers p ch = elim (Bool-cases ch.writer_alive) [
  | inl e ↦ rw (send_packet, e) (λ at. ground arith)
  | inr e ↦ rw (send_packet, e) (λ at. ground arith)
]
