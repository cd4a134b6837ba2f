-- ===== src/Protocol/Client/Interrupt.antt =====
-- protocol/client.rs: the ping timer, when it fires while a packet is being read.
use hotaru_mqtt.Base.{
  ℕ, suc, ◌≡◌, refl, ap, ◌∙◌, List, [], ◌∷◌, ◌++◌, drop, Bool, true, false, Option, some,
  if◌then◌else◌, Bytes, err, le→ltb, length, arith,
}
use hotaru_mqtt.Error.{MqttError, CodecError}
use hotaru_mqtt.Request.{PacketId}
use hotaru_mqtt.Packet.{Packet}
use hotaru_mqtt.Packet.PacketType.{try_from}
use hotaru_mqtt.Safety.{max_packet_size}
use hotaru_mqtt.Codec.Varint.{read_exact}
use hotaru_mqtt.Codec.Primitives.{index}
use hotaru_mqtt.Codec.Frame.{read_packet, ack_bytes}
use hotaru_mqtt.Channel.{MqttChannel, WriteCmd}
use hotaru_mqtt.Channel.Sending.{packet_accepted}
use hotaru_mqtt.Client.{MqttClientConfig}
use hotaru_mqtt.Protocol.Client.{
  Client, Selected, Turn, continue, break, return, panicked, client_turn, select_arm, after_ping,
  put,
}
use hotaru_mqtt.Protocol.Client.Run.{select, serve}

-- What is read of a PUBACK behind its first byte.
cut_off :
    (valid_utf8 : Bytes → Bool) (id : PacketId) (rest : Bytes) (max_size : ℕ)
    → read_packet valid_utf8 (drop 1 (ack_bytes 0x40 id ++ rest)) max_size
      ≡ err (MqttError.codec (CodecError.invalid_packet_type 0))
unfolding read_packet read_exact index try_from
cut_off valid_utf8 id rest max_size =
    rw (le→ltb (length (drop 1 (ack_bytes 0x40 id ++ rest))) 1 (omega arith)) refl

module _ {Node H : Type 0} (walk : Bytes → List Node) (config : MqttClientConfig H) where
  -- The client after a PINGREQ.
  abbrev pub pinged : Client Node H → Client Node H
  pinged cl = record cl {
    channel = record cl.channel {
      queue = cl.channel.queue ++ (WriteCmd.packet Packet.pingreq ∷ []);
    };
  }

  open_turn :
      (selected : Selected) (cl : Client Node H)
      → cl.channel.is_open ≡ true
      → client_turn walk config selected cl ≡ select_arm walk config selected cl
  unfolding client_turn
  open_turn selected cl opened =
      ap (λ b. if b then select_arm walk config selected cl else (cl, break)) opened

  ping_turn :
      (cl : Client Node H)
      → cl.channel.is_open ≡ true
      → cl.channel.writer_alive ≡ true
      → client_turn walk config Selected.ping_due cl ≡ (pinged cl, continue)
  ping_turn cl opened alive =
      open_turn Selected.ping_due cl opened
      ∙ ap (λ r. after_ping walk config (put {Node = Node} {H = H} cl r))
          (packet_accepted Packet.pingreq cl.channel alive)

  module _ (valid_utf8 : Bytes → Bool) (late : Bool) (shutdown : Bytes → Bool)
      (tick : ℕ → Bytes → Option ℕ) (others : Bytes → MqttChannel → MqttChannel) where
    abbrev now : Bytes → Client Node H → Client Node H
    now wire cl = record cl { channel = others wire cl.channel }

    ping_selected :
        (ticks taken : ℕ) (wire : Bytes)
        → shutdown wire ≡ false
        → tick ticks wire ≡ some taken
        → select walk config valid_utf8 late shutdown tick others (suc ticks) wire
          ≡ (Selected.ping_due, ticks, drop taken wire)
    unfolding select
    ping_selected ticks taken wire on due = rw (select, on, due) refl

    failure_selected :
        (wire : Bytes) (e : MqttError)
        → shutdown wire ≡ false
        → read_packet valid_utf8 wire (max_packet_size config.safety) ≡ err e
        → select walk config valid_utf8 late shutdown tick others 0 wire
          ≡ (Selected.read (err e), 0, [])
    unfolding select
    failure_selected wire e on h = rw (select, on, h) refl

    -- The loop after a turn.
    abbrev after_turn : ℕ → ℕ → Bytes → Client Node H × Turn → Option (Client Node H × Turn)
    after_turn fuel left rest r = elim r.1 [
      | continue ↦ serve walk config valid_utf8 late shutdown tick others fuel left rest r.0
      | break ↦ some (r.0, break)
      | return e ↦ some (r.0, return e)
      | panicked ↦ some (r.0, panicked)
    ]

    turned :
        (fuel ticks left : ℕ) (wire rest : Bytes) (selected : Selected) (cl : Client Node H)
        (r : Client Node H × Turn)
        → select walk config valid_utf8 late shutdown tick others ticks wire
          ≡ (selected, left, rest)
        → client_turn walk config selected (now wire cl) ≡ r
        → serve walk config valid_utf8 late shutdown tick others (suc fuel) ticks wire cl
          ≡ after_turn fuel left rest r
    unfolding serve
    turned fuel ticks left wire rest selected cl r e f =
        ap (λ x. after_turn fuel x.1 x.2 (client_turn walk config x.0 (now wire cl))) e
        ∙ ap (after_turn fuel left rest) f

    -- When the ping timer of a client fires while the first byte of a PUBACK has been read, over
    -- an open channel with a live writer and with no shutdown, a PINGREQ is sent and the next
    -- read begins at the second byte: the loop returns with an invalid packet type.
    pub interrupted_puback_fails :
        (fuel : ℕ) (id : PacketId) (rest : Bytes) (cl : Client Node H)
        → shutdown (ack_bytes 0x40 id ++ rest) ≡ false
        → shutdown (drop 1 (ack_bytes 0x40 id ++ rest)) ≡ false
        → tick 0 (ack_bytes 0x40 id ++ rest) ≡ some 1
        → (now (ack_bytes 0x40 id ++ rest) cl).channel.is_open ≡ true
        → (now (ack_bytes 0x40 id ++ rest) cl).channel.writer_alive ≡ true
        → (now
            (drop 1 (ack_bytes 0x40 id ++ rest))
            (pinged (now (ack_bytes 0x40 id ++ rest) cl))).channel.is_open
          ≡ true
        → serve walk config valid_utf8 late shutdown tick others
            (suc (suc fuel))
            1
            (ack_bytes 0x40 id ++ rest)
            cl
          ≡ some (
            now (drop 1 (ack_bytes 0x40 id ++ rest)) (pinged (now (ack_bytes 0x40 id ++ rest) cl)),
            return (MqttError.codec (CodecError.invalid_packet_type 0)),
          )
    interrupted_puback_fails fuel id rest cl on on' due opened alive opened' =
        let wire : Bytes = ack_bytes 0x40 id ++ rest in
        let left : Bytes = drop 1 wire in
        turned (suc fuel) 1 0 wire left Selected.ping_due cl (pinged (now wire cl), continue)
          (ping_selected 0 1 wire on due) (ping_turn (now wire cl) opened alive)
        ∙ turned fuel 0 0 left []
            (Selected.read (err (MqttError.codec (CodecError.invalid_packet_type 0))))
            (pinged (now wire cl))
            (
              now left (pinged (now wire cl)),
              return (MqttError.codec (CodecError.invalid_packet_type 0)),
            )
            (failure_selected left (MqttError.codec (CodecError.invalid_packet_type 0)) on'
              (cut_off valid_utf8 id rest (max_packet_size config.safety)))
            (open_turn _ (now left (pinged (now wire cl))) opened')
