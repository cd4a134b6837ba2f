-- ===== src/Tests/Client.antt =====
-- The theorems on the client task and the writer at concrete channels.
use hotaru_mqtt.Base.{◌≡◌, ◌≢◌, refl, [], ◌∷◌, false, none, some, arith, Bytes, ok, panic, length}
use hotaru_mqtt.Error.{MqttError}
use hotaru_mqtt.Packet.{Packet}
use hotaru_mqtt.DashMap.{nat_key, str_key}
use hotaru_mqtt.Channel.{MqttChannel, WriteCmd}
use hotaru_mqtt.Protocol.Client.{return, dispatch_client_inbound}
use hotaru_mqtt.Broker.{incoming_from_packet}
use hotaru_mqtt.Codec.Encode.{publish_body}
use hotaru_mqtt.Codec.Primitives.{write_arc_str}
use hotaru_mqtt.Codec.WellFormed.{body_of}
use hotaru_mqtt.Channel.Wire.{rounds, read_packets, written_is_read}
use hotaru_mqtt.Protocol.Client.{spawn_all}
use hotaru_mqtt.Protocol.Client.Delivery.{exactly, delivered_once}
use hotaru_mqtt.Protocol.Client.Run.{handle_client, serve}
use hotaru_mqtt.Protocol.Client.Termination.{handle_client_returns}
use hotaru_mqtt.Protocol.Client.Interrupt.{pinged, interrupted_puback_fails}
use hotaru_mqtt.Error.{CodecError}
use hotaru_mqtt.Tests.Data.{ascii, hello, room_topic}
use hotaru_mqtt.Tests.Peers.{fresh, walk, config, quiet}

delivered_once_example :
    ((dispatch_client_inbound walk config
        (Packet.publish (exactly 1 hello))
        (dispatch_client_inbound walk config (Packet.publish (exactly 1 hello)) quiet).0).0.spawned
      ≡ [])
    × ((dispatch_client_inbound walk config
          (Packet.pubrel 1)
          (dispatch_client_inbound walk config
            (Packet.publish (exactly 1 hello))
            (dispatch_client_inbound walk config
              (Packet.publish (exactly 1 hello))
              quiet).0).0).0.spawned
        ≡ spawn_all (walk room_topic) (some 9) (incoming_from_packet (exactly 1 hello)))
    × ((dispatch_client_inbound walk config
          (Packet.pubrel 1)
          (dispatch_client_inbound walk config
            (Packet.pubrel 1)
            (dispatch_client_inbound walk config
              (Packet.publish (exactly 1 hello))
              (dispatch_client_inbound walk config
                (Packet.publish (exactly 1 hello))
                quiet).0).0).0).0.spawned
        ≡ spawn_all (walk room_topic) (some 9) (incoming_from_packet (exactly 1 hello)))
    × ((dispatch_client_inbound walk config
          (Packet.pubrel 1)
          (dispatch_client_inbound walk config
            (Packet.pubrel 1)
            (dispatch_client_inbound walk config
              (Packet.publish (exactly 1 hello))
              (dispatch_client_inbound walk config
                (Packet.publish (exactly 1 hello))
                quiet).0).0).0).0.channel.queue
        ≡ WriteCmd.packet (Packet.pubrec 1)
          ∷ WriteCmd.packet (Packet.pubrec 1)
          ∷ WriteCmd.packet (Packet.pubcomp 1)
          ∷ WriteCmd.packet (Packet.pubcomp 1)
          ∷ [])
delivered_once_example = delivered_once walk config 1 hello hello quiet tt refl

abbrev writing : MqttChannel
writing = record fresh { queue = WriteCmd.publish hello ∷ WriteCmd.packet Packet.pingreq ∷ [] }

hello_len : length (body_of (Packet.publish hello)) ≡ 9
unfolding body_of publish_body write_arc_str
hello_len = refl

ping_len : length (body_of Packet.pingreq) ≡ 0
unfolding body_of
ping_len = refl

written_is_read_example :
    ((rounds 2 writing).queue ≡ [])
    × (read_packets ascii 100 2 (rounds 2 writing).wire
        ≡ ok (Packet.publish hello ∷ Packet.pingreq ∷ [], []))
written_is_read_example =
    written_is_read ascii 100 (Packet.publish hello ∷ Packet.pingreq ∷ []) [] writing
      (
        (
          ((refl, omega arith), (omega arith, omega arith)),
          omega (arith, hello_len),
          omega (arith, hello_len),
        ),
        ((tt, omega (arith, ping_len), omega (arith, ping_len)), tt),
      )
      refl refl

abbrev same_channel : Bytes → MqttChannel → MqttChannel
same_channel wire ch = ch

abbrev reader_channel : MqttChannel
reader_channel = record fresh { reader = some (32 ∷ 2 ∷ 0 ∷ 0 ∷ 208 ∷ 0 ∷ []) }

handle_client_returns_example :
    (handle_client walk config ascii false (λ w. false) (λ n w. none) same_channel 2 reader_channel
      ≢ none)
    × (handle_client walk config ascii false
          (λ w. false)
          (λ n w. none)
          same_channel
          2
          reader_channel
        ≢ some (quiet, panic))
handle_client_returns_example =
    handle_client_returns walk config ascii false (λ w. false) (λ n w. none) same_channel 2
      reader_channel quiet

interrupted_puback_fails_example :
    serve walk config ascii false
      (λ w. false)
      (λ n w. some 1)
      same_channel
      2
      1
      (64 ∷ 2 ∷ 0 ∷ 1 ∷ [])
      quiet
    ≡ some (pinged walk config quiet, return (MqttError.codec (CodecError.invalid_packet_type 0)))
interrupted_puback_fails_example =
    interrupted_puback_fails walk config ascii false (λ w. false) (λ n w. some 1) same_channel 0 1
      [] quiet refl refl refl refl refl refl
