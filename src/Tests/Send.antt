-- ===== src/Tests/Send.antt =====
-- The theorems on operations at concrete channels.
use hotaru_mqtt.Base.{◌≡◌, refl, [], ◌∷◌, none, some, arith, ok, err}
use hotaru_mqtt.Error.{MqttError, TimeoutKind}
use hotaru_mqtt.Request.{PublishAck, MqttResponse}
use hotaru_mqtt.Request.Qos.{at_least_once, exactly_once}
use hotaru_mqtt.Packet.{Packet}
use hotaru_mqtt.DashMap.{contains_key, get, nat_key, str_key}
use hotaru_mqtt.Session.{AckSlot, AckKind, allocate_packet_id}
use hotaru_mqtt.Channel.{WriteCmd, close}
use hotaru_mqtt.Protocol.Client.{dispatch_client_inbound}
use hotaru_mqtt.Protocol.Send.{puback, pubrec, pubcomp, awaiting, done, start_publish, resume}
use hotaru_mqtt.Protocol.Send.Steps.{started}
use hotaru_mqtt.Protocol.Send.Flows.{published_at_least_once, published_exactly_once}
use hotaru_mqtt.Protocol.Send.Failure.{resume_timeout, resume-close}
use hotaru_mqtt.Protocol.Send.Race.{early_pubcomp_is_lost}
use hotaru_mqtt.Tests.Peers.{fresh, channel_of, waits, client_of_session, walk, config, request}

published_at_least_once_example :
    (start_publish (request at_least_once) fresh
      ≡ (started (request at_least_once) AckKind.puback fresh, ok (awaiting (puback 1 0))))
    × (get 1 (started (request at_least_once) AckKind.puback fresh).session.pending_acks
        ≡ some (AckSlot.puback 0))
    × ((resume
          (puback 1 0)
          (dispatch_client_inbound walk config
            (Packet.puback 1)
            (client_of_session (waits (AckSlot.puback 0) 1))).0.channel).1
        ≡ ok (done (MqttResponse.published (PublishAck.acknowledged 1))))
unfolding allocate_packet_id get
published_at_least_once_example =
    published_at_least_once walk config (request at_least_once) fresh
      (client_of_session (waits (AckSlot.puback 0) 1)) refl refl refl

published_exactly_once_example :
    (start_publish (request exactly_once) fresh
      ≡ (started (request exactly_once) AckKind.pubrec fresh, ok (awaiting (pubrec 1 0))))
    × (get 1 (started (request exactly_once) AckKind.pubrec fresh).session.pending_acks
        ≡ some (AckSlot.pubrec 0))
    × ((dispatch_client_inbound walk config
          (Packet.pubrec 1)
          (client_of_session (waits (AckSlot.pubrec 0) 1))).0.channel.queue
        ≡ WriteCmd.packet (Packet.pubrel 1) ∷ [])
    × ((resume
          (pubrec 1 0)
          (dispatch_client_inbound walk config
            (Packet.pubrec 1)
            (client_of_session (waits (AckSlot.pubrec 0) 1))).0.channel).1
        ≡ ok (awaiting (pubcomp 1 1)))
    × (get 1
          (resume
            (pubrec 1 0)
            (dispatch_client_inbound walk config
              (Packet.pubrec 1)
              (client_of_session (waits (AckSlot.pubrec 0) 1))).0.channel).0.session.pending_acks
        ≡ some (AckSlot.pubcomp 1))
    × ((resume
          (pubcomp 1 1)
          (dispatch_client_inbound walk config
            (Packet.pubcomp 1)
            (client_of_session (waits (AckSlot.pubcomp 1) 2))).0.channel).1
        ≡ ok (done (MqttResponse.published (PublishAck.completed 1))))
unfolding allocate_packet_id get
published_exactly_once_example =
    published_exactly_once walk config (request exactly_once) fresh
      (client_of_session (waits (AckSlot.pubrec 0) 1))
      (client_of_session (waits (AckSlot.pubcomp 1) 2)) refl refl refl refl refl

resume_timeout_example :
    ((resume (puback 1 0) (channel_of (waits (AckSlot.puback 0) 1))).1
      ≡ err (MqttError.timeout TimeoutKind.ack))
    × (get 1 (resume (puback 1 0) (channel_of (waits (AckSlot.puback 0) 1))).0.session.pending_acks
        ≡ none)
unfolding get contains_key
resume_timeout_example =
    resume_timeout (puback 1 0) (channel_of (waits (AckSlot.puback 0) 1)) 1 (refl, tt) refl

resume-close_example :
    resume (puback 1 0) (close (channel_of (waits (AckSlot.puback 0) 1)))
    ≡ (close (channel_of (waits (AckSlot.puback 0) 1)), err MqttError.channel_closed)
unfolding get
resume-close_example = resume-close (puback 1 0) (channel_of (waits (AckSlot.puback 0) 1)) refl refl

early_pubcomp_is_lost_example :
    ((resume
        (pubrec 1 0)
        (dispatch_client_inbound walk config
          (Packet.pubcomp 1)
          (dispatch_client_inbound walk config
            (Packet.pubrec 1)
            (client_of_session (waits (AckSlot.pubrec 0) 1))).0).0.channel).1
      ≡ ok (awaiting (pubcomp 1 1)))
    × ((resume
          (pubcomp 1 1)
          (resume
            (pubrec 1 0)
            (dispatch_client_inbound walk config
              (Packet.pubcomp 1)
              (dispatch_client_inbound walk config
                (Packet.pubrec 1)
                (client_of_session (waits (AckSlot.pubrec 0) 1))).0).0.channel).0).1
        ≡ err (MqttError.timeout TimeoutKind.ack))
unfolding get contains_key
early_pubcomp_is_lost_example =
    early_pubcomp_is_lost walk config 1 0 (client_of_session (waits (AckSlot.pubrec 0) 1))
      (refl, tt) refl refl (λ h. ground arith) refl
