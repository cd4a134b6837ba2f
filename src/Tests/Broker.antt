-- ===== src/Tests/Broker.antt =====
-- The theorems on the broker at concrete brokers.
use hotaru_mqtt.Base.{
  ◌⊎◌, ℕ, ◌≡◌, ◌↔◌, refl, [], ◌∷◌, true, false, none, some, arith, if◌then◌else◌, Bytes, str_eq,
  is_empty, ok,
}
use hotaru_mqtt.Request.Qos.{at_most_once}
use hotaru_mqtt.Topic.{
  validate_filter_loop, validate_segment, validate_subscribe_filter, check_length,
}
use hotaru_mqtt.Topic.Split.{split, contains}
use hotaru_mqtt.DashMap.{IsUnique, contains_key, get, nat_key, str_key}
use hotaru_mqtt.Channel
use hotaru_mqtt.Channel.{MqttChannel, ProtocolRole}
use hotaru_mqtt.Broker.{
  BrokerInner, SubscriberEntry, filter_matches, matching, publish, register_session,
  unregister_session, subscribe, unsubscribe,
}
use hotaru_mqtt.Broker.Matching.{
  Agree, AgreeBeforeHash, filter_matches-validate_subscribe_filter, Covers, filter_matches_lem,
}
use hotaru_mqtt.Broker.Fanout.{Gains, served_in, publish_lem}
use hotaru_mqtt.Broker.Sessions.{register_session_closes, taken_over_is_ignored}
use hotaru_mqtt.Broker.Table.{IsTree, qos_of, override, unregister_session_lem}
use hotaru_mqtt.Tests.Data.{room_topic, room_filter, hello}

-- A broker with one client, `c`, on the connection 5, subscribed to `a/+`.
abbrev client : Bytes
client = b'c' ∷ []

abbrev client_entry : SubscriberEntry
client_entry = record {
  connection_id = 5;
  filters = (room_filter, at_most_once) ∷ [];
  will = none;
  clean_session = false;
}

abbrev idle : ℕ → MqttChannel
idle c = Channel.new [] ProtocolRole.server c

abbrev one_client : BrokerInner
one_client = record {
  sessions = (client, client_entry) ∷ [];
  subscriptions = (room_filter, (client, at_most_once) ∷ []) ∷ [];
  channels = λ c. idle c;
}

client_found : get client one_client.sessions ≡ some client_entry
unfolding get str_eq
client_found = refl

one_client-IsUnique : IsUnique one_client.sessions
unfolding contains_key
one_client-IsUnique = (refl, tt)

one_client-IsTree : IsTree one_client.subscriptions
unfolding contains_key
one_client-IsTree = ((refl, tt), tt)

idle_alive : (idle 5).writer_alive ≡ true
unfolding Channel.new
idle_alive = refl

-- `#` and `$S/x`, which the code lets it match.
abbrev all_topics : Bytes
all_topics = b'#' ∷ []

abbrev system_topic : Bytes
system_topic = b'$' ∷ b'S' ∷ b'/' ∷ b'x' ∷ []

filter_matches_lem_example :
    (filter_matches all_topics (split system_topic) ≡ true)
    ↔ Covers (split all_topics) (split system_topic)
filter_matches_lem_example = filter_matches_lem all_topics (split system_topic)

publish_lem_example :
    Gains hello
      (served_in [] (matching (split hello.topic) one_client.subscriptions) 5 one_client.sessions)
      (one_client.channels 5)
      ((publish [] hello one_client).channels 5)
publish_lem_example = publish_lem [] hello one_client 5 idle_alive

abbrev taken_over : BrokerInner
taken_over = (register_session client 6 none true one_client).0

taken_over_is_ignored_example :
    (unregister_session client 5 false taken_over ≡ taken_over)
    × (subscribe client 5 [] taken_over ≡ (taken_over, []))
    × (unsubscribe client 5 (room_topic ∷ []) taken_over ≡ taken_over)
taken_over_is_ignored_example =
    taken_over_is_ignored client 6 5 none true false [] (room_topic ∷ []) one_client
      (λ e. omega arith)

unregister_session_lem_example :
    (get client (unregister_session client 5 true one_client).sessions
      ≡ (if str_eq client client then none else get client one_client.sessions))
    × (qos_of client room_filter (unregister_session client 5 true one_client).subscriptions
        ≡ override (str_eq client client) none (qos_of client room_filter one_client.subscriptions))
unregister_session_lem_example =
    unregister_session_lem client true one_client client_entry client room_filter client_found
      one_client-IsUnique one_client-IsTree

register_session_closes_example :
    (((register_session client 6 none true one_client).0.channels 5).is_open ≡ false)
    × ((register_session client 6 none true one_client).1 ≡ false)
register_session_closes_example =
    register_session_closes client 6 none true one_client client_entry client_found

abbrev below_a : Bytes
below_a = b'a' ∷ b'/' ∷ b'#' ∷ []

below_a_accepted : validate_subscribe_filter below_a ≡ ok tt
unfolding validate_subscribe_filter validate_filter_loop validate_segment check_length split
    contains str_eq is_empty
below_a_accepted = refl

filter_matches-validate_subscribe_filter_example :
    (filter_matches below_a (split room_topic) ≡ true) ↔ (
      Agree (split below_a) (split room_topic) ⊎ AgreeBeforeHash (split below_a) (split room_topic))
filter_matches-validate_subscribe_filter_example =
    filter_matches-validate_subscribe_filter below_a (split room_topic) below_a_accepted
