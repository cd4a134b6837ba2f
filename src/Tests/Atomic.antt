-- ===== src/Tests/Atomic.antt =====
-- The theorems on the parts of the broker's operations at concrete brokers.
use hotaru_mqtt.Base.{
  ℕ, ◌≡◌, ◌≢◌, refl, [], ◌∷◌, true, none, some, arith, Bytes, str_eq, is_empty, ok,
}
use hotaru_mqtt.Request.{TopicFilter}
use hotaru_mqtt.Request.Qos.{at_least_once}
use hotaru_mqtt.Request.SubackCode.{SubackCode}
use hotaru_mqtt.Topic.{
  validate_filter_loop, validate_segment, validate_subscribe_filter, check_length,
}
use hotaru_mqtt.Topic.Split.{split, contains}
use hotaru_mqtt.DashMap.{contains_key, get, insert, remove, str_key}
use hotaru_mqtt.Channel
use hotaru_mqtt.Channel.{MqttChannel, ProtocolRole}
use hotaru_mqtt.Broker.{BrokerInner, SubscriberEntry, take_over, register_session, subscribe}
use hotaru_mqtt.Broker.Table.{qos_of}
use hotaru_mqtt.Broker.Invariant.{IsConsistent}
use hotaru_mqtt.Protocol.System.Owner.{owner}
use hotaru_mqtt.Broker.Atomic.{
  Interleaved, Stage, Step, Reachable, put, stage_of, take_session, wipe, wipe_if, new_entry,
  put_session, claim,
}
use hotaru_mqtt.Broker.Atomic.Owners.{owners_serve}
use hotaru_mqtt.Broker.Atomic.Races.{
  subscription_is_lost, takeover_is_missed, first_enters, second_enters,
}
use hotaru_mqtt.Tests.Data.{room_filter}

abbrev client : Bytes
client = b'c' ∷ []

abbrev channels : ℕ → MqttChannel
channels c = Channel.new [] ProtocolRole.server c

-- The client `c` on the connection 5, without subscriptions.
abbrev old_entry : SubscriberEntry
old_entry = new_entry 5 none true

abbrev served : BrokerInner
served = record {
  sessions = (client, old_entry) ∷ [];
  subscriptions = [];
  channels = λ c. channels c;
}

served-IsConsistent : IsConsistent served
unfolding contains_key
served-IsConsistent = ((refl, tt), tt, tt)

owned : owner client served ≡ some 5
unfolding get str_eq
owned = refl

-- The connection 5 registers, part by part, among others that connect.
abbrev started : Interleaved
started = record {
  inner = record { sessions = []; subscriptions = []; channels = λ c. channels c };
  stages = λ c. Stage.connecting;
}

abbrev taken : Interleaved
taken =
    put 5 (take_session client started.inner).0
      (Stage.taken client none true (take_session client started.inner).1) started

abbrev closed : Interleaved
closed =
    put 5 (take_over (take_session client started.inner).1 taken.inner)
      (Stage.closed client none true) taken

abbrev forgotten : Interleaved
forgotten = put 5 (wipe_if true client closed.inner) (Stage.ready client none true) closed

abbrev entered : Interleaved
entered =
    put 5 (put_session client (new_entry 5 none true) forgotten.inner) (Stage.serving client)
      forgotten

entered-Reachable : Reachable entered
entered-Reachable =
    Reachable.more
      (Reachable.more
        (Reachable.more
          (Reachable.more (Reachable.start (λ c. channels c)) (Step.take 5 client none true refl))
          (Step.end 5 client none true (take_session client started.inner).1 refl))
        (Step.forget 5 client none true refl))
      (Step.enter 5 client none true refl)

entered_owner : owner client entered.inner ≡ some 5
unfolding get insert remove str_eq take_over
entered_owner = refl

owners_serve_example : (stage_of 5 entered ≡ Stage.serving client) × IsConsistent entered.inner
owners_serve_example = owners_serve {b = entered} client 5 entered-Reachable entered_owner

abbrev room : TopicFilter
room = record { filter = room_filter; qos = at_least_once }

room_accepted : validate_subscribe_filter room_filter ≡ ok tt
unfolding validate_subscribe_filter validate_filter_loop validate_segment check_length split
    contains str_eq is_empty
room_accepted = refl

-- The connection 6, after the connection 5 has given its session up.
abbrev next : BrokerInner
next = (register_session client 6 none true (claim client 5 served).0).0

subscription_is_lost_example :
    ((subscribe client 6 (room ∷ []) next).1 ≡ SubackCode.granted at_least_once ∷ [])
    × (qos_of client room_filter (subscribe client 6 (room ∷ []) next).0.subscriptions
        ≡ some at_least_once)
    × (owner client (wipe client (subscribe client 6 (room ∷ []) next).0) ≡ some 6)
    × (qos_of client room_filter (wipe client (subscribe client 6 (room ∷ []) next).0).subscriptions
        ≡ none)
subscription_is_lost_example =
    subscription_is_lost client 5 6 none true room served served-IsConsistent owned room_accepted

opened : (served.channels 6).is_open ≡ true
unfolding Channel.new
opened = refl

not_owned : owner client served ≢ some 6
not_owned h = ground (arith, owned, h)

abbrev first_in : BrokerInner
first_in = first_enters client 6 none true served

takeover_is_missed_example :
    (owner client first_in ≡ some 6)
    × (owner client (second_enters client 7 none true served first_in) ≡ some 7)
    × (((second_enters client 7 none true served first_in).channels 6).is_open ≡ true)
takeover_is_missed_example =
    takeover_is_missed client 6 7 none none true true served served-IsConsistent not_owned opened
