-- ===== src/Tests/Peers.antt =====
-- Connections, sessions and configurations that the tests of the tasks share.
use hotaru_mqtt.Base.{
  ℕ, List, [], ◌∷◌, true, false, none, some, if◌then◌else◌, Bytes, str_eq, ◌⊎◌, inr,
}
use hotaru_mqtt.Error.{MqttError}
use hotaru_mqtt.Request.{PublishRequest}
use hotaru_mqtt.Request.Qos.{Qos}
use hotaru_mqtt.Packet.{ConnectPacket}
use hotaru_mqtt.DashMap.{nat_key, str_key}
use hotaru_mqtt.Safety
use hotaru_mqtt.Session.{AckSlot, MqttSession}
use hotaru_mqtt.Channel.{MqttChannel, ProtocolRole}
use hotaru_mqtt.Client.{MqttClientConfig}
use hotaru_mqtt.Protocol.Client.{Client}
use hotaru_mqtt.Context.{MqttContext}
use hotaru_mqtt.Broker.{ConnectionId}
use hotaru_mqtt.Safety.{allows_disabled_keep_alive}
use hotaru_mqtt.Tests.Data.{room_topic}

abbrev pub fresh : MqttChannel
fresh = record {
  reader = some [];
  connection_id = 1;
  role = ProtocolRole.client;
  session = record {
    pkt_counter = 0;
    bind = none;
    qos2_recv = [];
    pending_acks = [];
    outbound_inflight = [];
    next_waiter = 0;
    resolved = [];
  };
  is_open = true;
  shutdown = false;
  writer_alive = true;
  queue = [];
  wire = [];
}

-- A channel with a session in a given state.
abbrev pub channel_of : MqttSession → MqttChannel
channel_of s = record fresh { session = s }

-- A session that has parked one waiter, for the id 1.
abbrev pub waits : AckSlot → ℕ → MqttSession
waits slot next = record {
  pkt_counter = 1;
  bind = none;
  qos2_recv = [];
  pending_acks = (1, slot) ∷ [];
  outbound_inflight = [];
  next_waiter = next;
  resolved = [];
}

abbrev pub client_of_session : MqttSession → Client ℕ ℕ
client_of_session s = record { channel = channel_of s; spawned = [] }

abbrev pub walk : Bytes → List ℕ
walk topic = if str_eq topic room_topic then 7 ∷ [] else []

abbrev pub config : MqttClientConfig ℕ
config = record {
  client_id = b'c' ∷ [];
  clean_session = true;
  keep_alive_secs = 60;
  connect_timeout = 10000;
  credentials = none;
  will = none;
  initial_subscriptions = [];
  safety = Safety.new;
  default_inbound = some 9;
}

abbrev pub request : Qos → PublishRequest
request q = record { topic = room_topic; payload = 1 ∷ []; qos = q; retain = false }

abbrev pub client : Bytes
client = b'c' ∷ []

abbrev pub connect_packet : ConnectPacket
connect_packet = record {
  client_id = client;
  clean_session = true;
  keep_alive = 60;
  username = none;
  password = none;
  will = none;
}

abbrev pub channels : ConnectionId → MqttChannel
channels c = fresh

abbrev pub run_node : ℕ → MqttContext ℕ → MqttError ⊎ MqttContext ℕ
run_node n ctx = inr ctx

abbrev pub quiet : Client ℕ ℕ
quiet = record { channel = fresh; spawned = [] }
