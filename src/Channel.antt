-- ===== src/Channel.antt =====
-- channel.rs: `MqttChannel`, the shared handle of one connection, with its writer task. The clones
-- of a channel share one value of this record. `reader` holds the bytes that the peer will have
-- sent before it closes, `wire` the bytes that were written to it. Addresses are left out.
pub mod Sending
pub mod Wire
use hotaru_mqtt.Base.{
  ℕ, ◌+◌, ◌%◌, ◌^◌, List, [], ◌∷◌, ◌++◌, Bool, true, false, Option, none, some, if◌then◌else◌,
  Bytes, Outcome, ok, err, panic,
}
use hotaru_mqtt.Error.{MqttError}
use hotaru_mqtt.Packet.{Packet, PublishPacket}
use hotaru_mqtt.Codec.Frame.{write_packet, write_publish_packet}
use hotaru_mqtt.Session
use hotaru_mqtt.Session.{BindInfo, MqttSession, bound_client_id, bound_keep_alive, abandon}

-- `hotaru_core::protocol::ProtocolRole`
pub data ProtocolRole : Type 0 where
  server client : ProtocolRole

-- `fetch_add(1)` on the global counter of 64 bits.
unfoldable pub next_connection_id : ℕ → ℕ × ℕ
next_connection_id counter = ((counter + 1) % 2 ^ 64, counter)

pub data WriteCmd : Type 0 where
  packet : Packet → WriteCmd
  publish : PublishPacket → WriteCmd
  flush shutdown : WriteCmd

pub record MqttChannel : Type 0 where
  pub reader : Option Bytes
  pub connection_id : ℕ
  pub role : ProtocolRole
  pub session : MqttSession
  pub is_open : Bool
  pub shutdown : Bool
  pub writer_alive : Bool
  pub queue : List WriteCmd
  pub wire : Bytes

unfoldable pub new : Bytes → ProtocolRole → ℕ → MqttChannel
new reader role connection_id = record {
  reader = some reader;
  connection_id = connection_id;
  role = role;
  session = Session.new;
  is_open = true;
  shutdown = false;
  writer_alive = true;
  queue = [];
  wire = [];
}

-- The first caller swaps the flag and signals; `shutdown` says that the writer was notified.
unfoldable pub close : MqttChannel → MqttChannel
close ch =
    if ch.is_open
    then record ch { is_open = false; shutdown = true; session = abandon ch.session }
    else ch

unfoldable pub take_reader : MqttChannel → MqttChannel × Option Bytes
take_reader ch = (record ch { reader = none }, ch.reader)

-- What the session was bound to.
unfoldable pub client_id : MqttChannel → Option Bytes
client_id ch = bound_client_id ch.session

unfoldable pub keep_alive : MqttChannel → Option ℕ
keep_alive ch = bound_keep_alive ch.session

-- `cmd_tx.send`
abbrev pub send : WriteCmd → MqttChannel → MqttChannel × Outcome MqttError (Unit {0})
send cmd ch =
    if ch.writer_alive
    then (record ch { queue = ch.queue ++ (cmd ∷ []) }, ok tt)
    else (ch, err MqttError.channel_closed)

unfoldable pub send_packet : Packet → MqttChannel → MqttChannel × Outcome MqttError (Unit {0})
send_packet p = send (WriteCmd.packet p)

unfoldable pub send_publish :
    PublishPacket → MqttChannel → MqttChannel × Outcome MqttError (Unit {0})
send_publish p = send (WriteCmd.publish p)

-- What follows the loop of `writer_actor`. The receiver of the commands goes with the task.
unfoldable pub writer_exit : MqttChannel → MqttChannel
writer_exit ch = record ch { is_open = false; writer_alive = false; queue = [] }

abbrev pub written : MqttChannel → Outcome MqttError Bytes → MqttChannel
unfolding writer_exit
written ch (ok wire) = record ch { wire = wire }
written ch (err e) = writer_exit ch
written ch panic = writer_exit ch

-- The arms of `match cmd`, for a writer that takes what it is given.
unfoldable pub writer_recv : WriteCmd → MqttChannel → MqttChannel
unfolding writer_exit written
writer_recv (WriteCmd.packet p) ch = written ch (write_packet ch.wire p)
writer_recv (WriteCmd.publish p) ch = written ch (write_publish_packet ch.wire p)
writer_recv WriteCmd.flush ch = ch
writer_recv WriteCmd.shutdown ch = writer_exit ch

-- One round of the loop that receives a command; on an empty queue it waits.
unfoldable pub writer_step : MqttChannel → MqttChannel
unfolding writer_recv
writer_step ch = elim ch.queue [
  | [] ↦ ch
  | cmd ∷ rest ↦ writer_recv cmd (record ch { queue = rest })
]
