-- ===== src/Lib.antt =====
-- hotaru_mqtt: a model of the MQTT 3.1.1 crate, with theorems about its wire codec, topic rules,
-- session state, broker, and the tasks of its two protocol roles.
--
-- The program. A connection (src/channel.rs) owns a socket, a writer task and a session
-- (src/session.rs). The codec (src/codec) turns bytes into the packets of src/packet.rs and back,
-- within the limits of src/safety.rs. The broker (src/broker.rs) keeps the sessions of the clients
-- and their subscriptions, whose filters src/topic.rs checks, and sends a PUBLISH on to the
-- connections that match. The tasks of src/protocol read packets and act on the channel and the
-- broker: server.rs for a peer that connects, client.rs for a connection of our own, and send.rs
-- for what the user sends over either. src/context.rs is what an endpoint of the user gets.
--
-- The files.
--   Base: numbers, lists, outcomes and machine words that all parts use. `Outcome E A` is a
--     Rust `Result` with a third case, `panic`, for an index, a slice or a
--     `BytesMut::split_to` out of bounds.
--   Request, Packet, Error: src/request.rs, src/packet.rs, src/error.rs.
--   Codec: src/codec. Varint, Primitives, Encode, Decode and Frame hold the functions of
--     varint.rs, primitives.rs, encode.rs, decode.rs and mod.rs; the modules below them and beside
--     them hold the lemmas. Typed says what the Rust types say of a packet that was read.
--   Topic: src/topic.rs. Safety: src/safety.rs.
--   DashMap: the map of the dashmap crate, as an association list, with its laws.
--   Session: src/session.rs. Ids, Waking, Accounts and Qos2 hold the lemmas.
--   Channel: src/channel.rs, the handle and the writer task. Sending and Wire hold the lemmas.
--   Broker: src/broker.rs, in the files Auth, Tree, State and Publish and its own. Matching,
--     Fanout, Reaching, Granting, Unserved, Sessions, Table, Tables and Invariant hold the lemmas.
--     Atomic cuts the registration and the teardown of a session into their map operations, with
--     Parts, Owners and Races for what interleaving them does.
--   Action: handlers that change a state and can fail. Context: src/context.rs. Client:
--     src/client.rs.
--   Protocol: src/protocol/mod.rs. Protocol/Server, Client and Send are server.rs, client.rs and
--     send.rs. Server/Admit leads from CONNECT to the loop, and Server/Run is `handle_server` from
--     its start to its end; Termination, Answers, Admission and Relay below Server hold lemmas on
--     it. Client/Run is `handle_client`, with lemmas in Termination, Interrupt and Delivery;
--     Send/Steps, Flows, Failure and Race are on send.rs. System puts the tasks of all connections
--     together as a step relation, with Owner, Dispatch and Leaks for its invariant. Handshake is
--     CONNECT and CONNACK between the two roles, and EndToEnd a PUBLISH from the broker to the
--     endpoints of a subscriber.
--   Tests: the theorems at concrete inputs.
--
-- Correspondence. A function keeps its name. `&mut` and interior mutation are state passing: a
-- function takes the record and returns it. Bytes are numbers, a `str` is the list of its UTF-8
-- bytes, and `std::str::from_utf8` is a parameter, `valid_utf8`. A reader is the list of the bytes
-- that it will deliver before its end. A oneshot channel is a number, and the session records what
-- its receiver got. The channels that the broker holds are a store, indexed by connection id.
-- A task is cut at its awaits; what a timeout or a `select!` comes to is an argument (`Timed`,
-- `Selected`, or the parameters `late` and `shutdown`). The walk of the router over the endpoints
-- of a topic, the run of an endpoint and its match of a named segment are the parameters `walk`,
-- `run_node` and `match_seg`.
--
-- Loops and bounds. The remaining length is read in at most four rounds, the bound that the source
-- checks. `encode_remaining_length` recurs on the value, which falls at each round. The loops of
-- the SUBSCRIBE and UNSUBSCRIBE parsers take the length of the body as fuel; a round takes at
-- least two bytes, so it is enough, and running out is a `panic`. The loop of `handle_server`
-- takes one more than the length of the wire, since a turn that goes on has read a byte, and that
-- of `handle_client` the number of ticks besides; running out is `none`. The digits of a
-- connection id are at most twenty.
-- Integers are natural numbers: a cast to u8 or u16 is written as a remainder, and a hypothesis
-- such as `IsU16` says what the type of a field says.
--
-- A panic in a task ends it: the turn of a server or client task comes to `panicked`, and so does
-- the task. An endpoint of the user, `run_node`, returns a context or fails; that it may panic,
-- which would end the worker task that runs it, is not modelled.
--
-- Not modelled. Sockets, addresses, timers, the traits of hotaru_core that the crate fills, and
-- the interleaving of two tasks within one turn of a task or one broker operation, but for the
-- registration and the teardown of a session, which Broker/Atomic takes apart. The writer takes
-- what it is given. In a session the two map operations of a waker are steps of their own;
-- the re-insertion of a slot that a waker does not own is one step with its removal.
pub mod Base
pub mod Request
pub mod Packet
pub mod Error
pub mod Codec
pub mod Topic
pub mod Safety
pub mod DashMap
pub mod Session
pub mod Channel
pub mod Broker
pub mod Action
pub mod Context
pub mod Client
pub mod Protocol
mod Tests
