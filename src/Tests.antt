-- ===== src/Tests.antt =====
-- Runs of the theorems on concrete packets, sessions and brokers.
mod Data
mod Codec
mod Topic
mod Session
mod Broker
mod Atomic
mod Peers
mod Send
mod Client
mod Server
mod Relay
mod EndToEnd
mod Reaching
mod Handshake
