-- ===== src/Codec.antt =====
-- codec/: the wire codec. `Varint`, `Primitives`, `Encode` and `Decode` model the files of those
-- names, `Frame` the entry points of codec/mod.rs; the other children are proofs.
pub mod Varint
pub mod Primitives
pub mod Encode
pub mod Decode
pub mod Frame
pub mod WellFormed
pub mod Framing
pub mod RoundTrip
pub mod Agreement
pub mod Typed
