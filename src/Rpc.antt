-- ===== src/Rpc.antt =====
-- reyao/rpc: the framing of protobuf messages.
pub mod Codec
pub mod Server
mod Examples
