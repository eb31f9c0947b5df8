-- ===== src/Java.antt =====
-- The Java Edition client: protocol.go and java.go.
pub mod Errors
pub mod VarInt
pub mod Action
pub mod Packet
pub mod Messages
pub mod Ping
