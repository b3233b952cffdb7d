-- ===== src/Protocol.antt =====
-- src/protocol/mod.rs: the parts of the Minecraft wire protocol that the proxy reads and writes.
pub mod Varint
pub mod Packet
pub mod Handshake
