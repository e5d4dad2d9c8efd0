-- ===== src/Protocol.antt =====
-- core/protocol: the UDP wire format and the return-routability cookie.
pub mod Bytes
pub mod Header
pub mod Packet
pub mod Handshake
pub mod Start
pub mod Load
