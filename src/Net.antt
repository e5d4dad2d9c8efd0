-- ===== src/Net.antt =====
-- core/net: the pieces that pace and measure load.
pub mod Pace
pub mod Conn
pub mod Seams
pub mod Socket
pub mod Hello
pub mod Udp
pub mod DownLoad
pub mod UpLoad
pub mod Loopback
pub mod LoadFlow
