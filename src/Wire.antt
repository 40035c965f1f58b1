-- ===== src/Wire.antt =====
-- libsponge/tcp_helpers: the formats on the wire.
pub mod Flags
pub mod Total
pub mod ArpMessage
pub mod Ethernet
pub mod Ipv4Datagram
pub mod Ipv4Header
pub mod TcpHeader
pub mod TcpSegment
mod Tests
