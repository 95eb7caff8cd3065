-- ===== src/Stream.antt =====
-- Package stream: packets of variable length on a connection.
pub mod Bytes
pub mod Packet
pub mod RoundTrip
pub mod Tests
