-- ===== src/Socks5.antt =====
-- Package socks5: the datagrams of socks5/util.go, the server of socks5/server.go and the client of
-- socks5/client.go.
pub mod Packet
pub mod Datagram
pub mod Framed
pub mod PacketConn
pub mod Packets
pub mod Errors
pub mod Negotiate
pub mod Request
pub mod Client
pub mod PacketsTests
pub mod ServerTests
pub mod ClientTests
