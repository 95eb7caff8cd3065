-- ===== src/Portmap.antt =====
-- Package portmap (portmap/portmap.go).
pub mod Listeners
pub mod Sockets
pub mod Locks
pub mod Handshake
pub mod Served
pub mod Access
pub mod Relayed
pub mod RelayTests
pub mod LockTests
