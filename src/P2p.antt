-- ===== src/P2p.antt =====
-- Package p2pengine (p2pengine/*.go).
pub mod Engine
pub mod EngineTests
