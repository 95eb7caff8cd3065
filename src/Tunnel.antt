-- ===== src/Tunnel.antt =====
-- The engine of the tunnel (tun_stack/engine.go, tun_stack/stack.go), over the devices and the
-- stacks of tun2socks.
pub mod Engine
pub mod Tests
