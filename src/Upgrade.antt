-- ===== src/Upgrade.antt =====
-- The upgrade of the gateway: the comparison of versions (common/version.go), the handler that
-- installs a new program (gateway/upgrade.go) and the daemon that runs it (gateway/cmd/daemon.go).
pub mod Version
pub mod Install
pub mod Daemon
pub mod Tests
