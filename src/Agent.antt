-- ===== src/Agent.antt =====
-- Package agent (agent/*.go): the client that runs on a user's device.
pub mod Apps
pub mod Proxies
pub mod Life
pub mod Tun
pub mod LifeTests
pub mod ReachableTests
pub mod Tests
