-- ===== src/Gateway.antt =====
-- Package gateway (gateway/*.go).
pub mod Store
pub mod PortmapResource
pub mod PortmapApp
pub mod Settings
pub mod ProxyService
pub mod ResourceApi
pub mod Cidr
pub mod Router
pub mod Authorize
pub mod AppApi
pub mod Identity
pub mod Run
pub mod Sessions
pub mod Routes
pub mod Outbounds
pub mod OutboundApi
pub mod InfoApi
pub mod Memory
pub mod Tests
pub mod RouteTests
pub mod RunTests
pub mod AppTests
pub mod ProxyTests
