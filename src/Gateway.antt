-- ===== src/Gateway.antt =====
-- gateway/src: the management, processing and security parts of the gateway.
pub mod AddressPattern
pub mod Policy
pub mod Config
pub mod TrafficCache
pub mod TrafficAnalyzer
pub mod UdpFraming
pub mod ConnPool
pub mod SessionStore
pub mod Firewall
pub mod Supervisor
pub mod Lifecycle
mod Tests
mod SecurityTests
pub mod Endpoints
pub mod Wireguard
mod WireguardTests
mod LocalTests
pub mod LocalPeer
pub mod RuleContext
pub mod UdpRelay
pub mod TlsParams
mod EndpointTests
mod TlsTests
mod UdpTests
mod ConfigTests
