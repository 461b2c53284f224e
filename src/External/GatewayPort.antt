-- ===== src/External/GatewayPort.antt =====
-- The gateway port watcher: external/gateway_port_watcher.go.
pub mod Config
pub mod Refresh
pub mod Watch
pub mod Reports
pub mod Reads
pub mod Polling
pub mod Stops
mod Tests
