-- ===== src/HealthMonitor.antt =====
-- system/health_monitor: the health of the nodes that send heartbeats and diagnostics.
pub mod Registry
pub mod Nodes
pub mod Externals
pub mod Silence
