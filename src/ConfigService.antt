-- ===== src/ConfigService.antt =====
-- system/config_service: the parameters of the system.
pub mod Store
pub mod Handlers
pub mod Updates
