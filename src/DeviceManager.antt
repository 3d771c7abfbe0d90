-- ===== src/DeviceManager.antt =====
-- system/device_manager: the devices that the system has reported.
pub mod Registry
pub mod Reports
pub mod Answers
