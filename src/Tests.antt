-- ===== src/Tests.antt =====
-- The theorems at concrete inputs, and runs of the model.
mod Launching
mod Polling
mod ModbusTraffic
mod SbusFrames
mod Texts
mod Workers
mod Joints
mod Parameters
mod Reports
mod Hardware
mod Checksums
mod LaunchFiles
pub mod Wildcards
