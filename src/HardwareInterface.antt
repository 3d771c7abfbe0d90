-- ===== src/HardwareInterface.antt =====
-- services/hardware_interface: the endpoints of the hardware and what the service publishes of them.
pub mod Endpoint
pub mod App
pub mod Publish
pub mod Spin
pub mod Starting
pub mod Delivery
pub mod Latest
pub mod Devices
pub mod JointEndpoint
pub mod JointTurns
pub mod JointStop
pub mod Health
pub mod Config
pub mod Loading
pub mod Distinct
pub mod Defaults
