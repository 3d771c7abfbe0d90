-- ===== src/Actuator.antt =====
-- components/actuator: the mock joint controller.
pub mod Joint
pub mod Controller
pub mod Command
pub mod Read
pub mod Step
pub mod Safety
pub mod Rest
pub mod Validation
