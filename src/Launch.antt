-- ===== src/Launch.antt =====
-- system/launch_manager: the supervisor of the system's processes.
pub mod Spec
pub mod World
pub mod Config
pub mod Expansion
pub mod Files
pub mod Process
pub mod Start
pub mod Stop
pub mod Poll
pub mod Traverse
pub mod Run
pub mod Lift
pub mod Coherence
pub mod Restart
pub mod Pids
pub mod Shutdown
pub mod Names
pub mod Supervision
