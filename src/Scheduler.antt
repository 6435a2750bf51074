-- ===== src/Scheduler.antt =====
-- src/lib.rs
pub mod Frame
pub mod Steady
pub mod State
pub mod Valid
pub mod Instances
pub mod Messages
pub mod Io
pub mod Run
pub mod Suspend
