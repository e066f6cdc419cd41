-- ===== src/Scheduler.antt =====
-- crates/walastack-runtime/src/scheduler.rs: backoff, the attempts of one fire, the loop of one
-- schedule, and the registry of active schedules.
pub mod Backoff
pub mod Attempts
pub mod Outcomes
pub mod Loop
pub mod Fires
pub mod Registry
pub mod Examples
