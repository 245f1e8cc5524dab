-- ===== src/Scheduler.antt =====
-- src/engine/scheduler: building the groups of packages and running them.
pub mod Family
pub mod Groups
pub mod Plans
pub mod Parallel
pub mod Sequential
pub mod Filter
pub mod Executor
