-- ===== src/State.antt =====
-- src/ecosystem/state: the transaction database that makes a run of package operations recoverable.
pub mod Records
pub mod Fields
pub mod Store
pub mod Keys
pub mod Runs
pub mod Items
pub mod Database
pub mod Samples
