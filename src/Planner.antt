-- ===== src/Planner.antt =====
-- src/engine/planner: from requests to the graph of packages.
pub mod Engine
pub mod EnsureOrder
pub mod Dependencies
