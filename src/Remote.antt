-- ===== src/Remote.antt =====
-- src/workflows/remote: what a remote client may ask for.
pub mod ReadonlyPolicy
