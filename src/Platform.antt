-- ===== src/Platform.antt =====
-- src/platform: what the engine and the remote server share.
pub mod ActionTokens
