-- ===== src/Config.antt =====
-- The configuration of an agent: internal/config.
pub mod Tokens
