-- ===== src/Config.antt =====
-- internal/config/config.go: what is done with a configuration once it is read.
pub mod Cycle
pub mod Validate
pub mod Expand
