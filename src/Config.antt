-- ===== src/Config.antt =====
-- internal/config: the configuration read at the start, and the part of it that can change later.
pub mod Environment
pub mod Validators
pub mod Static
pub mod HotReload
