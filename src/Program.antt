-- ===== src/Program.antt =====
-- cmd/main.go: what the program starts, and the loops that run beside its workers and handlers.
pub mod Reloads
pub mod Start
pub mod Journey
pub mod Stop
