-- ===== src/Tests.antt =====
-- Runs of the model at concrete inputs.
mod Keypool
mod Queue
mod Worker
mod Config
mod Db
mod Api
mod Storage
mod Service
mod Backoff
mod Program
mod Journey
mod Stop
