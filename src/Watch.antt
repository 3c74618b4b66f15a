-- ===== src/Watch.antt =====
-- The package watch/: durable observations, poll leases and the event outbox.
pub mod Records
pub mod Tables
pub mod Ingest
pub mod Payloads
pub mod Events
pub mod Config
pub mod Store
pub mod Validation
pub mod Runner
