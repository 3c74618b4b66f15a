-- ===== src/Dispatch.antt =====
-- The dispatcher (current/dispatch_store.py, current/dispatch_replay.py, current/dispatch_types.py
-- and the tables of current/dispatch_schema.py): it takes the events of the outbox in order, asks
-- whether an event deserves a model, and reserves the call in the journal.
pub mod Types
pub mod Records
pub mod Admission
pub mod Settings
pub mod Queue
pub mod Prepare
pub mod Finish
pub mod Accounts
pub mod Soundness
pub mod Calls
pub mod Additions
pub mod Results
pub mod Reachability
pub mod Replay
