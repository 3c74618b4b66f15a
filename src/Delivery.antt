-- ===== src/Delivery.antt =====
-- The delivery journal (current/delivery_types.py, current/delivery_store.py and the tables of
-- current/delivery_schema.py): an invocation of a model is reserved, and its result committed,
-- recorded as failed, found stale or abandoned.
pub mod Types
pub mod Records
pub mod Opening
pub mod Reserve
pub mod Commit
pub mod Balance
pub mod Outbox
pub mod Decisions
pub mod Changes
pub mod Operations
pub mod Journals
pub mod Reachability
pub mod Answers
pub mod Holding
