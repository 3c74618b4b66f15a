-- ===== src/Cases.antt =====
-- The work ledger of a case (current/case_types.py, current/case_records.py, current/case_store.py).
pub mod Types
pub mod Records
pub mod Registration
pub mod Store
pub mod Readers
pub mod Policies
