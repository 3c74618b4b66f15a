-- ===== src/Watch/Tables.antt =====
-- The remaining tables of watch/store_schema.py, and the database that the store's methods change.
use watershed_memory.Base.{ℕ, Bool, Option, List}
use watershed_memory.Base.Int.{ℤ}
use watershed_memory.Watch.Records.{MonitorRow, PollLease}

pub data Approval : Type 0 where
  approved provisional other_state : Approval

-- `PageReceipt`
pub record PageReceipt : Type 0 where
  pub url : ℕ
  pub sha256 : ℕ
  pub byte_count : ℕ
  pub retrieved_at : ℕ

-- `Observation`. A finite Decimal is the integer that it is times 10 ^ 32: validation bounds the
-- exponent from below by -32, so this is exact; `_decimal_key` and `decimal_text` depend on it alone.
pub record Observation : Type 0 where
  pub station_id : ℕ
  pub series_id : ℕ
  pub parameter_code : ℕ
  pub statistic_id : Option ℕ
  pub observed_at : ℕ
  pub value : Option ℤ
  pub unit : ℕ
  pub approval_status : Approval
  pub qualifier : Option ℕ
  pub source_modified_at : ℕ
  pub provider_id : ℕ

-- `SourceBatch`
pub record SourceBatch : Type 0 where
  pub station_id : ℕ
  pub start : ℕ
  pub end : ℕ
  pub retrieved_at : ℕ
  pub observations : List Observation
  pub pages : List PageReceipt

pub record Cursor : Type 0 where
  pub monitor_id : ℕ
  pub series_id : ℕ
  pub cursor : ℕ

pub record Receipt : Type 0 where
  pub poll_id : ℕ
  pub monitor_id : ℕ
  pub retrieved_at : ℕ
  pub start : ℕ
  pub end : ℕ
  pub pages : List PageReceipt

pub record Version : Type 0 where
  pub version_id : ℕ
  pub monitor_id : ℕ
  pub series_id : ℕ
  pub observed_at : ℕ
  pub semantic_hash : ℕ
  pub value : Option ℤ
  pub unit : ℕ
  pub approval_status : Approval
  pub qualifier : Option ℕ
  pub source_modified_at : ℕ
  pub provider_id : ℕ
  pub poll_id : ℕ

pub record Current : Type 0 where
  pub monitor_id : ℕ
  pub series_id : ℕ
  pub observed_at : ℕ
  pub version_id : ℕ
  pub last_seen_modified_at : ℕ
  pub last_seen_provider_id : ℕ
  pub last_seen_poll_id : ℕ

pub record Dirty : Type 0 where
  pub monitor_id : ℕ
  pub interval_start : ℕ
  pub interval_end : ℕ

pub record SeriesSummary : Type 0 where
  pub series_id : ℕ
  pub sample_count : ℕ
  pub valid_count : ℕ
  pub latest_at : Option ℕ
  pub latest_value : Option ℤ
  pub min_value : Option ℤ
  pub max_value : Option ℤ
  pub unit : ℕ
  pub approval_counts : List (Approval × ℕ)
  pub qualifier_counts : List (ℕ × ℕ)

pub record Payload : Type 0 where
  pub policy_version : ℕ
  pub station_id : ℕ
  pub interval_start : ℕ
  pub interval_end : ℕ
  pub coverage_start : ℕ
  pub coverage_end : ℕ
  pub observation_count : ℕ
  pub series : List SeriesSummary

pub record EventRow : Type 0 where
  pub event_id : ℕ
  pub monitor_id : ℕ
  pub case_id : ℕ
  pub interval_start : ℕ
  pub interval_end : ℕ
  pub revision : ℕ
  pub supersedes_event_id : Option ℕ
  pub payload : Payload
  pub member_digest : ℕ

pub record EventMember : Type 0 where
  pub event_id : ℕ
  pub monitor_id : ℕ
  pub version_id : ℕ
  pub series_id : ℕ
  pub observed_at : ℕ

-- A row of `watch_outbox`, whose status is 'PENDING' until `_acknowledge` makes it 'DONE'.
pub record OutboxRow : Type 0 where
  pub event_id : ℕ
  pub monitor_id : ℕ
  pub interval_start : ℕ
  pub revision : ℕ
  pub pending : Bool

-- The evidence tables, which `ingest` and `seal_events` change.
pub record Ledger : Type 0 where
  pub cursors : List Cursor
  pub receipts : List Receipt
  pub versions : List Version
  pub currents : List Current
  pub dirty : List Dirty
  pub events : List EventRow
  pub members : List EventMember
  pub outbox : List OutboxRow

pub record Db : Type 0 where
  pub monitors : List MonitorRow
  pub leases : List PollLease
  pub ledger : Ledger
