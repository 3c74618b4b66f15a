-- ===== src/Watch/Records.antt =====
-- The rows of watch/store_schema.py and the values of watch/store.py and watch/observations.py.
-- Identifiers, digests, units and codes, which the code modelled here only compares, are numbers.
use watershed_memory.Base.{ℕ, Option, List}

-- `SeriesSpec`
pub record SeriesSpec : Type 0 where
  pub series_id : ℕ
  pub parameter_code : ℕ
  pub unit : ℕ
  pub statistic_id : Option ℕ

-- `MonitorConfig`
pub record MonitorConfig : Type 0 where
  pub monitor_id : ℕ
  pub station_id : ℕ
  pub case_id : ℕ
  pub start_at : ℕ
  pub series : List SeriesSpec
  pub policy_version : ℕ
  pub interval_seconds : ℕ
  pub poll_seconds : ℕ
  pub overlap_seconds : ℕ
  pub lease_seconds : ℕ

-- `PollLease`, and the row of `leases`.
pub record PollLease : Type 0 where
  pub monitor_id : ℕ
  pub token : ℕ
  pub start : ℕ
  pub end : ℕ
  pub acquired_at : ℕ
  pub expires_at : ℕ

-- The columns `status` takes in `monitors`, and `PollResult.outcome`.
pub data Status : Type 0 where
  ready events_ready rows_buffered no_source_change source_backoff : Status

pub record MonitorRow : Type 0 where
  pub config : MonitorConfig
  pub fetched_through : ℕ
  pub next_poll_at : ℕ
  pub consecutive_failures : ℕ
  pub last_error_code : Option ℕ
  pub status : Status
  pub observation_count : ℕ
  pub version_count : ℕ
  pub event_count : ℕ
  pub pending_count : ℕ
