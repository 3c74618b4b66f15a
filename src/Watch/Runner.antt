-- ===== src/Watch/Runner.antt =====
-- `WatchRunner.tick` of watch/runner.py: one poll, from the lease to its commit or its back-off. The
-- source is an argument, and so are the times that the clock returns, in the order it is asked.
-- An exception that `tick` does not catch is the result; what was committed before stays committed.
pub mod Ticks
pub mod Loop
use watershed_memory.Base.{
  ℕ, ◌+◌, max, Option, none, some, Result, ok, err, Fault, SourceCode, value_error, lease_lost,
  source_error, ◌>>=◌, if◌then◌else◌, List, [],
}
use watershed_memory.Base.Table.{find}
use watershed_memory.Text.{Texts}
use watershed_memory.Time.{microseconds, plus_seconds}
use watershed_memory.Watch.Records.{MonitorConfig, PollLease, Status, MonitorRow}
use watershed_memory.Watch.Tables.{SourceBatch, Db}
use watershed_memory.Watch.Ingest.{Measurement}
use watershed_memory.Watch.Payloads.{Digests}
use watershed_memory.Watch.Store.{
  PollResult, monitor, acquire_poll, commit_poll, fail_poll, lease_expiry,
}

-- `TickResult.outcome`; `error_code` goes with it: that of the source error after a back-off,
-- 'LEASE_LOST' after a lost lease, and none otherwise.
pub data Outcome : Type 0 where
  not_due lease_was_lost : Outcome
  backed_off : SourceCode → Outcome
  polled : Status → Outcome

pub record TickResult : Type 0 where
  pub outcome : Outcome
  pub poll_result : Option PollResult
  pub next_poll_at : ℕ

-- The database after a call, and what it returned or raised.
abbrev pub Outcomes : Type 0
Outcomes = Db × Result TickResult

-- `self.store.status(monitor_id)["next_poll_at"]`, with the rest of the tick's result.
unfoldable pub report : ℕ → Outcome → Option PollResult → Db → Outcomes
report m outcome poll db = (
  db,
  do
    row ← monitor db m
    ok (record { outcome = outcome; poll_result = poll; next_poll_at = row.next_poll_at }),
)

-- The branch of `tick` without a lease: when to wake up.
unfoldable pub wake : ℕ → ℕ → Db → Result TickResult
wake m acquired_at db = do
  row ← monitor db m
  soon ← plus_seconds acquired_at 1
  let due = max row.next_poll_at soon
  ok (record {
    outcome = not_due;
    poll_result = none;
    next_poll_at = elim (lease_expiry m db) [ none ↦ due | some expires ↦ max due expires ];
  })

-- The clocks that a tick reads: at its start, after the source answered, and before a back-off that
-- follows a failed commit.
pub record Clocks : Type 0 where
  pub acquired_at : ℕ
  pub completed_at : ℕ
  pub failed_at : ℕ

-- The code of a source error, as it is stored.
abbrev pub code_of : SourceCode → ℕ
code_of SourceCode.schema = 0
code_of SourceCode.http = 1
code_of SourceCode.transport = 2
code_of SourceCode.pagination = 3
code_of SourceCode.bounds = 4
code_of SourceCode.data_conflict = 5

-- `fail_poll` with the handler of LeaseLost around it.
unfoldable pub settle_failure : ℕ → SourceCode → Result Db → Db → Outcomes
settle_failure m code (ok db') db = report m (backed_off code) none db'
settle_failure m code (err lease_lost) db = report m lease_was_lost none db
settle_failure m code (err fault) db = (db, err fault)

unfoldable pub record_failure : ℕ → PollLease → SourceCode → Option ℕ → ℕ → Db → Outcomes
record_failure m lease code retry now db =
    settle_failure m code (fail_poll lease (code_of code) retry now db) db

-- `commit_poll` with its two handlers.
unfoldable pub settle_commit : ℕ → PollLease → ℕ → Result (Db × PollResult) → Db → Outcomes
settle_commit m lease failed_at (ok (db', result)) db =
    report m (polled result.outcome) (some result) db'
settle_commit m lease failed_at (err lease_lost) db = report m lease_was_lost none db
settle_commit m lease failed_at (err (source_error code retry)) db =
    record_failure m lease code retry failed_at db
settle_commit m lease failed_at (err fault) db = (db, err fault)

module _ (texts : Texts) (sha : Measurement → ℕ) (digests : Digests)
    (validate : SourceBatch → MonitorConfig → PollLease → ℕ → Result (Unit {0}))
    (fetch : ℕ → ℕ → ℕ → Result SourceBatch) where
  -- What follows the answer of the source.
  unfoldable pub after_fetch : ℕ → PollLease → Clocks → Result SourceBatch → Db → Outcomes
  after_fetch m lease clocks (ok batch) db =
      settle_commit m lease clocks.failed_at
        (commit_poll texts sha digests validate lease batch clocks.completed_at db) db
  after_fetch m lease clocks (err (source_error code retry)) db =
      record_failure m lease code retry clocks.completed_at db
  after_fetch m lease clocks (err fault) db = (db, err fault)

  unfoldable pub after_acquire : ℕ → Clocks → Result (Db × Option PollLease) → Db → Outcomes
  after_acquire m clocks (err fault) db = (db, err fault)
  after_acquire m clocks (ok (db', none)) db = (db', wake m clocks.acquired_at db')
  after_acquire m clocks (ok (db', some lease)) db =
      after_fetch m lease clocks (fetch lease.start lease.end clocks.acquired_at) db'

  -- `tick`; `token` is the fresh token of a lease.
  unfoldable pub tick : ℕ → ℕ → Clocks → Db → Outcomes
  tick token m clocks db = after_acquire m clocks (acquire_poll token m clocks.acquired_at db) db
