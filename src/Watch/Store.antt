-- ===== src/Watch/Store.antt =====
-- `WatchStore` of watch/store.py. A method takes the database and returns the committed one, or the
-- exception that rolled its transaction back. A fresh `uuid4().hex` is an argument.
pub mod Leases
pub mod Backoff
pub mod Soundness
pub mod Reachability
pub mod Views
pub mod Commits
use watershed_memory.Base.{
  ℕ, suc, ◌+◌, ◌-◌, ◌*◌, ◌^◌, min, max, Bool, true, false, ◌&&◌, not, Option, none, some, List, [],
  ◌∷◌, ◌++◌, map, Result, ok, err, Fault, SourceCode, value_error, key_error, lease_lost,
  source_error, ◌>>=◌, ◌>>◌, raise_if, or_raise, ltb, leb, ◌==◌, length, is_some, if◌then◌else◌,
}
use watershed_memory.Base.Table.{find, select, delete, update}
use watershed_memory.Text.{Texts}
use watershed_memory.Time.{microseconds, plus_seconds, minus_seconds}
use watershed_memory.Watch.Records.{
  SeriesSpec, MonitorConfig, PollLease, Status, ready, events_ready, rows_buffered,
  no_source_change, source_backoff, MonitorRow,
}
use watershed_memory.Watch.Config.{eq_config}
use watershed_memory.Watch.Tables.{SourceBatch, Cursor, OutboxRow, EventRow, Ledger, Db}
use watershed_memory.Watch.Ingest.{Measurement, ingest}
use watershed_memory.Watch.Payloads.{Digests, sort}
use watershed_memory.Watch.Events.{seal_events}

abbrev pub of_id : ℕ → MonitorRow → Bool
of_id m row = row.config.monitor_id == m

abbrev pub lease_of : ℕ → PollLease → Bool
lease_of m l = l.monitor_id == m

-- `WHERE monitor_id=? AND token=?`
abbrev pub lease_held : ℕ → ℕ → PollLease → Bool
lease_held m token l = l.monitor_id == m && l.token == token

-- `_monitor`, and `get_config` through it.
unfoldable pub monitor : Db → ℕ → Result MonitorRow
monitor db m = or_raise (find (of_id m) db.monitors) key_error

unfoldable pub get_config : Db → ℕ → Result MonitorConfig
unfolding monitor
get_config db m = do row ← monitor db m; ok row.config

-- The row and the cursors of a new monitor.
unfoldable pub new_monitor : MonitorConfig → MonitorRow
new_monitor c = record {
  config = c;
  fetched_through = c.start_at;
  next_poll_at = c.start_at;
  consecutive_failures = 0;
  last_error_code = none;
  status = ready;
  observation_count = 0;
  version_count = 0;
  event_count = 0;
  pending_count = 0;
}

unfoldable pub new_cursors : MonitorConfig → List Cursor
new_cursors c =
    map
      (λ (s : SeriesSpec). record {
        monitor_id = c.monitor_id;
        series_id = s.series_id;
        cursor = c.start_at;
      })
      c.series

-- `register`: once registered, a configuration cannot change.
unfoldable pub register : MonitorConfig → Db → Result Db
unfolding new_monitor new_cursors
register c db = elim (find (of_id c.monitor_id) db.monitors) [
  | some row ↦ if eq_config row.config c then ok db else err value_error
  | none ↦ ok (record db {
    monitors = db.monitors ++ new_monitor c ∷ [];
    ledger = record (db.ledger) { cursors = db.ledger.cursors ++ new_cursors c };
  })
]

-- The window of a poll: from `overlap_seconds` before what is fetched, 24 hours at most.
unfoldable pub poll_window : MonitorRow → ℕ → Result (ℕ × ℕ)
poll_window row now = do
  back ← minus_seconds row.fetched_through row.config.overlap_seconds
  let start = max row.config.start_at back
  limit ← plus_seconds start 86400
  ok (start, min now limit)

-- Whether a lease of the monitor is still running.
unfoldable pub is_leased : Db → ℕ → ℕ → Bool
is_leased db m now = elim (find (lease_of m) db.leases) [
  | none ↦ false
  | some l ↦ ltb now l.expires_at
]

-- The lease for a window, and the database with it in the place of an expired one.
unfoldable pub grant_lease : ℕ → ℕ → MonitorRow → ℕ → ℕ × ℕ → Db → Result (Db × Option PollLease)
grant_lease token m row now (start, end_at) db = do
  expires ← plus_seconds now row.config.lease_seconds
  let lease : PollLease = record {
    monitor_id = m;
    token = token;
    start = start;
    end = end_at;
    acquired_at = now;
    expires_at = expires;
  }
  ok (record db { leases = delete (lease_of m) db.leases ++ lease ∷ [] }, some lease)

-- `acquire_poll`
unfoldable pub acquire_poll : ℕ → ℕ → ℕ → Db → Result (Db × Option PollLease)
acquire_poll token m now db = do
  row ← monitor db m
  if is_leased db m now
      then ok (db, none)
      else if ltb now row.next_poll_at
      then ok (db, none)
      else do
        (start, end_at) ← poll_window row now
        if leb end_at start then ok (db, none) else grant_lease token m row now (start, end_at) db

-- `_guard`: the caller still holds exactly the persisted lease.
unfoldable pub guard_lease : PollLease → ℕ → Db → Result MonitorRow
guard_lease lease now db = do
  persisted ← or_raise (find (lease_held lease.monitor_id lease.token) db.leases) lease_lost
  raise_if (not (leb persisted.acquired_at now && ltb now persisted.expires_at)) lease_lost
  raise_if
      (not (
        lease.start == persisted.start
        && lease.end == persisted.end
        && lease.acquired_at == persisted.acquired_at
        && lease.expires_at == persisted.expires_at))
      lease_lost
  monitor db lease.monitor_id

pub record PollResult : Type 0 where
  pub outcome : Status
  pub new_observations : ℕ
  pub corrected_observations : ℕ
  pub event_ids : List ℕ

unfoldable pub poll_outcome : List ℕ → ℕ → ℕ → Status
poll_outcome (_ ∷ _) new corrected = events_ready
poll_outcome [] new corrected =
    if ltb 0 new then rows_buffered else if ltb 0 corrected then rows_buffered else no_source_change

-- `UPDATE monitors SET …` of a successful poll.
unfoldable pub advance_row : ℕ → ℕ → Status → ℕ → ℕ → ℕ → MonitorRow → MonitorRow
advance_row fetched next outcome new corrected events row = record row {
  fetched_through = fetched;
  next_poll_at = next;
  consecutive_failures = 0;
  last_error_code = none;
  status = outcome;
  observation_count = row.observation_count + new;
  version_count = row.version_count + (new + corrected);
  event_count = row.event_count + events;
  pending_count = row.pending_count + events;
}

-- `DELETE FROM leases WHERE monitor_id=? AND token=?`
unfoldable pub drop_lease : PollLease → List PollLease → List PollLease
drop_lease lease = delete (lease_held lease.monitor_id lease.token)

module _ (texts : Texts) (sha : Measurement → ℕ) (digests : Digests) where
  -- The transaction of `commit_poll`, after the batch was validated against `config`.
  unfoldable pub commit_transaction :
      MonitorConfig → PollLease → SourceBatch → ℕ → Db → Result (Db × PollResult)
  commit_transaction config lease batch now db = do
    row ← guard_lease lease now db
    raise_if (not (eq_config config row.config)) lease_lost
    p ← ingest texts sha config batch db.ledger
    (ledger, event_ids) ← seal_events texts digests config batch.end p.ledger
    next ← plus_seconds now config.poll_seconds
    let outcome = poll_outcome event_ids p.new_count p.corrected
    let fetched = max row.fetched_through batch.end
    ok (
      record {
        monitors =
            update (of_id lease.monitor_id)
              (advance_row fetched next outcome p.new_count p.corrected (length event_ids))
              db.monitors;
        leases = drop_lease lease db.leases;
        ledger = ledger;
      },
      record {
        outcome = outcome;
        new_observations = p.new_count;
        corrected_observations = p.corrected;
        event_ids = event_ids;
      },
    )

  -- `commit_poll`; `validate` is `validate_batch`.
  unfoldable pub commit_poll :
      (SourceBatch → MonitorConfig → PollLease → ℕ → Result (Unit {0}))
      → PollLease
      → SourceBatch
      → ℕ
      → Db
      → Result (Db × PollResult)
  commit_poll validate lease batch now db = do
    config ← get_config db lease.monitor_id
    validate batch config lease now
    commit_transaction config lease batch now db

-- The delay of `fail_poll`, in seconds: doubled with each failure up to the twelfth, at least what
-- the source asked for, and an hour at most.
unfoldable pub backoff : ℕ → ℕ → Option ℕ → ℕ
backoff poll_seconds failures retry_after = min 3600 (
    max (poll_seconds * 2 ^ min (failures - 1) 12)
      (elim retry_after [ none ↦ 0 | some seconds ↦ seconds ]))

-- `SourceError.__init__` on the retry delay; the code is one of `SourceCode`.
unfoldable pub check_source_error : Option ℕ → Result (Unit {0})
check_source_error none = ok tt
check_source_error (some seconds) = raise_if (ltb 3600 seconds) value_error

-- `UPDATE monitors SET …` of a failed poll.
unfoldable pub fail_row : ℕ → ℕ → ℕ → MonitorRow → MonitorRow
fail_row failures code next row = record row {
  consecutive_failures = failures;
  last_error_code = some code;
  status = source_backoff;
  next_poll_at = next;
}

-- `fail_poll`; `code` is the text of the error's code.
unfoldable pub fail_poll : PollLease → ℕ → Option ℕ → ℕ → Db → Result Db
unfolding check_source_error
fail_poll lease code retry_after now db = do
  check_source_error retry_after
  row ← guard_lease lease now db
  let failures = min (row.consecutive_failures + 1) 1000000
  next ← plus_seconds now (backoff row.config.poll_seconds failures retry_after)
  ok (record db {
    monitors = update (of_id lease.monitor_id) (fail_row failures code next) db.monitors;
    leases = drop_lease lease db.leases;
  })

-- `pending_events`: the pending rows in the order of their intervals and revisions, joined with
-- their events, the first `limit` of them.
unfoldable pub take_rows {ℓ} : {A : Type ℓ} → ℕ → List A → List A
take_rows ℕ.zero xs = []
take_rows (suc n) [] = []
take_rows (suc n) (x ∷ xs) = x ∷ take_rows n xs

unfoldable pub join_events : List EventRow → List OutboxRow → List EventRow
join_events events [] = []
join_events events (o ∷ rest) =
    let others = join_events events rest in
    elim (find (λ (e : EventRow). e.event_id == o.event_id) events) [
      | none ↦ others
      | some e ↦ e ∷ others
    ]

unfoldable pub pending_events : ℕ → ℕ → Db → Result (List EventRow)
unfolding monitor join_events take_rows sort select
pending_events m limit db = do
  raise_if (not (leb 1 limit && leb limit 100)) value_error
  _ ← monitor db m
  ok (
      take_rows limit (
        join_events db.ledger.events (
          sort
            (λ (a b : OutboxRow).
              if a.interval_start == b.interval_start
              then ltb a.revision b.revision
              else ltb a.interval_start b.interval_start)
            (select (λ (o : OutboxRow). o.monitor_id == m && o.pending) db.ledger.outbox))))

-- What `status` reports of the lease and of the next poll; the other columns are the row's.
unfoldable pub lease_expiry : ℕ → Db → Option ℕ
lease_expiry m db = elim (find (lease_of m) db.leases) [ none ↦ none | some l ↦ some l.expires_at ]
