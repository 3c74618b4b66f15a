-- ===== src/Watch/Runner/Ticks.antt =====
-- What a tick records when its source fails, and when one that was not due is to be repeated
-- (watch/runner.py).
use watershed_memory.Base.{
  ℕ, ◌+◌, ◌≤◌, ◌<◌, ◌≡◌, refl, true, leb, min, Option, none, some, Result, ok, err, SourceCode,
  lease_lost, source_error, arith, inl, inr, Option-cases, >>=-eq-ok,
}
use watershed_memory.Base.Table.{find, update}
use watershed_memory.Text.{Texts}
use watershed_memory.Time.{microseconds, max_instant, plus_seconds, plus_seconds-eq}
use watershed_memory.Watch.Records.{MonitorConfig, MonitorRow, PollLease, source_backoff}
use watershed_memory.Watch.Tables.{SourceBatch, Db}
use watershed_memory.Watch.Ingest.{Measurement}
use watershed_memory.Watch.Payloads.{Digests}
use watershed_memory.Watch.Store.{
  of_id, acquire_poll, guard_lease, drop_lease, fail_poll, fail_row, backoff, check_source_error,
  lease_expiry, monitor,
}
use watershed_memory.Watch.Store.Backoff.{backoff_bounds}
use watershed_memory.Watch.Store.Leases.{acquire_poll_guarded, fail_poll_once}
use watershed_memory.Watch.Store.Soundness.{find-update_row_self}
use watershed_memory.Watch.Runner.{
  TickResult, backed_off, report, wake, Clocks, code_of, settle_failure, record_failure,
  after_fetch, after_acquire, tick,
}

-- What a recorded failure leaves: the monitor backs off with one more failure and the code of the
-- source, its evidence is as before, and the lease is lost.
pub record BackedOff (m code now : ℕ) (retry : Option ℕ) (lease : PollLease) (db db' : Db)
    : Type 0 where
  pub before : MonitorRow
  pub after : MonitorRow
  pub was_found : find (of_id m) db.monitors ≡ some before
  pub is_found : find (of_id m) db'.monitors ≡ some after
  pub status : after.status ≡ source_backoff
  pub coded : after.last_error_code ≡ some code
  pub failures : after.consecutive_failures ≡ min (before.consecutive_failures + 1) 1000000
  pub due :
      after.next_poll_at
      ≡ now + microseconds (backoff before.config.poll_seconds after.consecutive_failures retry)
  pub ledger : db'.ledger ≡ db.ledger
  pub lost : (later : ℕ) → guard_lease lease later db' ≡ err lease_lost

fail_poll_recorded :
    (m code : ℕ) (retry : Option ℕ) (now : ℕ) (lease : PollLease) (row : MonitorRow) (db mid : Db)
    → check_source_error retry ≡ ok tt
    → guard_lease lease now mid ≡ ok row
    → find (of_id m) db.monitors ≡ some row
    → lease.monitor_id ≡ m
    → mid.monitors ≡ db.monitors
    → mid.ledger ≡ db.ledger
    → now + microseconds 3600 ≤ max_instant
    → (db' : Db) × (fail_poll lease code retry now mid ≡ ok db')
      × BackedOff m code now retry lease db db'
unfolding fail_poll fail_row plus_seconds
fail_poll_recorded m code retry now lease row db mid fine guarded known named rows same room =
    let failures : ℕ = min (row.consecutive_failures + 1) 1000000 in
    let wait : ℕ = backoff row.config.poll_seconds failures retry in
    let next : ℕ = now + microseconds wait in
    let short = backoff_bounds row.config.poll_seconds failures retry in
    let f : MonitorRow → MonitorRow = fail_row failures code next in
    let db' : Db = record mid {
      monitors = update (of_id lease.monitor_id) f mid.monitors;
      leases = drop_lease lease mid.leases;
    } in
    let timed : leb (now + microseconds wait) max_instant ≡ true = ground arith in
    let done : fail_poll lease code retry now mid ≡ ok db' = rw (fine, guarded, timed) refl in
    (
      db',
      done,
      record {
        before = row;
        after = f row;
        was_found = known;
        is_found = rw (rows, named) (find-update_row_self m f (λ r. refl) db.monitors row known);
        status = refl;
        coded = refl;
        failures = refl;
        due = refl;
        ledger = same;
        lost = λ later. fail_poll_once lease code retry now later mid db' done;
      },
    )

-- A tick that is granted a lease and whose source then fails, with a requested delay of an hour at
-- most, while the lease runs and an hour before the end of time, returns and reports the failure:
-- the row of the monitor backs off with the code of the source, one more failure up to a million,
-- and the time that the delay gives and the result names; observations and events are as before,
-- and the lease is lost.
pub tick_backs_off :
    (texts : Texts) (sha : Measurement → ℕ) (digests : Digests)
    (validate : SourceBatch → MonitorConfig → PollLease → ℕ → Result (Unit {0}))
    (fetch : ℕ → ℕ → ℕ → Result SourceBatch) (token m : ℕ) (clocks : Clocks) (db mid : Db)
    (lease : PollLease) (code : SourceCode) (retry : Option ℕ)
    → acquire_poll token m clocks.acquired_at db ≡ ok (mid, some lease)
    → fetch lease.start lease.end clocks.acquired_at ≡ err (source_error code retry)
    → check_source_error retry ≡ ok tt
    → clocks.acquired_at ≤ clocks.completed_at
    → clocks.completed_at < lease.expires_at
    → clocks.completed_at + microseconds 3600 ≤ max_instant
    → (db' : Db) × (b : BackedOff m (code_of code) clocks.completed_at retry lease db db') × (tick
          texts sha digests validate fetch token m clocks db
        ≡ (
          db',
          ok (record {
            outcome = backed_off code;
            poll_result = none;
            next_poll_at = b.after.next_poll_at;
          }),
        ))
unfolding tick after_acquire after_fetch record_failure settle_failure report monitor
tick_backs_off texts sha digests validate fetch token m clocks db mid lease code retry granted
      failed fine later early room =
    let (row, known, guarded, named, rows, same) =
      acquire_poll_guarded token m clocks.acquired_at clocks.completed_at db mid lease granted later
        early in
    let (db', done, b) =
      fail_poll_recorded m (code_of code) retry clocks.completed_at lease row db mid fine guarded
        known named rows same room in
    (db', b, rw (granted, failed, done, b.is_found) refl)

-- A tick that was not due is to be repeated after a second at least, and not before a running
-- lease expires.
pub wake_later :
    (m now : ℕ) (db : Db) (r : TickResult)
    → wake m now db ≡ ok r
    → (now + microseconds 1 ≤ r.next_poll_at)
      × ((expires : ℕ) → lease_expiry m db ≡ some expires → expires ≤ r.next_poll_at)
unfolding wake
wake_later m now db r h =
    let (row, e1, k1) = >>=-eq-ok (monitor db m) _ h in
    let (soon, e2, k2) = >>=-eq-ok (plus_seconds now 1) _ k1 in
    let later = plus_seconds-eq now 1 soon e2 in
    elim (Option-cases (lease_expiry m db)) [
      | inl free ↦ (ground arith, λ expires e. ground arith)
      | inr (until, held) ↦ (ground arith, λ expires e. ground arith)
    ]
