-- ===== src/Watch/Store/Commits.antt =====
-- What `commit_poll` of watch/store.py does to the lease that it used, and what its result says.
use watershed_memory.Base.{
  ℕ, ◌+◌, ◌≡◌, refl, sym, max, length, Result, ok, err, lease_lost, none, some, >>=-eq-ok, arith,
}
use mathlib.Core.Path.{subst}
use watershed_memory.Base.Table.{find, find_sound, count}
use watershed_memory.Text.{Texts}
use watershed_memory.Time.{microseconds, plus_seconds-eq}
use watershed_memory.Watch.Records.{MonitorConfig, MonitorRow, PollLease}
use watershed_memory.Watch.Tables.{SourceBatch, Db}
use watershed_memory.Watch.Ingest.{Measurement}
use watershed_memory.Watch.Ingest.Counting.{of_monitor}
use watershed_memory.Watch.Ingest.Consistency.{IsConsistent}
use watershed_memory.Watch.Ingest.Observations.{current_of_monitor}
use watershed_memory.Watch.Payloads.{Digests}
use watershed_memory.Watch.Events.Sealing.{event_of_monitor, pending_of_monitor}
use watershed_memory.Watch.Store.{
  of_id, PollResult, commit_poll, get_config, monitor, guard_lease, lease_held, advance_row,
}
use watershed_memory.Watch.Store.Leases.{drop_lease_lost, guard_lease_lost}
use watershed_memory.Watch.Store.Soundness.{
  Committed, commit_transaction-Committed, guard_lease_monitor, eq_config_id, find-update_row_self,
  ingest_then_seal,
}

-- A lease whose poll was committed is lost from then on, so it cannot be committed again.
pub commit_poll_once :
    (texts : Texts) (sha : Measurement → ℕ) (digests : Digests)
    (validate : SourceBatch → MonitorConfig → PollLease → ℕ → Result (Unit {0})) (lease : PollLease)
    (batch : SourceBatch) (now later : ℕ) (db db' : Db) (result : PollResult)
    → commit_poll texts sha digests validate lease batch now db ≡ ok (db', result)
    → guard_lease lease later db' ≡ err lease_lost
unfolding commit_poll
commit_poll_once texts sha digests validate lease batch now later db db' result h =
    let (config, e, k) = >>=-eq-ok (get_config db lease.monitor_id) _ h in
    let (_, e', k') = >>=-eq-ok (validate batch config lease now) _ k in
    let c =
      commit_transaction-Committed texts sha digests config lease batch now db db' result k' in
    guard_lease_lost lease later db' (
      subst (λ ls. find (lease_held lease.monitor_id lease.token) ls ≡ none) (sym c.leases)
        (drop_lease_lost lease db.leases))

-- The rows that a commit added are those that its result counts, and the row of the monitor has the
-- outcome of the result.
pub record IsReported (m now : ℕ) (result : PollResult) (db db' : Db) : Type 0 where
  pub observations :
      count (current_of_monitor m) db'.ledger.currents
      ≡ count (current_of_monitor m) db.ledger.currents + result.new_observations
  pub versions :
      count (of_monitor m) db'.ledger.versions
      ≡ count (of_monitor m) db.ledger.versions
        + (result.new_observations + result.corrected_observations)
  pub events :
      count (event_of_monitor m) db'.ledger.events
      ≡ count (event_of_monitor m) db.ledger.events + length result.event_ids
  pub pending :
      count (pending_of_monitor m) db'.ledger.outbox
      ≡ count (pending_of_monitor m) db.ledger.outbox + length result.event_ids
  pub row : MonitorRow
  pub found : find (of_id m) db'.monitors ≡ some row
  pub outcome : row.status ≡ result.outcome
  pub recovered : (row.consecutive_failures ≡ 0) × (row.last_error_code ≡ none)
  pub due : row.next_poll_at ≡ now + microseconds row.config.poll_seconds

Committed-IsReported :
    (texts : Texts) (sha : Measurement → ℕ) (digests : Digests) (config : MonitorConfig)
    (lease : PollLease) (batch : SourceBatch) (now : ℕ) (db db' : Db) (result : PollResult)
    → IsConsistent db.ledger
    → get_config db lease.monitor_id ≡ ok config
    → Committed texts sha digests config lease batch now db db' result
    → IsReported lease.monitor_id now result db db'
unfolding get_config monitor advance_row
Committed-IsReported texts sha digests config lease batch now db db' result i e c =
    let m = lease.monitor_id in
    let known : find (of_id m) db.monitors ≡ some c.row =
      guard_lease_monitor lease now db c.row c.guarded in
    let named : c.row.config.monitor_id ≡ m =
      ground (arith, find_sound (of_id m) db.monitors c.row known) in
    let mine : config.monitor_id ≡ m =
      ground (arith, eq_config_id config c.row.config c.same_config) in
    let registered : c.row.config ≡ config = ground arith in
    let (new, corrected) = c.counted in
    let (os, vs, es, ps) =
      ingest_then_seal texts sha digests config batch db.ledger c.progress c.sealed result.event_ids
        c.ingested c.sealing i m in
    let f : MonitorRow → MonitorRow =
      advance_row (max c.row.fetched_through batch.end) c.next result.outcome c.progress.new_count
        c.progress.corrected (length result.event_ids) in
    record {
      observations = rw (c.ledger, new) (ground arith);
      versions = rw (c.ledger, new, corrected) (ground arith);
      events = rw c.ledger (ground arith);
      pending = rw c.ledger (ground arith);
      row = f c.row;
      found = rw c.monitors (find-update_row_self m f (λ r. refl) db.monitors c.row known);
      outcome = refl;
      recovered = (refl, refl);
      due = rw registered (plus_seconds-eq now config.poll_seconds c.next c.due);
    }

-- Where versions are numbered and current rows point at them, the result of a committed poll
-- counts what the commit added for the monitor: current rows, versions, events and pending rows of
-- the outbox; and the row of the monitor has the outcome of the result, no failure, no error code,
-- and its poll interval later as the next time.
pub commit_poll-IsReported :
    (texts : Texts) (sha : Measurement → ℕ) (digests : Digests)
    (validate : SourceBatch → MonitorConfig → PollLease → ℕ → Result (Unit {0})) (lease : PollLease)
    (batch : SourceBatch) (now : ℕ) (db db' : Db) (result : PollResult)
    → IsConsistent db.ledger
    → commit_poll texts sha digests validate lease batch now db ≡ ok (db', result)
    → IsReported lease.monitor_id now result db db'
unfolding commit_poll
commit_poll-IsReported texts sha digests validate lease batch now db db' result i h =
    let (config, e, k) = >>=-eq-ok (get_config db lease.monitor_id) _ h in
    let (_, e', k') = >>=-eq-ok (validate batch config lease now) _ k in
    Committed-IsReported texts sha digests config lease batch now db db' result i e
      (commit_transaction-Committed texts sha digests config lease batch now db db' result k')
