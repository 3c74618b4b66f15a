-- ===== src/Watch/Store/Soundness.antt =====
-- The invariant of the watch database, kept by every method of `WatchStore` (watch/store.py): the
-- counters of each monitor are the sizes of its tables, the evidence tables are consistent, and the
-- revisions of the events of an interval count up from one.
use mathlib.Core.Path.{subst}
use watershed_memory.Base.{
  ℕ, ◌+◌, max, ◌≡◌, refl, true, false, Option, none, some, List, ok, >>=-eq-ok, ◌==◌, length, arith,
  inl, inr, Bool-cases,
}
use watershed_memory.Base.Table.{
  find, update, count, find_sound, find-update_self, find-update_other,
}
use watershed_memory.Text.{Texts}
use watershed_memory.Time.{plus_seconds}
use watershed_memory.Watch.Records.{MonitorConfig, PollLease, MonitorRow}
use watershed_memory.Watch.Tables.{SourceBatch, Ledger, Db}
use watershed_memory.Watch.Config.{eq_config}
use watershed_memory.Watch.Ingest.{Measurement, Progress, ingest, next_id}
use watershed_memory.Watch.Ingest.Counting.{
  of_monitor, gained, ingest_items-Counted, ingest_items-KeepsEvents,
}
use watershed_memory.Watch.Ingest.Observations.{current_of_monitor, ingest_items-Observed}
use watershed_memory.Watch.Ingest.Consistency.{IsConsistent, ingest_items-IsConsistent}
use watershed_memory.Watch.Payloads.{Digests}
use watershed_memory.Watch.Events.{seal_events}
use watershed_memory.Watch.Events.Sealing.{
  event_of_monitor, pending_of_monitor, IsRevised, seal_all-Appends, seal_all-IsRevised,
  seal_all-KeepsData,
}
use watershed_memory.Watch.Store.{
  of_id, monitor, guard_lease, drop_lease, advance_row, poll_outcome, PollResult,
  commit_transaction,
}

-- A counter of a monitor's row; a monitor that is not registered counts nothing.
abbrev pub column : (MonitorRow → ℕ) → Option MonitorRow → ℕ
column f none = 0
column f (some row) = f row

abbrev pub Tallies : ℕ → Option MonitorRow → Ledger → Type 0
Tallies m row db =
    (column (λ r. r.observation_count) row ≡ count (current_of_monitor m) db.currents)
    × (column (λ r. r.version_count) row ≡ count (of_monitor m) db.versions)
    × (column (λ r. r.event_count) row ≡ count (event_of_monitor m) db.events)
    × (column (λ r. r.pending_count) row ≡ count (pending_of_monitor m) db.outbox)

pub record IsSound (db : Db) : Type 0 where
  pub tallied : (m : ℕ) → Tallies m (find (of_id m) db.monitors) db.ledger
  pub consistent : IsConsistent db.ledger
  pub revised : IsRevised db.ledger.events

pub guard_lease_monitor :
    (lease : PollLease) (now : ℕ) (db : Db) (row : MonitorRow)
    → guard_lease lease now db ≡ ok row
    → find (of_id lease.monitor_id) db.monitors ≡ some row
unfolding guard_lease monitor
guard_lease_monitor lease now db row h = ground arith

pub eq_config_id : (a b : MonitorConfig) → eq_config a b ≡ true → a.monitor_id ≡ b.monitor_id
unfolding eq_config
eq_config_id a b h = ground arith

-- An update of one monitor's row that keeps its name shows in that row and in no other.
module _ (lm : ℕ) (f : MonitorRow → MonitorRow)
    (keeps : (r : MonitorRow) → (f r).config ≡ r.config) where
  pub find-update_row_self :
      (rows : List MonitorRow) (row : MonitorRow)
      → find (of_id lm) rows ≡ some row
      → find (of_id lm) (update (of_id lm) f rows) ≡ some (f row)
  find-update_row_self rows row h =
      ground (arith, find-update_self (of_id lm) f rows (λ a e. rw keeps e))

  pub find-update_row_other :
      (m : ℕ) (rows : List MonitorRow)
      → (lm == m) ≡ false
      → find (of_id m) (update (of_id lm) f rows) ≡ find (of_id m) rows
  find-update_row_other m rows h =
      find-update_other (of_id m) (of_id lm) f rows (λ a e. ground arith)
        (λ a e. rw keeps (ground arith))

module _ (texts : Texts) (sha : Measurement → ℕ) (digests : Digests) where
  -- The ledger that a commit leaves, with what it counted for each monitor.
  pub ingest_then_seal :
      (config : MonitorConfig) (batch : SourceBatch) (db : Ledger) (p : Progress) (db' : Ledger)
      (ids : List ℕ)
      → ingest texts sha config batch db ≡ ok p
      → seal_events texts digests config batch.end p.ledger ≡ ok (db', ids)
      → IsConsistent db
      → (m : ℕ)
      → (count (current_of_monitor m) db'.currents
          ≡ count (current_of_monitor m) db.currents + gained config m p.new_count)
        × (count (of_monitor m) db'.versions
            ≡ count (of_monitor m) db.versions + gained config m (p.new_count + p.corrected))
        × (count (event_of_monitor m) db'.events
            ≡ count (event_of_monitor m) db.events + gained config m (length ids))
        × (count (pending_of_monitor m) db'.outbox
            ≡ count (pending_of_monitor m) db.outbox + gained config m (length ids))
  unfolding ingest seal_events
  ingest_then_seal config batch db p db' ids h k i m =
      let (vs, cs) = seal_all-KeepsData texts digests config _ p.ledger db' ids k in
      let (evs, out) =
        ingest_items-KeepsEvents texts sha config (next_id db.receipts) batch.observations _ p h in
      rw (vs, cs, ← evs, ← out)
        (ground (
          arith,
          ingest_items-Observed texts sha config (next_id db.receipts) m batch.observations _ p
              (record { counted_up = i.counted_up; numbered = i.numbered; linked = i.linked }) h,
          ingest_items-Counted texts sha config (next_id db.receipts) m batch.observations _ p h,
          seal_all-Appends texts digests config m _ p.ledger db' ids k,
        ))

  ledger-IsConsistent :
      (config : MonitorConfig) (batch : SourceBatch) (db : Ledger) (p : Progress) (db' : Ledger)
      (ids : List ℕ)
      → ingest texts sha config batch db ≡ ok p
      → seal_events texts digests config batch.end p.ledger ≡ ok (db', ids)
      → IsConsistent db
      → IsConsistent db'
  unfolding ingest seal_events
  ledger-IsConsistent config batch db p db' ids h k i =
      let (vs, cs) = seal_all-KeepsData texts digests config _ p.ledger db' ids k in
      let j : IsConsistent p.ledger =
        ingest_items-IsConsistent texts sha config (next_id db.receipts) batch.observations _ p h
          (record { counted_up = i.counted_up; numbered = i.numbered; linked = i.linked }) in
      record {
        counted_up = rw vs j.counted_up;
        numbered = rw vs j.numbered;
        linked = rw (vs, cs) j.linked;
      }

  ledger-IsRevised :
      (config : MonitorConfig) (batch : SourceBatch) (db : Ledger) (p : Progress) (db' : Ledger)
      (ids : List ℕ)
      → ingest texts sha config batch db ≡ ok p
      → seal_events texts digests config batch.end p.ledger ≡ ok (db', ids)
      → IsRevised db.events
      → IsRevised db'.events
  unfolding ingest seal_events
  ledger-IsRevised config batch db p db' ids h k r =
      let (evs, out) =
        ingest_items-KeepsEvents texts sha config (next_id db.receipts) batch.observations _ p h in
      seal_all-IsRevised texts digests config _ p.ledger db' ids k (rw evs r)

  -- What a committed poll has gone through, step by step.
  pub record Committed (config : MonitorConfig) (lease : PollLease) (batch : SourceBatch) (now : ℕ)
      (db db' : Db) (result : PollResult) : Type 0 where
    pub row : MonitorRow
    pub progress : Progress
    pub sealed : Ledger
    pub next : ℕ
    pub guarded : guard_lease lease now db ≡ ok row
    pub same_config : eq_config config row.config ≡ true
    pub ingested : ingest texts sha config batch db.ledger ≡ ok progress
    pub sealing :
        seal_events texts digests config batch.end progress.ledger ≡ ok (sealed, result.event_ids)
    pub monitors :
        db'.monitors
        ≡ update
            (of_id lease.monitor_id)
            (advance_row
              (max row.fetched_through batch.end)
              next
              result.outcome
              progress.new_count
              progress.corrected
              (length result.event_ids))
            db.monitors
    pub leases : db'.leases ≡ drop_lease lease db.leases
    pub ledger : db'.ledger ≡ sealed
    pub counted :
        (result.new_observations ≡ progress.new_count)
        × (result.corrected_observations ≡ progress.corrected)
    pub outcome :
        result.outcome ≡ poll_outcome result.event_ids progress.new_count progress.corrected
    pub due : plus_seconds now config.poll_seconds ≡ ok next

  pub commit_transaction-Committed :
      (config : MonitorConfig) (lease : PollLease) (batch : SourceBatch) (now : ℕ) (db db' : Db)
      (result : PollResult)
      → commit_transaction texts sha digests config lease batch now db ≡ ok (db', result)
      → Committed config lease batch now db db' result
  unfolding commit_transaction
  commit_transaction-Committed config lease batch now db db' result h =
      let (row, guarded, h1) = >>=-eq-ok (guard_lease lease now db) _ h in
      elim (Bool-cases (eq_config config row.config)) [
        | inr differs ↦ absurd (ground arith)
        | inl same ↦
            let (p, ingested, h2) =
              >>=-eq-ok (ingest texts sha config batch db.ledger) _ (rw same at h1) in
            let ((sealed, ids), sealing, h3) =
              >>=-eq-ok (seal_events texts digests config batch.end p.ledger) _ h2 in
            let (next, due, h4) = >>=-eq-ok (plus_seconds now config.poll_seconds) _ h3 in
            let e : ids ≡ result.event_ids = ground arith in
            record {
              row = row;
              progress = p;
              sealed = sealed;
              next = next;
              guarded = guarded;
              same_config = same;
              ingested = ingested;
              sealing =
                  subst (λ l. seal_events texts digests config batch.end p.ledger ≡ ok (sealed, l))
                    e sealing;
              monitors = ground arith;
              leases = ground arith;
              ledger = ground arith;
              counted = ground arith;
              outcome = ground arith;
              due = due;
            }
      ]

  commit_transaction-tallied :
      (config : MonitorConfig) (lease : PollLease) (batch : SourceBatch) (now : ℕ) (db db' : Db)
      (result : PollResult)
      → Committed config lease batch now db db' result
      → IsConsistent db.ledger
      → (m : ℕ) → Tallies m (find (of_id m) db.monitors) db.ledger
      → Tallies m (find (of_id m) db'.monitors) db'.ledger
  unfolding advance_row
  commit_transaction-tallied config lease batch now db db' result c i m h =
      let known : find (of_id lease.monitor_id) db.monitors ≡ some c.row =
        guard_lease_monitor lease now db c.row c.guarded in
      let named : of_id lease.monitor_id c.row ≡ true =
        find_sound (of_id lease.monitor_id) db.monitors c.row known in
      let same : config.monitor_id ≡ c.row.config.monitor_id =
        eq_config_id config c.row.config c.same_config in
      let f : MonitorRow → MonitorRow =
        advance_row (max c.row.fetched_through batch.end) c.next result.outcome c.progress.new_count
          c.progress.corrected (length result.event_ids) in
      rw (c.monitors, c.ledger)
        (elim (Bool-cases (lease.monitor_id == m)) [
          | inl mine ↦ ground (
            arith,
            find-update_row_self lease.monitor_id f (λ r. refl) db.monitors c.row known,
            ingest_then_seal config batch db.ledger c.progress c.sealed result.event_ids c.ingested
                c.sealing i m,
          )
          | inr other ↦ ground (
            arith,
            find-update_row_other lease.monitor_id f (λ r. refl) m db.monitors other,
            ingest_then_seal config batch db.ledger c.progress c.sealed result.event_ids c.ingested
                c.sealing i m,
          )
        ])

  -- A committed poll keeps the invariant.
  pub commit_transaction-IsSound :
      (config : MonitorConfig) (lease : PollLease) (batch : SourceBatch) (now : ℕ) (db db' : Db)
      (result : PollResult)
      → commit_transaction texts sha digests config lease batch now db ≡ ok (db', result)
      → IsSound db
      → IsSound db'
  commit_transaction-IsSound config lease batch now db db' result h s =
      let c : Committed config lease batch now db db' result =
        commit_transaction-Committed config lease batch now db db' result h in
      record {
        tallied = λ m.
            commit_transaction-tallied config lease batch now db db' result c s.consistent m
              (s.tallied m);
        consistent = rw c.ledger (
            ledger-IsConsistent config batch db.ledger c.progress c.sealed result.event_ids
              c.ingested c.sealing s.consistent);
        revised = rw c.ledger (
            ledger-IsRevised config batch db.ledger c.progress c.sealed result.event_ids c.ingested
              c.sealing s.revised);
      }
