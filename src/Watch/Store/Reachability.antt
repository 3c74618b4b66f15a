-- ===== src/Watch/Store/Reachability.antt =====
-- Every database that calls of `WatchStore` can produce from an empty one is sound, whatever the
-- order of the calls, their times and their callers (watch/store.py).
use watershed_memory.Base.{
  ℕ, ◌+◌, ◌≡◌, refl, Option, [], ◌∷◌, Result, ok, >>=-eq-ok, >>-eq-ok, min, ◌==◌, arith, inl, inr,
  Bool-cases, Option-cases,
}
use watershed_memory.Base.Table.{find, update, count, find-append_none, find-append_some}
use watershed_memory.Text.{Texts}
use watershed_memory.Time.{plus_seconds}
use watershed_memory.Watch.Records.{MonitorConfig, PollLease, MonitorRow}
use watershed_memory.Watch.Tables.{SourceBatch, Db}
use watershed_memory.Watch.Ingest.{Measurement}
use watershed_memory.Watch.Payloads.{Digests}
use watershed_memory.Watch.Events.{latest_event}
use watershed_memory.Watch.Store.{
  of_id, PollResult, guard_lease, get_config, register, new_monitor, acquire_poll, grant_lease,
  fail_poll, fail_row, backoff, check_source_error, commit_poll,
}
use watershed_memory.Watch.Store.Soundness.{
  IsSound, Tallies, commit_transaction-IsSound, guard_lease_monitor, find-update_row_self,
  find-update_row_other,
}

abbrev pub empty : Db
empty = record {
  monitors = [];
  leases = [];
  ledger = record {
    cursors = [];
    receipts = [];
    versions = [];
    currents = [];
    dirty = [];
    events = [];
    members = [];
    outbox = [];
  };
}

pub empty-IsSound : IsSound empty
unfolding find count latest_event
empty-IsSound = record {
  tallied = λ m. (refl, refl, refl, refl);
  consistent = record { counted_up = refl; numbered = tt; linked = tt };
  revised = λ m s. (refl, refl);
}

-- A change that keeps the ledger's observations and events, and every monitor's counters.
IsSound-keeps :
    (db db' : Db)
    → db'.ledger.versions ≡ db.ledger.versions
    → db'.ledger.currents ≡ db.ledger.currents
    → db'.ledger.events ≡ db.ledger.events
    → db'.ledger.outbox ≡ db.ledger.outbox
    → ((m : ℕ)
        → Tallies m (find (of_id m) db.monitors) db.ledger
        → Tallies m (find (of_id m) db'.monitors) db.ledger)
    → IsSound db
    → IsSound db'
IsSound-keeps db db' vs cs es os ms s = record {
  tallied = λ m. rw (vs, cs, es, os) (ms m (s.tallied m));
  consistent = record {
    counted_up = rw vs s.consistent.counted_up;
    numbered = rw vs s.consistent.numbered;
    linked = rw (vs, cs) s.consistent.linked;
  };
  revised = rw es s.revised;
}

register-IsSound :
    (c : MonitorConfig) (db db' : Db) → register c db ≡ ok db' → IsSound db → IsSound db'
unfolding register new_monitor find
register-IsSound c db db' h s = elim (Option-cases (find (of_id c.monitor_id) db.monitors)) [
  | inr (row, known) ↦ let e : db ≡ db' = ground arith in rw (← e) s
  | inl unknown ↦
      IsSound-keeps db db' (ground arith) (ground arith) (ground arith) (ground arith)
        (λ m t. elim (Option-cases (find (of_id m) db.monitors)) [
          | inr (row, known) ↦
              ground (arith, find-append_some (of_id m) db.monitors (new_monitor c ∷ []) row known)
          | inl absent ↦
              ground (arith, find-append_none (of_id m) db.monitors (new_monitor c ∷ []) absent)
        ])
        s
]

acquire_poll-IsSound :
    (token m now : ℕ) (db db' : Db) (lease : Option PollLease)
    → acquire_poll token m now db ≡ ok (db', lease)
    → IsSound db
    → IsSound db'
unfolding acquire_poll grant_lease
acquire_poll-IsSound token m now db db' lease h s =
    let kept : (db'.monitors ≡ db.monitors) × (db'.ledger ≡ db.ledger) = ground arith in
    record {
      tallied = λ k. rw (kept.0, kept.1) (s.tallied k);
      consistent = rw (kept.1) s.consistent;
      revised = rw (kept.1) s.revised;
    }

fail_poll-IsSound :
    (lease : PollLease) (code : ℕ) (retry : Option ℕ) (now : ℕ) (db db' : Db)
    → fail_poll lease code retry now db ≡ ok db'
    → IsSound db
    → IsSound db'
unfolding fail_poll fail_row
fail_poll-IsSound lease code retry now db db' h s =
    let (row, guarded, k) =
      >>=-eq-ok (guard_lease lease now db) _ (>>-eq-ok (check_source_error retry) _ h) in
    let failures : ℕ = min (row.consecutive_failures + 1) 1000000 in
    let (due, timed, k') =
      >>=-eq-ok (plus_seconds now (backoff row.config.poll_seconds failures retry)) _ k in
    let known = guard_lease_monitor lease now db row guarded in
    let f : MonitorRow → MonitorRow = fail_row failures code due in
    let same : db'.ledger ≡ db.ledger = ground arith in
    let rows : db'.monitors ≡ update (of_id lease.monitor_id) f db.monitors = ground arith in
    IsSound-keeps db db' (rw same) (rw same) (rw same) (rw same)
      (λ m t. rw rows (elim (Bool-cases (lease.monitor_id == m)) [
        | inl mine ↦
            ground
              (arith, find-update_row_self lease.monitor_id f (λ r. refl) db.monitors row known)
        | inr other ↦
            ground (arith, find-update_row_other lease.monitor_id f (λ r. refl) m db.monitors other)
      ]))
      s

commit_poll-IsSound :
    (texts : Texts) (sha : Measurement → ℕ) (digests : Digests)
    (validate : SourceBatch → MonitorConfig → PollLease → ℕ → Result (Unit {0})) (lease : PollLease)
    (batch : SourceBatch) (now : ℕ) (db db' : Db) (result : PollResult)
    → commit_poll texts sha digests validate lease batch now db ≡ ok (db', result)
    → IsSound db
    → IsSound db'
unfolding commit_poll
commit_poll-IsSound texts sha digests validate lease batch now db db' result h s =
    let (config, e, k) = >>=-eq-ok (get_config db lease.monitor_id) _ h in
    let (_, e', k') = >>=-eq-ok (validate batch config lease now) _ k in
    commit_transaction-IsSound texts sha digests config lease batch now db db' result k' s

module _ (texts : Texts) (sha : Measurement → ℕ) (digests : Digests)
    (validate : SourceBatch → MonitorConfig → PollLease → ℕ → Result (Unit {0})) where
  -- A call that commits. A call that raises is rolled back and leaves the database as it was.
  pub data Step (db db' : Db) : Type 0 where
    registers : (c : MonitorConfig) → register c db ≡ ok db' → Step db db'
    acquires :
        (token m now : ℕ) (lease : Option PollLease)
        → acquire_poll token m now db ≡ ok (db', lease)
        → Step db db'
    commits :
        (lease : PollLease) (batch : SourceBatch) (now : ℕ) (result : PollResult)
        → commit_poll texts sha digests validate lease batch now db ≡ ok (db', result)
        → Step db db'
    fails :
        (lease : PollLease) (code : ℕ) (retry : Option ℕ) (now : ℕ)
        → fail_poll lease code retry now db ≡ ok db'
        → Step db db'

  pub data Reach : Db → Type 0 where
    start : Reach empty
    next : {db db' : Db} → Reach db → Step db db' → Reach db'

  pub Step-IsSound : (db db' : Db) → Step db db' → IsSound db → IsSound db'
  Step-IsSound db db' (registers c h) s = register-IsSound c db db' h s
  Step-IsSound db db' (acquires token m now lease h) s =
      acquire_poll-IsSound token m now db db' lease h s
  Step-IsSound db db' (commits lease batch now result h) s =
      commit_poll-IsSound texts sha digests validate lease batch now db db' result h s
  Step-IsSound db db' (fails lease code retry now h) s =
      fail_poll-IsSound lease code retry now db db' h s

  -- Whatever calls of the store committed since it was empty: the counters of observations,
  -- versions, events and pending events of every monitor are the numbers of its current rows, its
  -- versions, its events and its pending rows of the outbox; the version numbers are 1, 2, 3, … in
  -- the order of the table, and every current row points at a stored version; and the events of
  -- every interval have the revisions 1, 2, 3, … in the order of the table, each of them once.
  pub Reach-IsSound : (db : Db) → Reach db → IsSound db
  Reach-IsSound db start = empty-IsSound
  Reach-IsSound db (next r st) = Step-IsSound _ db st (Reach-IsSound _ r)
