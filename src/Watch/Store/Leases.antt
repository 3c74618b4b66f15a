-- ===== src/Watch/Store/Leases.antt =====
-- Poll leases: the window that a lease covers, exclusion while it runs, and its single use.
use watershed_memory.Base.{
  ℕ, ◌+◌, ◌-◌, ◌≤◌, ◌<◌, max, ◌≡◌, ◌≢◌, Option, none, some, List, [], ◌∷◌, ok, err, lease_lost,
  >>=-eq-ok, leb, arith, inl, inr, Option-cases, if◌then◌else◌,
}
use watershed_memory.Base.Table.{
  find, delete, find-delete_self, find-append_none, find-delete_within,
}
use watershed_memory.Time.{microseconds, plus_seconds, minus_seconds}
use watershed_memory.Watch.Records.{PollLease, MonitorRow}
use watershed_memory.Watch.Tables.{Db}
use watershed_memory.Watch.Store.{
  of_id, lease_of, lease_held, monitor, poll_window, is_leased, grant_lease, acquire_poll,
  guard_lease, drop_lease, fail_poll,
}

-- The window lies between the start of the monitor and now, covers 24 hours at most, and starts no
-- later than what was fetched, less the overlap, or the start of the monitor.
pub record IsWindow (row : MonitorRow) (now : ℕ) (lease : PollLease) : Type 0 where
  pub not_empty : lease.start < lease.end
  pub from_start : row.config.start_at ≤ lease.start
  pub to_now : lease.end ≤ now
  pub one_day : lease.end ≤ lease.start + microseconds 86400
  pub no_gap :
      lease.start
      ≡ max row.config.start_at (row.fetched_through - microseconds row.config.overlap_seconds)
  pub acquired : lease.acquired_at ≡ now
  pub expires : lease.expires_at ≡ now + microseconds row.config.lease_seconds

grant_lease_saved :
    (token m : ℕ) (row : MonitorRow) (now : ℕ) (w : ℕ × ℕ) (db db' : Db) (lease : PollLease)
    → grant_lease token m row now w db ≡ ok (db', some lease)
    → (find (lease_of m) db'.leases ≡ some lease) × (db'.monitors ≡ db.monitors)
unfolding grant_lease find plus_seconds
grant_lease_saved token m row now w db db' lease h = ground (
  arith,
  find-delete_self (lease_of m) db.leases,
  find-append_none (lease_of m) (delete (lease_of m) db.leases) (lease ∷ []),
)

-- A lease that is granted for a registered monitor starts where the fetched data ends, less the
-- overlap, never before the start of the monitor, spans a day at most and not the future, and
-- expires after the configured time.
pub acquire_poll-IsWindow :
    (token m now : ℕ) (db db' : Db) (lease : PollLease) (row : MonitorRow)
    → find (of_id m) db.monitors ≡ some row
    → acquire_poll token m now db ≡ ok (db', some lease)
    → IsWindow row now lease
unfolding acquire_poll monitor poll_window grant_lease minus_seconds plus_seconds
acquire_poll-IsWindow token m now db db' lease row found h = ground arith

acquire_poll_granted :
    (token m now : ℕ) (db db' : Db) (lease : PollLease)
    → acquire_poll token m now db ≡ ok (db', some lease)
    → (row : MonitorRow) × (w : ℕ × ℕ) × (find (of_id m) db.monitors ≡ some row)
      × (grant_lease token m row now w db ≡ ok (db', some lease))
unfolding acquire_poll monitor
acquire_poll_granted token m now db db' lease h = elim (Option-cases (find (of_id m) db.monitors)) [
  | inl unknown ↦ absurd (ground arith)
  | inr (row, known) ↦
      let (w, e, k) =
        >>=-eq-ok (poll_window row now)
          (λ w. if leb w.1 w.0 then ok (db, none) else grant_lease token m row now w db)
          {y = (db', some lease)} (ground arith) in
      (row, w, known, ground arith)
]

-- While a granted lease runs, no other lease of the monitor is granted and the database stays as
-- it is.
pub acquire_poll-excludes :
    (token token' m now later : ℕ) (db db' : Db) (lease : PollLease)
    → acquire_poll token m now db ≡ ok (db', some lease)
    → later < lease.expires_at
    → acquire_poll token' m later db' ≡ ok (db', none)
unfolding acquire_poll monitor is_leased
acquire_poll-excludes token token' m now later db db' lease h early =
    let (row, w, known, granted) = acquire_poll_granted token m now db db' lease h in
    let (saved, same) = grant_lease_saved token m row now w db db' lease granted in ground arith

pub drop_lease_lost :
    (lease : PollLease) (leases : List PollLease)
    → find (lease_held lease.monitor_id lease.token) (drop_lease lease leases) ≡ none
unfolding drop_lease
drop_lease_lost lease leases = find-delete_self (lease_held lease.monitor_id lease.token) leases

pub guard_lease_lost :
    (lease : PollLease) (now : ℕ) (db : Db)
    → find (lease_held lease.monitor_id lease.token) db.leases ≡ none
    → guard_lease lease now db ≡ err lease_lost
unfolding guard_lease
guard_lease_lost lease now db h = rw h

-- A lease whose poll was recorded as failed is lost from then on.
pub fail_poll_once :
    (lease : PollLease) (code : ℕ) (retry : Option ℕ) (now later : ℕ) (db db' : Db)
    → fail_poll lease code retry now db ≡ ok db'
    → guard_lease lease later db' ≡ err lease_lost
unfolding fail_poll
fail_poll_once lease code retry now later db db' h =
    let e : db'.leases ≡ drop_lease lease db.leases = ground arith in
    guard_lease_lost lease later db' (rw e (drop_lease_lost lease db.leases))

-- Until it expires, a granted lease passes the guard of the monitor's row.
pub acquire_poll_guarded :
    (token m now later : ℕ) (db db' : Db) (lease : PollLease)
    → acquire_poll token m now db ≡ ok (db', some lease)
    → now ≤ later
    → later < lease.expires_at
    → (row : MonitorRow) × (find (of_id m) db.monitors ≡ some row)
      × (guard_lease lease later db' ≡ ok row)
      × (lease.monitor_id ≡ m)
      × (db'.monitors ≡ db.monitors)
      × (db'.ledger ≡ db.ledger)
unfolding grant_lease find plus_seconds guard_lease monitor
acquire_poll_guarded token m now later db db' lease h after before =
    let (row, w, known, granted) = acquire_poll_granted token m now db db' lease h in
    let saved : find (lease_held lease.monitor_id lease.token) db'.leases ≡ some lease = ground (
      arith,
      find-append_none (lease_held m token) (delete (lease_of m) db.leases) (lease ∷ []),
      find-delete_within (lease_held m token) (lease_of m) db.leases (λ a e. ground arith),
    ) in
    let same : (db'.monitors ≡ db.monitors)
        × (db'.ledger ≡ db.ledger)
        × (lease.monitor_id ≡ m)
        × (lease.acquired_at ≡ now) =
      ground arith in
    (row, known, ground arith, same.2, same.0, same.1)

-- A lease with another token is lost as soon as a new one is granted for its monitor.
pub acquire_poll-revokes :
    (token now later : ℕ) (old : PollLease) (db db' : Db) (lease : PollLease)
    → acquire_poll token old.monitor_id now db ≡ ok (db', some lease)
    → old.token ≢ token
    → guard_lease old later db' ≡ err lease_lost
unfolding grant_lease find plus_seconds
acquire_poll-revokes token now later old db db' lease h other =
    let (row, w, known, granted) = acquire_poll_granted token old.monitor_id now db db' lease h in
    guard_lease_lost old later db' (
      ground (
        arith,
        find-append_none (lease_held old.monitor_id old.token)
            (delete (lease_of old.monitor_id) db.leases) (lease ∷ []),
        find-delete_within (lease_held old.monitor_id old.token) (lease_of old.monitor_id) db.leases
            (λ a e. ground arith),
      ))
