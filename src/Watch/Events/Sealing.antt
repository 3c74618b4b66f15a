-- ===== src/Watch/Events/Sealing.antt =====
-- Laws of `seal_events`: ended dirty intervals are cleared, events are only appended, and the
-- revisions of an interval count up from one (watch/store_events.py).
use watershed_memory.Base.{
  ℕ, ◌+◌, max, ◌≡◌, refl, Bool, true, false, ◌&&◌, Option, none, some, List, [], ◌∷◌, ◌++◌, ok,
  >>=-eq-ok, ◌==◌, length, length-append, ascending, ascending_snoc, if◌then◌else◌, arith, inl, inr,
  ◌⊎◌, Bool-cases, Option-cases,
}
use watershed_memory.Base.Table.{count, count-append}
use watershed_memory.Text.{Texts}
use watershed_memory.Watch.Records.{MonitorConfig}
use watershed_memory.Watch.Tables.{Dirty, EventRow, OutboxRow, Ledger}
use watershed_memory.Watch.Ingest.Counting.{gained}
use watershed_memory.Watch.Payloads.{Joined, Digests, payload_of}
use watershed_memory.Watch.Events.{
  of_interval, pick, latest_event, next_revision, is_new_digest, insert_event, seal_members,
  clear_dirty, members_of, seal_interval, seal_all, digest_of, event_row, outbox_row,
}

abbrev pub event_of_monitor : ℕ → EventRow → Bool
event_of_monitor m e = e.monitor_id == m

abbrev pub pending_of_monitor : ℕ → OutboxRow → Bool
pending_of_monitor m o = o.monitor_id == m && o.pending

abbrev pub revision_of : Option EventRow → ℕ
revision_of none = 0
revision_of (some e) = e.revision

-- The revisions of the events of an interval, in the order of the table.
abbrev pub revisions : ℕ → ℕ → List EventRow → List ℕ
revisions m s [] = []
revisions m s (e ∷ es) =
    let rest = revisions m s es in if of_interval m s e then e.revision ∷ rest else rest

-- The events of every interval of every monitor have the revisions 1, 2, 3, … in this order, each
-- of them once, and the latest event is the last of them.
abbrev pub IsRevised : List EventRow → Type 0
IsRevised events =
    (m s : ℕ)
    → (revisions m s events ≡ ascending 0 (count (of_interval m s) events))
      × (revision_of (latest_event m s events) ≡ count (of_interval m s) events)

revisions-append :
    (m s : ℕ) (e : EventRow) (xs : List EventRow)
    → revisions m s (xs ++ e ∷ [])
      ≡ (if of_interval m s e then revisions m s xs ++ e.revision ∷ [] else revisions m s xs)
revisions-append m s e [] = refl
revisions-append m s e (x ∷ xs) = ground (arith, revisions-append m s e xs)

revision_of-pick :
    (b : Bool) (e : EventRow) (o : Option EventRow)
    → revision_of (pick b e o) ≡ (if b then max (revision_of o) e.revision else revision_of o)
unfolding pick
revision_of-pick false e o = refl
revision_of-pick true e none = omega arith
revision_of-pick true e (some f) = ground arith

latest_event-append :
    (m s : ℕ) (e : EventRow) (xs : List EventRow)
    → revision_of (latest_event m s (xs ++ e ∷ [])) ≡ (
        if of_interval m s e
        then max (revision_of (latest_event m s xs)) e.revision
        else revision_of (latest_event m s xs))
unfolding latest_event
latest_event-append m s e [] = revision_of-pick (of_interval m s e) e none
latest_event-append m s e (x ∷ xs) = elim (Bool-cases (of_interval m s e)) [
  | inl same ↦ ground (
    arith,
    same,
    latest_event-append m s e xs,
    revision_of-pick (of_interval m s x) x (latest_event m s xs),
    revision_of-pick (of_interval m s x) x (latest_event m s (xs ++ e ∷ [])),
  )
  | inr other ↦ ground (
    arith,
    other,
    latest_event-append m s e xs,
    revision_of-pick (of_interval m s x) x (latest_event m s xs),
    revision_of-pick (of_interval m s x) x (latest_event m s (xs ++ e ∷ [])),
  )
]

module _ (texts : Texts) (digests : Digests) (config : MonitorConfig) where
  -- What an event row of this config says of its interval and revision.
  abbrev IsNext : Dirty → List EventRow → EventRow → Type 0
  IsNext d events e =
      (e.monitor_id ≡ config.monitor_id)
      × (e.interval_start ≡ d.interval_start)
      × (e.revision ≡ next_revision (latest_event config.monitor_id d.interval_start events))

  -- One interval adds no event, or exactly one with the next revision and one pending row for it.
  abbrev Sealed : Dirty → Ledger → Ledger → List ℕ → Type 0
  Sealed d db db' ids =
      ((ids ≡ []) × (db' ≡ db))
      ⊎ ((e : EventRow) × (o : OutboxRow) × (ids ≡ e.event_id ∷ [])
          × IsNext d db.events e
          × (o.monitor_id ≡ config.monitor_id)
          × (o.pending ≡ true)
          × (db'.events ≡ db.events ++ e ∷ [])
          × (db'.outbox ≡ db.outbox ++ o ∷ [])
          × (db'.dirty ≡ db.dirty)
          × (db'.versions ≡ db.versions)
          × (db'.currents ≡ db.currents))

  insert_event_cases :
      (d : Dirty) (rows : List Joined) (db db' : Ledger) (n : ℕ)
      → insert_event texts digests config d rows
          (latest_event config.monitor_id d.interval_start db.events)
          db
        ≡ ok (db', n)
      → Sealed d db db' (n ∷ [])
  unfolding insert_event event_row
  insert_event_cases d rows db db' n h =
      let prior = latest_event config.monitor_id d.interval_start db.events in
      let (pay, e, k) = >>=-eq-ok (payload_of config d.interval_start d.interval_end rows) _ h in
      let row = event_row texts digests config d rows prior pay in
      inr (
        row,
        outbox_row texts digests config row,
        ground arith,
        (refl, refl, refl),
        refl,
        refl,
        ground arith,
        ground arith,
        ground arith,
        ground arith,
        ground arith,
      )

  seal_members_cases :
      (d : Dirty) (rows : List Joined) (db db' : Ledger) (ids : List ℕ)
      → seal_members texts digests config d rows db ≡ ok (db', ids)
      → Sealed d db db' ids
  unfolding seal_members
  seal_members_cases d [] db db' ids h = inl (ground arith, ground arith)
  seal_members_cases d (r ∷ rs) db db' ids h =
      elim (Bool-cases (
        is_new_digest (latest_event config.monitor_id d.interval_start db.events)
          (digest_of texts digests config (r ∷ rs)))) [
            | inr unchanged ↦ inl (ground arith, ground arith)
            | inl changed ↦
                let ((db'', n), e, k) =
                  >>=-eq-ok
                    (insert_event texts digests config d (r ∷ rs)
                      (latest_event config.monitor_id d.interval_start db.events) db)
                    _ (rw changed at h) in
                let same_ids : n ∷ [] ≡ ids = ground arith in
                let same_db : db'' ≡ db' = ground arith in
                rw (← same_ids, ← same_db) (insert_event_cases d (r ∷ rs) db db'' n e)
          ]

  -- What sealing does to the counts of a monitor: events and pending rows grow by the new events.
  abbrev pub Appends : ℕ → Ledger → Ledger → List ℕ → Type 0
  Appends m db db' ids =
      (count (event_of_monitor m) db'.events
        ≡ count (event_of_monitor m) db.events + gained config m (length ids))
      × (count (pending_of_monitor m) db'.outbox
          ≡ count (pending_of_monitor m) db.outbox + gained config m (length ids))

  Sealed-Appends :
      (m : ℕ) (d : Dirty) (db db' : Ledger) (ids : List ℕ)
      → Sealed d db db' ids
      → Appends m db db' ids
  unfolding count
  Sealed-Appends m d db db' ids (inl (none_new, same)) =
      rw (none_new, same) (ground arith, ground arith)
  Sealed-Appends m d db db' ids (inr (e, o, one, next, om, op, evs, out, dirty, vs, cs)) =
      rw (one, evs, out, count-append, count-append) (ground arith, ground arith)

  pub Sealed-dirty :
      (d : Dirty) (db db' : Ledger) (ids : List ℕ) → Sealed d db db' ids → db'.dirty ≡ db.dirty
  Sealed-dirty d db db' ids (inl (none_new, same)) = rw same
  Sealed-dirty d db db' ids (inr (e, o, one, next, om, op, evs, out, dirty, vs, cs)) = dirty

  Sealed-IsRevised :
      (d : Dirty) (db db' : Ledger) (ids : List ℕ)
      → Sealed d db db' ids
      → IsRevised db.events
      → IsRevised db'.events
  unfolding next_revision count
  Sealed-IsRevised d db db' ids (inl (none_new, same)) h m s = rw same (h m s)
  Sealed-IsRevised d db db' ids (inr (e, o, one, next, om, op, evs, out, dirty, vs, cs)) h m s =
      rw (evs, latest_event-append, revisions-append, count-append)
        (elim (Option-cases (latest_event config.monitor_id d.interval_start db.events)) [
          | inl first ↦ ground (arith, h m s, ascending_snoc 0 (count (of_interval m s) db.events))
          | inr (f, later) ↦
              ground (arith, h m s, ascending_snoc 0 (count (of_interval m s) db.events))
        ])

  clear_dirty_events :
      (d : Dirty) (db : Ledger)
      → ((clear_dirty texts digests config d db).events ≡ db.events)
        × ((clear_dirty texts digests config d db).outbox ≡ db.outbox)
  unfolding clear_dirty
  clear_dirty_events d db = (refl, refl)

  -- Sealing one interval is sealing its members and clearing its mark.
  pub seal_interval_split :
      (d : Dirty) (db db' : Ledger) (ids : List ℕ)
      → seal_interval texts digests config d db ≡ ok (db', ids)
      → (mid : Ledger) × Sealed d db mid ids × (db' ≡ clear_dirty texts digests config d mid)
  unfolding seal_interval
  seal_interval_split d db db' ids h =
      let ((mid, new), e, k) =
        >>=-eq-ok (seal_members texts digests config d (members_of texts digests config d db) db) _
          h in
      let same_ids : new ≡ ids = ground arith in
      (
        mid,
        rw (← same_ids) (seal_members_cases d (members_of texts digests config d db) db mid new e),
        ground arith,
      )

  Appends-seal_interval :
      (m : ℕ) (d : Dirty) (db db' : Ledger) (ids : List ℕ)
      → seal_interval texts digests config d db ≡ ok (db', ids)
      → Appends m db db' ids
  Appends-seal_interval m d db db' ids h =
      let (mid, sealed, e) = seal_interval_split d db db' ids h in
      let (events, outbox) = clear_dirty_events d mid in
      rw (e, events, outbox) (Sealed-Appends m d db mid ids sealed)

  pub seal_all-Appends :
      (m : ℕ) (ds : List Dirty) (db db' : Ledger) (ids : List ℕ)
      → seal_all texts digests config ds db ≡ ok (db', ids)
      → Appends m db db' ids
  unfolding seal_all
  seal_all-Appends m [] db db' ids h = ground arith
  seal_all-Appends m (d ∷ ds) db db' ids h =
      let ((mid, new), e, k) = >>=-eq-ok (seal_interval texts digests config d db) _ h in
      let ((last, rest), e', k') = >>=-eq-ok (seal_all texts digests config ds mid) _ k in
      let same : last ≡ db' = ground arith in
      let joined : new ++ rest ≡ ids = ground arith in
      rw (← same, ← joined)
        (ground (
          arith,
          length-append new rest,
          Appends-seal_interval m d db mid new e,
          seal_all-Appends m ds mid last rest e',
        ))

  -- Where the events of every interval have the revisions 1, 2, 3, … in the order of the table,
  -- each of them once, they have them after sealing too.
  pub seal_all-IsRevised :
      (ds : List Dirty) (db db' : Ledger) (ids : List ℕ)
      → seal_all texts digests config ds db ≡ ok (db', ids)
      → IsRevised db.events
      → IsRevised db'.events
  unfolding seal_all
  seal_all-IsRevised [] db db' ids h r = let same : db ≡ db' = ground arith in rw (← same) r
  seal_all-IsRevised (d ∷ ds) db db' ids h r =
      let ((mid, new), e, k) = >>=-eq-ok (seal_interval texts digests config d db) _ h in
      let ((last, rest), e', k') = >>=-eq-ok (seal_all texts digests config ds mid) _ k in
      let same : last ≡ db' = ground arith in
      let (before, sealed, cleared) = seal_interval_split d db mid new e in
      rw (← same) (
        seal_all-IsRevised ds mid last rest e' (
          rw cleared
            (rw (clear_dirty_events d before).0 (Sealed-IsRevised d db before new sealed r))))

  -- Sealing reads the observations and leaves them as they are.
  abbrev pub KeepsData : Ledger → Ledger → Type 0
  KeepsData db db' = (db'.versions ≡ db.versions) × (db'.currents ≡ db.currents)

  Sealed-KeepsData :
      (d : Dirty) (db db' : Ledger) (ids : List ℕ) → Sealed d db db' ids → KeepsData db db'
  Sealed-KeepsData d db db' ids (inl (none_new, same)) = rw same (refl, refl)
  Sealed-KeepsData d db db' ids (inr (e, o, one, next, om, op, evs, out, dirty, vs, cs)) = (vs, cs)

  pub seal_all-KeepsData :
      (ds : List Dirty) (db db' : Ledger) (ids : List ℕ)
      → seal_all texts digests config ds db ≡ ok (db', ids)
      → KeepsData db db'
  unfolding seal_all clear_dirty
  seal_all-KeepsData [] db db' ids h = ground arith
  seal_all-KeepsData (d ∷ ds) db db' ids h =
      let ((mid, new), e, k) = >>=-eq-ok (seal_interval texts digests config d db) _ h in
      let ((last, rest), e', k') = >>=-eq-ok (seal_all texts digests config ds mid) _ k in
      let same : last ≡ db' = ground arith in
      let (before, sealed, cleared) = seal_interval_split d db mid new e in
      let (vs, cs) = seal_all-KeepsData ds mid last rest e' in
      let (vs', cs') = Sealed-KeepsData d db before new sealed in ground arith
