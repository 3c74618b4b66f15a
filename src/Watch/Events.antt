-- ===== src/Watch/Events.antt =====
-- watch/store_events.py: changed intervals that have ended are sealed into immutable events.
pub mod Sealing
pub mod Clearing
use mathlib.Core.Option
use watershed_memory.Base.{
  ℕ, suc, ◌+◌, max, Bool, true, false, ◌&&◌, not, Option, none, some, List, [], ◌∷◌, ◌++◌, map,
  Result, ok, err, value_error, ◌>>=◌, ◌>>◌, raise_if, ltb, leb, ◌==◌, length, elem, if◌then◌else◌,
}
use watershed_memory.Base.Table.{find, select, delete, count}
use watershed_memory.Base.Int.{ℤ, min_ℤ, max_ℤ}
use watershed_memory.Text.{Texts, text_lt}
use watershed_memory.Watch.Records.{SeriesSpec, MonitorConfig}
use watershed_memory.Watch.Tables.{
  Approval, approved, provisional, other_state, Version, Current, Dirty, SeriesSummary, Payload,
  EventRow, EventMember, OutboxRow, Ledger,
}
use watershed_memory.Watch.Ingest.{is_version}
use watershed_memory.Watch.Payloads.{
  Digests, EventIdentity, Joined, MemberKey, counter, fold_value, insert_sorted, latest_row,
  payload_of, present, qualifier_set, same_approval, sort, summarize, tally,
}

abbrev pub of_interval : ℕ → ℕ → EventRow → Bool
of_interval m s e = e.monitor_id == m && e.interval_start == s

-- Of an event that does or does not belong to the interval and the latest of the later rows, the
-- one with the higher revision.
unfoldable pub pick : Bool → EventRow → Option EventRow → Option EventRow
pick false e o = o
pick true e none = some e
pick true e (some f) = if ltb f.revision e.revision then some e else some f

-- `ORDER BY revision DESC LIMIT 1` among the events of an interval.
unfoldable pub latest_event : ℕ → ℕ → List EventRow → Option EventRow
latest_event m s [] = none
latest_event m s (e ∷ es) = pick (of_interval m s e) e (latest_event m s es)

-- The first revision is 1, and each later one is one more than the latest.
unfoldable pub next_revision : Option EventRow → ℕ
next_revision none = 1
next_revision (some e) = suc e.revision

unfoldable pub is_new_digest : Option EventRow → ℕ → Bool
is_new_digest none d = true
is_new_digest (some e) d = not (e.member_digest == d)

module _ (texts : Texts) (digests : Digests) (config : MonitorConfig) where
  -- `ORDER BY oc.observed_at, oc.series_id`
  abbrev pub row_before : Joined → Joined → Bool
  row_before a b =
      if a.observed_at == b.observed_at
      then text_lt (texts.chars a.series_id) (texts.chars b.series_id)
      else ltb a.observed_at b.observed_at

  unfoldable pub join : List Version → List Current → List Joined
  join versions [] = []
  join versions (c ∷ cs) =
      let rest = join versions cs in
      elim (find (is_version c.version_id) versions) [
        | none ↦ rest
        | some v ↦
            record {
              series_id = c.series_id;
              observed_at = c.observed_at;
              version_id = c.version_id;
              value = v.value;
              approval_status = v.approval_status;
              qualifier = v.qualifier;
              semantic_hash = v.semantic_hash;
            }
            ∷ rest
      ]

  -- The current observations of the monitor in an interval.
  unfoldable pub members_of : Dirty → Ledger → List Joined
  unfolding join sort select
  members_of d db = sort row_before (
      join db.versions (
        select
          (λ (c : Current).
            c.monitor_id == config.monitor_id
            && (leb d.interval_start c.observed_at && ltb c.observed_at d.interval_end))
          db.currents))

  unfoldable pub digest_of : List Joined → ℕ
  unfolding sort
  digest_of members = digests.members (
      sort (λ (a b : MemberKey). ltb a.version_id b.version_id)
        (map
          (λ (r : Joined). record {
            version_id = r.version_id;
            series_id = r.series_id;
            observed_at = r.observed_at;
            semantic_hash = r.semantic_hash;
          })
          members))

  abbrev pub identity_of : Dirty → ℕ → ℕ → ℕ
  identity_of d revision digest = digests.event (record {
    monitor_id = config.monitor_id;
    policy_version = config.policy_version;
    interval_start = d.interval_start;
    revision = revision;
    digest = digest;
  })

  -- The row of `watch_events`; `prior` is the latest event of the interval.
  unfoldable pub event_row : Dirty → List Joined → Option EventRow → Payload → EventRow
  event_row d members prior payload = record {
    event_id = identity_of d (next_revision prior) (digest_of members);
    monitor_id = config.monitor_id;
    case_id = config.case_id;
    interval_start = d.interval_start;
    interval_end = d.interval_end;
    revision = next_revision prior;
    supersedes_event_id = Option.map (λ (e : EventRow). e.event_id) prior;
    payload = payload;
    member_digest = digest_of members;
  }

  abbrev pub member_row : ℕ → Joined → EventMember
  member_row event_id r = record {
    event_id = event_id;
    monitor_id = config.monitor_id;
    version_id = r.version_id;
    series_id = r.series_id;
    observed_at = r.observed_at;
  }

  abbrev pub outbox_row : EventRow → OutboxRow
  outbox_row e = record {
    event_id = e.event_id;
    monitor_id = config.monitor_id;
    interval_start = e.interval_start;
    revision = e.revision;
    pending = true;
  }

  -- The rows that a new event adds.
  unfoldable pub insert_event : Dirty → List Joined → Option EventRow → Ledger → Result (Ledger × ℕ)
  insert_event d members prior db = do
    payload ← payload_of config d.interval_start d.interval_end members
    raise_if (ltb 16384 (digests.payload_bytes payload)) value_error
    let event = event_row d members prior payload
    ok (
      record db {
        events = db.events ++ event ∷ [];
        members = db.members ++ map (member_row event.event_id) members;
        outbox = db.outbox ++ outbox_row event ∷ [];
      },
      event.event_id,
    )

  -- An event for one interval, if its members differ from those of its latest event.
  unfoldable pub seal_members : Dirty → List Joined → Ledger → Result (Ledger × List ℕ)
  seal_members d [] db = ok (db, [])
  seal_members d (r ∷ rs) db =
      let prior = latest_event config.monitor_id d.interval_start db.events in
      if is_new_digest prior (digest_of (r ∷ rs))
      then (do (db', event_id) ← insert_event d (r ∷ rs) prior db; ok (db', event_id ∷ []))
      else ok (db, [])

  unfoldable pub clear_dirty : Dirty → Ledger → Ledger
  unfolding delete
  clear_dirty d db = record db {
    dirty =
        delete
          (λ (e : Dirty). e.monitor_id == config.monitor_id && e.interval_start == d.interval_start)
          db.dirty;
  }

  unfoldable pub seal_interval : Dirty → Ledger → Result (Ledger × List ℕ)
  seal_interval d db = do
    (db', ids) ← seal_members d (members_of d db) db
    ok (clear_dirty d db', ids)

  unfoldable pub seal_all : List Dirty → Ledger → Result (Ledger × List ℕ)
  seal_all [] db = ok (db, [])
  seal_all (d ∷ ds) db = do
    (db', ids) ← seal_interval d db
    (db'', rest) ← seal_all ds db'
    ok (db'', ids ++ rest)

  -- A dirty interval of the monitor that has ended by `through`.
  abbrev pub is_due : ℕ → Dirty → Bool
  is_due through d = d.monitor_id == config.monitor_id && leb d.interval_end through

  -- `seal_events`
  unfoldable pub seal_events : ℕ → Ledger → Result (Ledger × List ℕ)
  seal_events through db =
      seal_all
        (sort (λ (a b : Dirty). ltb a.interval_start b.interval_start)
          (select (is_due through) db.dirty))
        db
