-- ===== src/Dispatch/Queue.antt =====
-- What `DispatchStore.prepare` of current/dispatch_store.py reads of the outbox and writes to it:
-- the next event, the history that a first event ends, and the outcomes of events.
use watershed_memory.Base.{
  ℕ, suc, Bool, true, not, ◌&&◌, ◌||◌, Option, none, some, is_some, Result, ok, err,
  workflow_conflict, integrity_error, ◌>>=◌, ◌>>◌, raise_if, List, [], ◌∷◌, ◌++◌, map, length, elem,
  ltb, ◌==◌, if◌then◌else◌,
}
use watershed_memory.Base.Table.{find, select, update}
use watershed_memory.Watch.Tables.{EventRow, OutboxRow, Db}
use watershed_memory.Delivery.Records.{ContextQuery, acknowledge}
use watershed_memory.Dispatch.Types.{AttentionResult, StepStatus, DispatchStep}
use watershed_memory.Dispatch.Records.{
  Interval, CurrentContext, Replay, Setting, Admission, history, skipped, Outcome, DispatchDb,
  of_setting, of_admission, of_outcome,
}

-- An event by its place in the order of the outbox.
pub record Place : Type 0 where
  pub event_id : ℕ
  pub interval_start : ℕ
  pub revision : ℕ

unfoldable pub is_before : Place → Place → Bool
is_before a b =
    ltb a.interval_start b.interval_start
    || a.interval_start == b.interval_start && ltb a.revision b.revision

abbrev pub place_of : OutboxRow → Place
place_of row = record {
  event_id = row.event_id;
  interval_start = row.interval_start;
  revision = row.revision;
}

abbrev pub event_place : EventRow → Place
event_place row = record {
  event_id = row.event_id;
  interval_start = row.interval_start;
  revision = row.revision;
}

-- `ORDER BY interval_start, revision LIMIT 1`, or the same with DESC.
unfoldable pub first_place : Bool → List Place → Option Place
first_place last [] = none
first_place last (p ∷ ps) = elim (first_place last ps) [
  | none ↦ some p
  | some q ↦ if (if last then is_before p q else is_before q p) then some q else some p
]

abbrev pub is_pending : ℕ → OutboxRow → Bool
is_pending m row = row.monitor_id == m && row.pending

-- The pending event that `prepare` selects: the last one at first, then the first one.
unfoldable pub next_event : Setting → Db → Option Place
next_event s db =
    first_place (not (is_some s.initial_event_id))
      (map place_of (select (is_pending s.monitor_id) db.ledger.outbox))

-- The latest event of the monitor.
unfoldable pub last_event : ℕ → Db → Option Place
last_event m db =
    first_place true
      (map event_place (select (λ (e : EventRow). e.monitor_id == m) db.ledger.events))

-- The pending events before the selected one, oldest first.
unfoldable pub insert_place : Place → List Place → List Place
insert_place p [] = p ∷ []
insert_place p (q ∷ qs) =
    let rest = insert_place p qs in if is_before q p then q ∷ rest else p ∷ q ∷ qs

unfoldable pub sort_places : List Place → List Place
sort_places [] = []
sort_places (p ∷ ps) = insert_place p (sort_places ps)

unfoldable pub history_of : ℕ → Place → Db → List Place
history_of m selected db =
    sort_places
      (select (λ p. is_before p selected) (map place_of (select (is_pending m) db.ledger.outbox)))

-- `_outcome`, whose table has one row for an event of a case.
unfoldable pub add_outcome : Outcome → DispatchDb → Result DispatchDb
add_outcome o db =
    if is_some (find (of_outcome o.case_id o.event_id) db.outcomes)
    then err integrity_error
    else ok (record db { outcomes = db.outcomes ++ o ∷ [] })

-- `_acknowledge`
unfoldable pub take_event : ℕ → ℕ → DispatchDb → Result DispatchDb
take_event m e db = acknowledge m e db.journal.work.watch >>= λ watch. ok (record db {
  journal = record (db.journal) { work = record (db.journal.work) { watch = watch } };
})

abbrev pub history_outcome : Setting → ℕ → ℕ → Outcome
history_outcome s e now = record {
  case_id = s.case_id;
  monitor_id = s.monitor_id;
  event_id = e;
  kind = history;
  recorded_at = now;
  replay = none;
  attention = none;
  attempt_id = none;
}

-- The loop of `_bootstrap`.
unfoldable pub pass_over : Setting → ℕ → List Place → DispatchDb → Result DispatchDb
pass_over s now [] db = ok db
pass_over s now (p ∷ ps) db = do
  noted ← add_outcome (history_outcome s p.event_id now) db
  taken ← take_event s.monitor_id p.event_id noted
  pass_over s now ps taken

-- UPDATE dispatch_settings … WHERE case_id=?
unfoldable pub set_setting : ℕ → (Setting → Setting) → DispatchDb → DispatchDb
set_setting c f db = record db { settings = update (of_setting c) f db.settings }

abbrev pub bootstrapped : ℕ → ℕ → ℕ → Setting → Setting
bootstrapped e count now s = record s {
  initial_event_id = some e;
  history_count = count;
  updated_at = now;
}

abbrev pub one_suppressed : ℕ → Setting → Setting
one_suppressed now s = record s { suppressed_count = suc s.suppressed_count; updated_at = now }

abbrev pub reserved_for : ℕ → ℕ → Setting → Setting
reserved_for a now s = record s { active_attempt_id = some a; updated_at = now }

-- `_bootstrap`
unfoldable pub bootstrap : Setting → Place → ℕ → DispatchDb → Result DispatchDb
bootstrap s selected now db = do
  let past = history_of s.monitor_id selected db.journal.work.watch
  raise_if (ltb 10000 (length past)) workflow_conflict
  passed ← pass_over s now past db
  ok (set_setting s.case_id (bootstrapped selected.event_id (length past) now) passed)

abbrev pub suppressed_outcome : Setting → ℕ → ℕ → Replay → AttentionResult → Outcome
suppressed_outcome s e now replay attention = record {
  case_id = s.case_id;
  monitor_id = s.monitor_id;
  event_id = e;
  kind = skipped;
  recorded_at = now;
  replay = some replay;
  attention = some attention;
  attempt_id = none;
}

abbrev pub step_of : ℕ → StepStatus → Option ℕ → DispatchStep
step_of c status e = record {
  case_id = c;
  status = status;
  event_id = e;
  attention = none;
  reservation = none;
  held_attempt_id = none;
}

-- INSERT INTO dispatch_attempts, whose key is the attempt.
unfoldable pub add_admission : Admission → DispatchDb → Result DispatchDb
add_admission a db =
    if is_some (find (of_admission a.attempt_id) db.admissions)
    then err integrity_error
    else ok (record db { admissions = db.admissions ++ a ∷ [] })

-- The first three of the events that the SDK must be able to inspect, each once.
unfoldable pub distinct_events : List ℕ → List ℕ → List ℕ
distinct_events seen [] = []
distinct_events seen (e ∷ es) =
    let rest = distinct_events (e ∷ seen) es in
    let skip = distinct_events seen es in if elem e seen then skip else e ∷ rest

abbrev pub take_three : List ℕ → List ℕ
take_three (a ∷ b ∷ c ∷ _) = a ∷ b ∷ c ∷ []
take_three xs = xs

abbrev pub one_event : Option ℕ → List ℕ
one_event none = []
one_event (some e) = e ∷ []

unfoldable pub evidence_ids : CurrentContext → CurrentContext → List ℕ
evidence_ids context numeric = take_three (
    distinct_events [] (
      one_event context.current.supersedes_event_id
      ++ numeric.current.event_id ∷ map (λ (p : Interval). p.event_id) context.prior))

abbrev pub context_query : ℕ → ℕ → ℕ → Option (List ℕ) → ContextQuery
context_query c e now prior = record {
  case_id = c;
  event_id = e;
  evaluated_at = now;
  include_source_health = true;
  prior_event_ids = prior;
  review_refs = none;
  reserved_revision = none;
  source_version_ids = none;
}
