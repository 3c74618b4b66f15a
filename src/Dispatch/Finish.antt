-- ===== src/Dispatch/Finish.antt =====
-- `DispatchStore.finish` and `DispatchStore.fail` of current/dispatch_store.py: the result of a model is
-- committed with the outcome of its event, the new baselines and the checks that it handled.
use watershed_memory.Base.{
  ℕ, suc, Bool, true, false, not, ◌&&◌, none, some, is_some, Result, ok, value_error,
  workflow_conflict, integrity_error, ◌>>=◌, ◌>>◌, raise_if, or_raise, List, [], ◌∷◌, ◌++◌, ltb,
  ◌==◌, if◌then◌else◌, eq_option,
}
use watershed_memory.Base.Table.{find}
use watershed_memory.Text.{Texts}
use watershed_memory.Cases.Records.{Input}
use watershed_memory.Delivery.Types.{
  AttemptStatus, reserved, committed, failed, stale, abandoned, InvocationProfile,
  CurrentAssessment, CurrentExecution, CurrentFailure, DeliveryReceipt,
}
use watershed_memory.Delivery.Records.{Codec, AttemptRow, Context, attempt_row}
use watershed_memory.Delivery.Commit.{commit, fail}
use watershed_memory.Dispatch.Types.{DueCheck, AttentionResult}
use watershed_memory.Dispatch.Records.{
  CurrentContext, Engine, journal_load, Setting, Admission, assessed, Outcome, DispatchDb,
  of_admission, of_due,
}
use watershed_memory.Dispatch.Admission.{restore_admission}
use watershed_memory.Dispatch.Settings.{settings_of}
use watershed_memory.Dispatch.Queue.{add_outcome, set_setting}

abbrev same_bool : Bool → Bool → Bool
same_bool true b = b
same_bool false b = not b

unfoldable pub is_committed : AttemptStatus → Bool
is_committed committed = true
is_committed reserved = false
is_committed failed = false
is_committed stale = false
is_committed abandoned = false

-- The admission is of the attempt's case and profile.
unfoldable pub is_bound : Codec → AttemptRow → InvocationProfile → Admission → Bool
is_bound codec row profile saved =
    saved.case_id == row.case_id && codec.profile profile == codec.profile row.profile

-- The replayed decision is the one that reserved the attempt.
unfoldable pub is_replayed :
    Codec → AttemptRow → Admission → CurrentContext → AttentionResult → Bool → Bool
is_replayed codec row saved context attention move =
    attention.eligible
    && same_bool move saved.move_numeric
    && context.base.case_id == row.case_id
    && context.current.event_id == row.event_id
    && codec.sha context.base.json == row.context_digest
    && same_bool saved.replay.source_delivery row.source_delivery

abbrev pub assessed_outcome : Setting → AttemptRow → ℕ → ℕ → Admission → Outcome
assessed_outcome s row e now saved = record {
  case_id = s.case_id;
  monitor_id = s.monitor_id;
  event_id = e;
  kind = assessed;
  recorded_at = now;
  replay = some saved.replay;
  attention = some saved.attention;
  attempt_id = some row.attempt_id;
}

unfoldable pub note_outcome :
    Setting → AttemptRow → ℕ → ℕ → Admission → Bool → DispatchDb → Result DispatchDb
note_outcome s row e now saved false db = ok db
note_outcome s row e now saved true db = add_outcome (assessed_outcome s row e now saved) db

abbrev pub one_assessed : ℕ → Bool → ℕ → Setting → Setting
one_assessed text move now s = record s {
  numeric_context = if move then some text else s.numeric_context;
  health_context = some text;
  active_attempt_id = none;
  assessment_count = suc s.assessment_count;
  updated_at = now;
}

-- INSERT INTO dispatch_due, whose key is the check of the case.
unfoldable pub add_due : ℕ → ℕ → ℕ → List DueCheck → DispatchDb → Result DispatchDb
add_due c a now [] db = ok db
add_due c a now (d ∷ ds) db =
    raise_if (is_some (find (of_due c d.key) db.due)) integrity_error
    >> add_due c a now ds (record db {
      due =
          db.due
          ++ record {
            case_id = c;
            key = d.key;
            task_id = d.task_id;
            revision = d.revision;
            next_check_at = d.next_check_at;
            handled_at = now;
            attempt_id = a;
          }
            ∷ [];
    })

module _ (texts : Texts) (digest : Input → ℕ) (codec : Codec) (engine : Engine)
    (validate : Context → CurrentAssessment → Result (Unit {0})) where
  -- What `finish` writes once the journal has committed the result.
  unfoldable pub assess :
      Setting
      → AttemptRow
      → Admission
      → CurrentContext
      → AttentionResult
      → Bool
      → ℕ
      → DispatchDb
      → Result DispatchDb
  assess s row saved context attention move now db = do
    noted ← note_outcome s row context.current.event_id now saved row.source_delivery db
    text ← engine.reference context
    add_due context.base.case_id row.attempt_id now attention.due_checks
        (set_setting context.base.case_id (one_assessed text move now) noted)

  -- `finish` for the active attempt of the case.
  unfoldable pub finish_active :
      (ℕ → ℕ)
      → Setting
      → AttemptRow
      → Admission
      → CurrentContext
      → AttentionResult
      → Bool
      → CurrentExecution
      → ℕ
      → DispatchDb
      → Result (DispatchDb × DeliveryReceipt)
  finish_active tasks s row saved context attention move execution now db = do
    raise_if (not (eq_option s.active_attempt_id (some row.attempt_id))) workflow_conflict
    raise_if
        (not (
          eq_option s.numeric_context saved.replay.numeric
          && eq_option s.health_context saved.replay.health))
        workflow_conflict
    raise_if (ltb now s.updated_at) value_error
    (journal, receipt) ←
        commit texts digest codec (journal_load engine) validate tasks row.attempt_id execution now
          db.journal
    elim (is_committed receipt.status) [
      | false ↦ ok (record db { journal = journal }, receipt)
      | true ↦ do
        done ← assess s row saved context attention move now (record db { journal = journal })
        ok (done, receipt)
    ]

  -- `finish`
  unfoldable pub finish :
      (ℕ → ℕ) → ℕ → CurrentExecution → ℕ → DispatchDb → Result (DispatchDb × DeliveryReceipt)
  finish tasks attempt execution now db = do
    row ← attempt_row texts codec db.journal attempt
    (s, policy, profile) ← settings_of texts codec engine db row.case_id
    saved ← or_raise (find (of_admission attempt) db.admissions) workflow_conflict
    raise_if (not (is_bound codec row profile saved)) workflow_conflict
    (context, attention, move) ← restore_admission texts codec engine db saved policy
    raise_if (not (is_replayed codec row saved context attention move)) workflow_conflict
    elim (is_committed row.status) [
      | true ↦ do
        raise_if (eq_option s.active_attempt_id (some attempt)) workflow_conflict
        (journal, receipt) ←
            commit texts digest codec (journal_load engine) validate tasks attempt execution now
              db.journal
        ok (record db { journal = journal }, receipt)
      | false ↦ finish_active tasks s row saved context attention move execution now db
    ]

  -- `fail`
  unfoldable pub fail_dispatch :
      ℕ → CurrentFailure → ℕ → DispatchDb → Result (DispatchDb × DeliveryReceipt)
  fail_dispatch attempt failure now db = do
    row ← attempt_row texts codec db.journal attempt
    (s, policy, profile) ← settings_of texts codec engine db row.case_id
    raise_if (not (eq_option s.active_attempt_id (some attempt))) workflow_conflict
    (journal, receipt) ←
        fail texts digest codec (journal_load engine) validate attempt failure now db.journal
    ok (record db { journal = journal }, receipt)
