-- ===== src/Delivery/Commit.antt =====
-- `commit`, `fail`, `abandon`, `get` and `allowance` of `DeliveryStore` in current/delivery_store.py.
-- A commit stages the decided reviews, links the evidence, acknowledges the source event and moves
-- the case on, in one transaction.
use watershed_memory.Base.{
  ℕ, suc, Bool, true, false, not, ◌&&◌, Option, none, some, is_some, Result, ok, err, value_error,
  key_error, workflow_conflict, delivery_held, ◌>>=◌, ◌>>◌, raise_if, or_raise, List, [], ◌∷◌, ◌++◌,
  ◌==◌, if◌then◌else◌, eq_option,
}
use watershed_memory.Base.Table.{find, update}
use watershed_memory.Text.{Texts}
use watershed_memory.Cases.Types.{
  ReviewDraft, EvidenceLink, ReviewRecord, check_identifier, check_text, check_draft, check_link,
}
use watershed_memory.Cases.Records.{Input, CaseDb, of_case, next_case}
use watershed_memory.Cases.Store.{stage_review, link_evidence}
use watershed_memory.Delivery.Types.{
  reserved, committed, failed, stale, abandoned, no_follow_up, propose_review,
  continue_existing_review, ReviewDecision, CurrentAssessment, CurrentExecution, CurrentFailure,
  DeliveryReceipt,
}
use watershed_memory.Delivery.Records.{
  Codec, Allowance, AttemptRow, Journal, ContextQuery, Context, of_delivery, check_bytes,
  read_receipt, attempt_row, check_delivery_time, check_identity, acknowledge, finish_attempt,
}

-- How the attempt's row changes: `status`, the stored result and `finished_at`.
abbrev pub mark_stale : ℕ → ℕ → AttemptRow → AttemptRow
mark_stale text now row = record row {
  status = stale;
  execution_json = some text;
  finished_at = some now;
}

abbrev pub mark_committed : ℕ → List ReviewRecord → ℕ → AttemptRow → AttemptRow
mark_committed text work now row = record row {
  status = committed;
  execution_json = some text;
  work = work;
  finished_at = some now;
}

abbrev pub mark_failed : ℕ → ℕ → AttemptRow → AttemptRow
mark_failed text now row = record row {
  status = failed;
  failure_json = some text;
  finished_at = some now;
}

abbrev pub mark_abandoned : ℕ → ℕ → AttemptRow → AttemptRow
mark_abandoned reason now row = record row {
  status = abandoned;
  reason = some reason;
  finished_at = some now;
}

-- The query with which `_commit` loads the reserved context again.
abbrev pub replay_query : AttemptRow → ContextQuery
replay_query row = record {
  case_id = row.case_id;
  event_id = row.event_id;
  evaluated_at = row.evaluated_at;
  include_source_health = row.input.include_source_health;
  prior_event_ids = some row.prior_ids;
  review_refs = some row.review_refs;
  reserved_revision = some row.case_revision;
  source_version_ids = if row.input.include_source_health then row.health_versions else none;
}

-- The commit ends the case's revision: `UPDATE current_cases SET revision=revision+1 …`.
abbrev pub end_revision : ℕ → ℕ → CaseDb → CaseDb
end_revision c now db = record db { cases = update (of_case c) (next_case now) db.cases }

-- The acknowledgement of the source event, when the attempt delivers it.
unfoldable pub deliver : Bool → ℕ → ℕ → CaseDb → Result CaseDb
deliver false m event db = ok db
deliver true m event db = acknowledge m event db.watch >>= λ watch. ok (record db { watch = watch })

module _ (texts : Texts) (digest : Input → ℕ) (codec : Codec)
    (load : CaseDb → ContextQuery → Result Context)
    (validate : Context → CurrentAssessment → Result (Unit {0})) where
  -- One decision: the review it stages or continues, if any. `task` is a fresh id.
  unfoldable pub apply_decision :
      ℕ → ℕ → ReviewDecision → ℕ → ℕ → ℕ → CaseDb → Result (CaseDb × Option ReviewRecord)
  apply_decision task c d request revision now db = elim d.disposition [
    | no_follow_up ↦ ok (db, none)
    | propose_review ↦ do
      kind ← or_raise d.kind value_error
      title ← or_raise d.title value_error
      let draft : ReviewDraft = record {
        kind = kind;
        title = title;
        reason = d.reason;
        event_id = d.event_id;
        next_check_at = d.next_check_at;
      }
      check_draft texts draft
      (db', saved) ← stage_review texts digest task c draft request revision now db
      ok (db', some saved)
    | continue_existing_review ↦ do
      target ← or_raise d.target_task_id value_error
      let link : EvidenceLink = record {
        task_id = target;
        event_id = d.event_id;
        reason = d.reason;
      }
      check_link texts link
      (db', saved) ← link_evidence texts digest c link request revision now db
      ok (db', some saved)
  ]

  abbrev pub added : List ReviewRecord → Option ReviewRecord → List ReviewRecord
  added work none = work
  added work (some saved) = work ++ saved ∷ []

  abbrev pub advanced : ℕ → Option ReviewRecord → ℕ
  advanced revision none = revision
  advanced revision (some saved) = suc revision

  -- The loop over the decisions, with the index and the revision that the next one expects.
  unfoldable pub apply_decisions :
      (ℕ → ℕ)
      → ℕ
      → ℕ
      → ℕ
      → ℕ
      → ℕ
      → List ReviewRecord
      → List ReviewDecision
      → CaseDb
      → Result (CaseDb × List ReviewRecord)
  apply_decisions tasks attempt c now index revision work [] db = ok (db, work)
  apply_decisions tasks attempt c now index revision work (d ∷ rest) db = do
    (db', saved) ← apply_decision (tasks index) c d (codec.numbered attempt index) revision now db
    apply_decisions tasks attempt c now (suc index) (advanced revision saved) (added work saved)
        rest db'

  -- The writes of `_commit` when the case has not changed since the reservation.
  unfoldable pub commit_work :
      (ℕ → ℕ) → AttemptRow → Context → CurrentExecution → ℕ → Journal → Result Journal
  commit_work tasks row context execution now j = do
    (decided, work) ←
        apply_decisions tasks row.attempt_id context.case_id now 0 context.case_revision []
          execution.assessment.decisions j.work
    told ← deliver row.source_delivery row.monitor_id row.event_id decided
    check_bytes texts codec (codec.work work) 20000
    ok (
        finish_attempt row.attempt_id (mark_committed (codec.execution execution) work now)
          (record j { work = end_revision context.case_id now told }))

  -- `_commit` for a reserved attempt.
  unfoldable pub commit_reserved :
      (ℕ → ℕ) → AttemptRow → CurrentExecution → ℕ → Journal → Result (Journal × DeliveryReceipt)
  commit_reserved tasks row execution now j = do
    case ← check_delivery_time j row now
    raise_if (row.input.include_source_health && not (is_some row.health_versions)) value_error
    context ← load j.work (replay_query row)
    raise_if (not (codec.sha context.json == row.context_digest)) workflow_conflict
    validate context execution.assessment
    finished ←
        (if case.revision == row.case_revision
          then commit_work tasks row context execution now j
          else ok (finish_attempt row.attempt_id (mark_stale (codec.execution execution) now) j))
    final ← attempt_row texts codec finished row.attempt_id
    receipt ← read_receipt texts codec final
    ok (finished, receipt)

  -- `_encoded` with its bound, and `_canonical_json`.
  unfoldable pub check_encoded : ℕ → Result (Unit {0})
  check_encoded text =
      check_bytes texts codec text 524288 >> raise_if (not (codec.canonical text)) value_error

  -- `commit`
  unfoldable pub commit :
      (ℕ → ℕ) → ℕ → CurrentExecution → ℕ → Journal → Result (Journal × DeliveryReceipt)
  commit tasks attempt execution now j = do
    check_encoded (codec.execution execution)
    row ← attempt_row texts codec j attempt
    check_identity codec row execution.profile execution.assessment.case_id
        execution.assessment.case_revision execution.assessment.policy_digest
        execution.assessment.event_id
    elim row.status [
      | committed ↦
          raise_if (not (eq_option row.execution_json (some (codec.execution execution))))
            workflow_conflict
          >> (read_receipt texts codec row >>= λ r. ok (j, r))
      | reserved ↦ commit_reserved tasks row execution now j
      | failed ↦ err delivery_held
      | stale ↦ err delivery_held
      | abandoned ↦ err delivery_held
    ]

  -- What `fail` and `abandon` do after their checks.
  unfoldable pub settle :
      AttemptRow → (AttemptRow → AttemptRow) → ℕ → Journal → Result (Journal × DeliveryReceipt)
  settle row mark now j = do
    _ ← check_delivery_time j row now
    let finished = finish_attempt row.attempt_id mark j
    final ← attempt_row texts codec finished row.attempt_id
    receipt ← read_receipt texts codec final
    ok (finished, receipt)

  -- `fail`
  unfoldable pub fail : ℕ → CurrentFailure → ℕ → Journal → Result (Journal × DeliveryReceipt)
  fail attempt failure now j = do
    check_encoded (codec.failure failure)
    row ← attempt_row texts codec j attempt
    check_identity codec row failure.profile failure.case_id failure.case_revision
        failure.policy_digest failure.event_id
    elim row.status [
      | failed ↦
          raise_if (not (eq_option row.failure_json (some (codec.failure failure))))
            workflow_conflict
          >> (read_receipt texts codec row >>= λ r. ok (j, r))
      | reserved ↦ settle row (mark_failed (codec.failure failure) now) now j
      | committed ↦ err delivery_held
      | stale ↦ err delivery_held
      | abandoned ↦ err delivery_held
    ]

  -- What `abandon` does with the attempt that it found.
  unfoldable pub abandon_row : AttemptRow → ℕ → ℕ → Journal → Result (Journal × DeliveryReceipt)
  abandon_row row reason now j = elim row.status [
    | abandoned ↦
        raise_if (not (eq_option row.reason (some reason))) workflow_conflict
        >> (read_receipt texts codec row >>= λ r. ok (j, r))
    | committed ↦ err workflow_conflict
    | reserved ↦ settle row (mark_abandoned reason now) now j
    | failed ↦ settle row (mark_abandoned reason now) now j
    | stale ↦ settle row (mark_abandoned reason now) now j
  ]

  -- `abandon`
  unfoldable pub abandon : ℕ → ℕ → ℕ → ℕ → Journal → Result (Journal × DeliveryReceipt)
  abandon c request reason now j = do
    check_identifier texts c
    check_identifier texts request
    check_text texts reason 8 700
    row ← or_raise (find (of_delivery c request) j.attempts) key_error
    abandon_row row reason now j

  -- `get`
  unfoldable pub get_delivery : ℕ → ℕ → Journal → Result DeliveryReceipt
  get_delivery c request j = do
    check_identifier texts c
    check_identifier texts request
    row ← or_raise (find (of_delivery c request) j.attempts) key_error
    read_receipt texts codec row

-- `allowance`
abbrev pub allowance_of : Journal → Allowance
allowance_of j = j.allowance
