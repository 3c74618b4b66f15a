-- ===== src/Cases/Store.antt =====
-- The operations of `CaseStore` (current/case_store.py): each runs in one transaction, which an
-- exception rolls back. The fresh task id of a staged review is an argument.
pub mod Indexes
pub mod Receipts
pub mod Steps
pub mod Replay
pub mod Uniqueness
pub mod Evidence
pub mod Lifecycle
pub mod Isolation
use watershed_memory.Base.{
  ℕ, suc, ◌+◌, Bool, true, false, not, ◌&&◌, Option, none, some, is_some, Result, ok, err,
  value_error, key_error, workflow_conflict, integrity_error, ◌>>=◌, ◌>>◌, raise_if, or_raise, List,
  [], ◌∷◌, ◌++◌, map, elem, all, ltb, leb, ◌==◌, if◌then◌else◌, eq_option, arith,
}
use watershed_memory.Base.Table.{find, update, select}
use watershed_memory.Text.{Texts}
use watershed_memory.Time.{microseconds}
use watershed_memory.Watch.Records.{SeriesSpec, MonitorConfig, MonitorRow}
use watershed_memory.Watch.Tables.{Db}
use watershed_memory.Watch.Store.{of_id}
use watershed_memory.Cases.Types.{
  CoveragePolicy, CaseConfig, Kind, result_verification, ReviewStatus, proposed, approved, deferred,
  dismissed, cancelled, Verb, approve, modify, defer, dismiss, cancel, ReviewDraft, EvidenceLink,
  HumanAction, ReviewRecord, check_identifier,
}
use watershed_memory.Cases.Records.{
  CaseRow, ReviewRow, Author, proposal, human, EvidenceRow, Command, stage, add_link, act_on, Input,
  CaseDb, is_active, eq_kind, of_case, of_task, of_review, case_row, review_record, prior_receipt,
  add_revision, add_receipt, add_evidence, check_revision, check_time,
}
use watershed_memory.Cases.Registration.{
  add_case, check_expected, check_future, eq_bool, eq_case_config, eq_list, eq_policy, new_case,
  register_case,
}

unfoldable pub is_result : Kind → Bool
is_result result_verification = true
is_result _ = false

-- An active review of the case and the kind.
unfoldable pub is_open : ℕ → Kind → ReviewRow → Bool
is_open c kind row = row.case_id == c && eq_kind row.kind kind && is_active row.status

-- The row of a staged review.
unfoldable pub new_review : ℕ → CaseRow → ReviewDraft → ℕ → ReviewRow
new_review task case draft now = record {
  task_id = task;
  case_id = case.case_id;
  monitor_id = case.monitor_id;
  kind = draft.kind;
  status = proposed;
  revision = 1;
  title = draft.title;
  reason = draft.reason;
  next_check_at = draft.next_check_at;
  created_at = now;
  updated_at = now;
}

-- INSERT INTO current_reviews, whose key is the task id.
unfoldable pub insert_review : ReviewRow → CaseDb → Result CaseDb
insert_review row db =
    if is_some (find (of_task row.task_id) db.reviews)
    then err integrity_error
    else ok (record db { reviews = db.reviews ++ row ∷ [] })

-- What an action leads to: the status, the title and the due time.
abbrev pub Plan : Type 0
Plan = ReviewStatus × ℕ × Option ℕ

-- APPROVE, from the status that the review has.
unfoldable pub approval_of : ReviewStatus → ReviewRecord → ℕ → Result Plan
approval_of proposed prior now =
    check_future prior.next_check_at now >> ok (approved, prior.title, prior.next_check_at)
approval_of deferred prior now =
    check_future prior.next_check_at now >> ok (approved, prior.title, prior.next_check_at)
approval_of _ prior now = err workflow_conflict

-- MODIFY, whose action carries a title.
unfoldable pub modification_of : Option ℕ → Option ℕ → ℕ → Result Plan
modification_of (some title) due now = check_future due now >> ok (approved, title, due)
modification_of none due now = err value_error

unfoldable pub plan_of : Verb → ReviewRecord → HumanAction → ℕ → Result Plan
plan_of approve prior action now = approval_of prior.status prior now
plan_of modify prior action now = modification_of action.title action.next_check_at now
plan_of defer prior action now =
    check_future action.next_check_at now >> ok (deferred, prior.title, action.next_check_at)
plan_of dismiss prior action now = ok (dismissed, prior.title, none)
plan_of cancel prior action now = ok (cancelled, prior.title, none)

-- `_transition`
unfoldable pub transition : ReviewRecord → HumanAction → ℕ → Result Plan
transition prior action now = plan_of action.action prior action now

-- The UPDATE of `act`.
unfoldable pub revised : ReviewStatus → ℕ → Option ℕ → ℕ → ReviewRow → ReviewRow
revised status title due now row = record row {
  status = status;
  revision = suc row.revision;
  title = title;
  next_check_at = due;
  updated_at = now;
}

unfoldable pub update_review : ℕ → ℕ → Plan → ℕ → CaseDb → CaseDb
update_review c t (status, title, due) now db = record db {
  reviews = update (of_review c t) (revised status title due now) db.reviews;
}

module _ (texts : Texts) (digest : Input → ℕ) where
  -- What every operation begins with: the receipt of an earlier call answers it.
  unfoldable pub answer_or :
      CaseDb → ℕ → ℕ → Input → Result (CaseDb × ReviewRecord) → Result (CaseDb × ReviewRecord)
  answer_or db c request input body = prior_receipt texts digest db c request input >>= λ saved.
      elim saved [ none ↦ body | some value ↦ ok (db, value) ]

  -- `_stage_review` for a new request.
  unfoldable pub stage_new :
      ℕ → CaseRow → ReviewDraft → ℕ → ℕ → ℕ → CaseDb → Result (CaseDb × ReviewRecord)
  stage_new task case draft request expected now db = do
    check_revision case expected
    check_time case now
    check_future draft.next_check_at now
    raise_if (is_some (find (is_open case.case_id draft.kind) db.reviews)) workflow_conflict
    inserted ← insert_review (new_review task case draft now) db
    value ← review_record texts inserted case.case_id task
    noted ← add_revision value proposal now inserted
    linked ← add_evidence case task draft.event_id now noted
    ok (
      add_receipt digest value request
          (record {
            case_id = case.case_id;
            policy_digest = case.policy_digest;
            command = stage draft expected;
          })
          now linked,
      value,
    )

  -- `stage_review`
  unfoldable pub stage_review :
      ℕ → ℕ → ReviewDraft → ℕ → ℕ → ℕ → CaseDb → Result (CaseDb × ReviewRecord)
  stage_review task c draft request expected now db = do
    check_identifier texts c
    check_identifier texts request
    check_expected expected
    raise_if (is_result draft.kind) value_error
    case ← case_row db c
    answer_or db c request
        (record {
          case_id = case.case_id;
          policy_digest = case.policy_digest;
          command = stage draft expected;
        })
        (stage_new task case draft request expected now db)

  unfoldable pub link_new :
      CaseRow → EvidenceLink → ℕ → ℕ → ℕ → CaseDb → Result (CaseDb × ReviewRecord)
  link_new case link request expected now db = do
    check_revision case expected
    check_time case now
    value ← review_record texts db case.case_id link.task_id
    raise_if (not (is_active value.status)) workflow_conflict
    linked ← add_evidence case value.task_id link.event_id now db
    ok (
      add_receipt digest value request
          (record {
            case_id = case.case_id;
            policy_digest = case.policy_digest;
            command = add_link link expected;
          })
          now linked,
      value,
    )

  -- `link_evidence`
  unfoldable pub link_evidence :
      ℕ → EvidenceLink → ℕ → ℕ → ℕ → CaseDb → Result (CaseDb × ReviewRecord)
  link_evidence c link request expected now db = do
    check_identifier texts c
    check_identifier texts request
    check_expected expected
    case ← case_row db c
    answer_or db c request
        (record {
          case_id = case.case_id;
          policy_digest = case.policy_digest;
          command = add_link link expected;
        })
        (link_new case link request expected now db)

  unfoldable pub act_new : CaseRow → HumanAction → ℕ → ℕ → CaseDb → Result (CaseDb × ReviewRecord)
  act_new case action request now db = do
    check_time case now
    prior ← review_record texts db case.case_id action.task_id
    raise_if (not (prior.revision == action.expected_revision && is_active prior.status))
        workflow_conflict
    raise_if (ltb now prior.updated_at) value_error
    plan ← transition prior action now
    let changed = update_review case.case_id prior.task_id plan now db
    value ← review_record texts changed case.case_id prior.task_id
    noted ← add_revision value human now changed
    ok (
      add_receipt digest value request
          (record {
            case_id = case.case_id;
            policy_digest = case.policy_digest;
            command = act_on action;
          })
          now noted,
      value,
    )

  -- `act`
  unfoldable pub act : ℕ → HumanAction → ℕ → ℕ → CaseDb → Result (CaseDb × ReviewRecord)
  act c action request now db = do
    check_identifier texts c
    check_identifier texts request
    case ← case_row db c
    answer_or db c request
        (record {
          case_id = case.case_id;
          policy_digest = case.policy_digest;
          command = act_on action;
        })
        (act_new case action request now db)
