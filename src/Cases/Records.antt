-- ===== src/Cases/Records.antt =====
-- The tables of the work ledger (current/case_schema.py) and the row and receipt helpers of
-- current/case_records.py. A stored JSON text is represented by the value it encodes, and sha256 of
-- such a text is an argument.
use watershed_memory.Base.{
  ℕ, suc, Bool, true, false, not, ◌&&◌, Option, none, some, is_some, Result, ok, err, value_error,
  key_error, workflow_conflict, integrity_error, ◌>>=◌, ◌>>◌, raise_if, or_raise, List, [], ◌∷◌,
  ◌++◌, length, ltb, ◌==◌, if◌then◌else◌,
}
use watershed_memory.Base.Table.{find, update}
use watershed_memory.Text.{Texts}
use watershed_memory.Watch.Tables.{EventRow, Db}
use watershed_memory.Cases.Types.{
  CaseConfig, Kind, observation_review, coverage_review, result_verification, ReviewStatus,
  proposed, approved, deferred, dismissed, cancelled, ReviewDraft, EvidenceLink, HumanAction,
  ReviewRecord, check_record,
}

-- `current_cases`
pub record CaseRow : Type 0 where
  pub case_id : ℕ
  pub monitor_id : ℕ
  pub config : CaseConfig
  pub policy_digest : ℕ
  pub simulated : Bool
  pub revision : ℕ
  pub created_at : ℕ
  pub updated_at : ℕ

-- `current_reviews`
pub record ReviewRow : Type 0 where
  pub task_id : ℕ
  pub case_id : ℕ
  pub monitor_id : ℕ
  pub kind : Kind
  pub status : ReviewStatus
  pub revision : ℕ
  pub title : ℕ
  pub reason : ℕ
  pub next_check_at : Option ℕ
  pub created_at : ℕ
  pub updated_at : ℕ

pub data Author : Type 0 where
  proposal human : Author

-- `current_review_revisions`
pub record RevisionRow : Type 0 where
  pub case_id : ℕ
  pub task_id : ℕ
  pub revision : ℕ
  pub author : Author
  pub value : ReviewRecord
  pub recorded_at : ℕ

-- `current_review_evidence`
pub record EvidenceRow : Type 0 where
  pub link_id : ℕ
  pub case_id : ℕ
  pub task_id : ℕ
  pub monitor_id : ℕ
  pub event_id : ℕ
  pub recorded_at : ℕ

-- The operation and the command of an input.
pub data Command : Type 0 where
  stage : ReviewDraft → ℕ → Command
  add_link : EvidenceLink → ℕ → Command
  act_on : HumanAction → Command

-- What `_input` encodes.
pub record Input : Type 0 where
  pub case_id : ℕ
  pub policy_digest : ℕ
  pub command : Command

-- `current_receipts`
pub record ReceiptRow : Type 0 where
  pub case_id : ℕ
  pub request_id : ℕ
  pub input_hash : ℕ
  pub input : Input
  pub result : ReviewRecord
  pub recorded_at : ℕ

-- The database file: the work ledger and the tables of the watch.
pub record CaseDb : Type 0 where
  pub watch : Db
  pub cases : List CaseRow
  pub reviews : List ReviewRow
  pub revisions : List RevisionRow
  pub evidence : List EvidenceRow
  pub receipts : List ReceiptRow

-- `status IN ('PROPOSED','APPROVED','DEFERRED')`
unfoldable pub is_active : ReviewStatus → Bool
is_active proposed = true
is_active approved = true
is_active deferred = true
is_active dismissed = false
is_active cancelled = false

unfoldable pub eq_kind : Kind → Kind → Bool
eq_kind observation_review observation_review = true
eq_kind coverage_review coverage_review = true
eq_kind result_verification result_verification = true
eq_kind _ _ = false

abbrev pub of_case : ℕ → CaseRow → Bool
of_case c row = row.case_id == c

abbrev pub of_task : ℕ → ReviewRow → Bool
of_task t row = row.task_id == t

abbrev pub of_review : ℕ → ℕ → ReviewRow → Bool
of_review c t row = row.case_id == c && row.task_id == t

abbrev pub of_request : ℕ → ℕ → ReceiptRow → Bool
of_request c request row = row.case_id == c && row.request_id == request

abbrev pub of_revision : ℕ → ℕ → ℕ → RevisionRow → Bool
of_revision c t n row = row.case_id == c && row.task_id == t && row.revision == n

-- `case_row`
unfoldable pub case_row : CaseDb → ℕ → Result CaseRow
case_row db c = or_raise (find (of_case c) db.cases) key_error

-- The row joined with its case, as a record.
abbrev pub joined : ReviewRow → CaseRow → ReviewRecord
joined row case = record {
  task_id = row.task_id;
  case_id = row.case_id;
  kind = row.kind;
  status = row.status;
  revision = row.revision;
  title = row.title;
  reason = row.reason;
  next_check_at = row.next_check_at;
  simulated = case.simulated;
  created_at = row.created_at;
  updated_at = row.updated_at;
}

module _ (texts : Texts) where
  -- `record(raw)`
  unfoldable pub checked : ReviewRecord → Result ReviewRecord
  checked value = check_record texts value >> ok value

  -- `record(review_row(db, case_id, task_id))`
  unfoldable pub review_record : CaseDb → ℕ → ℕ → Result ReviewRecord
  review_record db c t = do
    row ← or_raise (find (of_review c t) db.reviews) key_error
    case ← or_raise (find (of_case c) db.cases) key_error
    checked (joined row case)

  -- `prior_receipt`
  unfoldable pub prior_receipt : (Input → ℕ) → CaseDb → ℕ → ℕ → Input → Result (Option ReviewRecord)
  prior_receipt digest db c request input = elim (find (of_request c request) db.receipts) [
    | none ↦ ok none
    | some row ↦
        raise_if (not (row.input_hash == digest input)) workflow_conflict
        >> (checked row.result >>= λ value. ok (some value))
  ]

-- `revision`
unfoldable pub add_revision : ReviewRecord → Author → ℕ → CaseDb → Result CaseDb
add_revision value author now db =
    if is_some (find (of_revision value.case_id value.task_id value.revision) db.revisions)
    then err integrity_error
    else ok (record db {
      revisions =
          db.revisions
          ++ record {
            case_id = value.case_id;
            task_id = value.task_id;
            revision = value.revision;
            author = author;
            value = value;
            recorded_at = now;
          }
            ∷ [];
    })

abbrev pub next_case : ℕ → CaseRow → CaseRow
next_case now case = record case { revision = suc case.revision; updated_at = now }

-- `receipt`
unfoldable pub add_receipt : (Input → ℕ) → ReviewRecord → ℕ → Input → ℕ → CaseDb → CaseDb
add_receipt digest value request input now db = record db {
  cases = update (of_case value.case_id) (next_case now) db.cases;
  receipts =
      db.receipts
      ++ record {
        case_id = value.case_id;
        request_id = request;
        input_hash = digest input;
        input = input;
        result = value;
        recorded_at = now;
      }
        ∷ [];
}

abbrev pub of_link : ℕ → ℕ → ℕ → EvidenceRow → Bool
of_link c t e row = row.case_id == c && row.task_id == t && row.event_id == e

abbrev pub of_event : ℕ → ℕ → EventRow → Bool
of_event e m row = row.event_id == e && row.monitor_id == m

-- `link`
unfoldable pub add_evidence : CaseRow → ℕ → ℕ → ℕ → CaseDb → Result CaseDb
add_evidence case t event now db =
    or_raise (find (of_event event case.monitor_id) db.watch.ledger.events) value_error >>= λ found.
    raise_if (ltb now found.interval_end) value_error
    >> ok (
        if is_some (find (of_link case.case_id t event) db.evidence) then db else record db {
          evidence =
              db.evidence
              ++ record {
                link_id = suc (length db.evidence);
                case_id = case.case_id;
                task_id = t;
                monitor_id = case.monitor_id;
                event_id = event;
                recorded_at = now;
              }
                ∷ [];
        })

-- `check_revision`
unfoldable pub check_revision : CaseRow → ℕ → Result (Unit {0})
check_revision case expected = raise_if (not (case.revision == expected)) workflow_conflict

-- `check_time`
unfoldable pub check_time : CaseRow → ℕ → Result (Unit {0})
check_time case now = raise_if (ltb now case.updated_at) value_error
