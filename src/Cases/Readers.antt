-- ===== src/Cases/Readers.antt =====
-- The readers of `CaseStore` in current/case_store.py: `context`, `get_review` and `evidence`.
use watershed_memory.Base.{
  ℕ, Bool, not, ◌&&◌, Result, ok, value_error, ◌>>=◌, ◌>>◌, raise_if, List, [], ◌∷◌, map, ltb, leb,
  ◌==◌,
}
use watershed_memory.Base.Table.{select}
use watershed_memory.Text.{Texts}
use watershed_memory.Watch.Payloads.{sort}
use watershed_memory.Watch.Store.{take_rows}
use watershed_memory.Cases.Types.{
  Kind, observation_review, coverage_review, result_verification, ReviewRecord, check_identifier,
}
use watershed_memory.Cases.Records.{
  CaseRow, ReviewRow, EvidenceRow, CaseDb, is_active, case_row, joined, checked, review_record,
}

-- What `context` returns; the policy's identity lies in the configuration of the case.
pub record Context : Type 0 where
  pub case_id : ℕ
  pub monitor_id : ℕ
  pub policy_id : ℕ
  pub policy_digest : ℕ
  pub simulated : Bool
  pub revision : ℕ
  pub updated_at : ℕ
  pub active_reviews : List ReviewRecord

-- The order of the kinds as texts: 'COVERAGE_REVIEW', 'OBSERVATION_REVIEW', 'RESULT_VERIFICATION'.
abbrev kind_rank : Kind → ℕ
kind_rank coverage_review = 0
kind_rank observation_review = 1
kind_rank result_verification = 2

abbrev kind_before : ReviewRow → ReviewRow → Bool
kind_before a b = ltb (kind_rank a.kind) (kind_rank b.kind)

abbrev active_of : ℕ → ReviewRow → Bool
active_of c row = row.case_id == c && is_active row.status

-- ORDER BY link_id DESC
abbrev newer_link : EvidenceRow → EvidenceRow → Bool
newer_link a b = ltb b.link_id a.link_id

abbrev evidence_of : ℕ → ℕ → EvidenceRow → Bool
evidence_of c t row = row.case_id == c && row.task_id == t

module _ (texts : Texts) where
  -- Each row, read as a record.
  unfoldable pub records : CaseRow → List ReviewRow → Result (List ReviewRecord)
  records case [] = ok []
  records case (row ∷ rows) = do
    value ← checked texts (joined row case)
    rest ← records case rows
    ok (value ∷ rest)

  -- `context`
  unfoldable pub context : ℕ → CaseDb → Result Context
  context c db = do
    check_identifier texts c
    case ← case_row db c
    reviews ← records case (take_rows 3 (sort kind_before (select (active_of c) db.reviews)))
    ok (record {
      case_id = c;
      monitor_id = case.monitor_id;
      policy_id = case.config.coverage_policy.policy_id;
      policy_digest = case.policy_digest;
      simulated = case.simulated;
      revision = case.revision;
      updated_at = case.updated_at;
      active_reviews = reviews;
    })

  -- `get_review`
  unfoldable pub get_review : ℕ → ℕ → CaseDb → Result ReviewRecord
  get_review c t db = do
    check_identifier texts c
    check_identifier texts t
    review_record texts db c t

  -- `evidence`
  unfoldable pub evidence : ℕ → ℕ → ℕ → CaseDb → Result (List ℕ)
  evidence c t limit db = do
    check_identifier texts c
    check_identifier texts t
    raise_if (not (leb 1 limit && leb limit 100)) value_error
    _ ← review_record texts db c t
    let rows = sort newer_link (select (evidence_of c t) db.evidence)
    ok (map (λ (row : EvidenceRow). row.event_id) (take_rows limit rows))
