-- ===== src/Cases/Store/Isolation.antt =====
-- The operations on reviews write no table of the watch (current/case_store.py).
use watershed_memory.Base.{ℕ, ◌≡◌, refl, ok, arith}
use watershed_memory.Text.{Texts}
use watershed_memory.Cases.Types.{
  ReviewDraft, EvidenceLink, HumanAction, CaseConfig, CoveragePolicy, ReviewRecord,
}
use watershed_memory.Cases.Records.{
  CaseRow, Author, proposal, human, Input, CaseDb, ReviewRow, add_revision, add_receipt,
  add_evidence,
}
use watershed_memory.Cases.Registration.{add_case, register_case}
use watershed_memory.Cases.Store.{
  new_review, insert_review, update_review, stage_review, link_evidence, act,
}
use watershed_memory.Cases.Store.Steps.{stage_review-keeps, link_evidence-keeps, act-keeps}

insert_review_watch :
    (row : ReviewRow) (db db' : CaseDb) → insert_review row db ≡ ok db' → db'.watch ≡ db.watch
unfolding insert_review
insert_review_watch row db db' h = ground arith

add_revision_watch :
    (value : ReviewRecord) (author : Author) (now : ℕ) (db db' : CaseDb)
    → add_revision value author now db ≡ ok db'
    → db'.watch ≡ db.watch
unfolding add_revision
add_revision_watch value author now db db' h = ground arith

add_evidence_watch :
    (case : CaseRow) (t event now : ℕ) (db db' : CaseDb)
    → add_evidence case t event now db ≡ ok db'
    → db'.watch ≡ db.watch
unfolding add_evidence
add_evidence_watch case t event now db db' h = ground arith

module _ (texts : Texts) (digest : Input → ℕ) where
  pub stage_review_watch :
      (task c : ℕ) (draft : ReviewDraft) (request expected now : ℕ) (db db' : CaseDb)
      (value : ReviewRecord)
      → stage_review texts digest task c draft request expected now db ≡ ok (db', value)
      → db'.watch ≡ db.watch
  unfolding add_receipt
  stage_review_watch task c draft request expected now db db' value h =
      stage_review-keeps texts digest (λ d. d.watch ≡ db.watch) task c draft request expected now db
        db' value h
        (λ case s u. ground (
          arith,
          s.after,
          insert_review_watch (new_review task case draft now) db s.inserted s.insert,
          add_revision_watch value proposal now s.inserted s.noted s.note,
          add_evidence_watch case task draft.event_id now s.noted s.linked s.link,
        ))
        refl

  pub link_evidence_watch :
      (c : ℕ) (link : EvidenceLink) (request expected now : ℕ) (db db' : CaseDb)
      (value : ReviewRecord)
      → link_evidence texts digest c link request expected now db ≡ ok (db', value)
      → db'.watch ≡ db.watch
  unfolding add_receipt
  link_evidence_watch c link request expected now db db' value h =
      link_evidence-keeps texts digest (λ d. d.watch ≡ db.watch) c link request expected now db db'
        value h
        (λ case s u. ground (
          arith,
          s.after,
          add_evidence_watch case value.task_id link.event_id now db s.linked s.add,
        ))
        refl

  pub act_watch :
      (c : ℕ) (action : HumanAction) (request now : ℕ) (db db' : CaseDb) (value : ReviewRecord)
      → act texts digest c action request now db ≡ ok (db', value)
      → db'.watch ≡ db.watch
  unfolding add_receipt update_review
  act_watch c action request now db db' value h =
      act-keeps texts digest (λ d. d.watch ≡ db.watch) c action request now db db' value h
        (λ case s u. ground (
          arith,
          s.after,
          add_revision_watch value human now
              (update_review case.case_id s.prior.task_id s.plan now db) s.noted s.note,
        ))
        refl

pub register_case_writes :
    (digest : CoveragePolicy → ℕ) (config : CaseConfig) (now : ℕ) (db db' : CaseDb)
    → register_case digest config now db ≡ ok db'
    → (db'.watch ≡ db.watch) × (db'.reviews ≡ db.reviews)
unfolding register_case add_case
register_case_writes digest config now db db' h = ground arith
