-- ===== src/Cases/Store/Uniqueness.antt =====
-- The index current_active_kind of current/case_schema.py, as the operations of
-- current/case_store.py keep it.
use watershed_memory.Base.{ℕ, ◌≡◌, some, ok, arith}
use mathlib.Core.Path.{subst}
use watershed_memory.Base.Table.{find, find_sound}
use watershed_memory.Text.{Texts}
use watershed_memory.Cases.Types.{ReviewDraft, EvidenceLink, HumanAction, ReviewRecord}
use watershed_memory.Cases.Records.{CaseRow, Input, CaseDb, proposal, human, of_review, add_receipt}
use watershed_memory.Cases.Store.{update_review, stage_review, link_evidence, act}
use watershed_memory.Cases.Store.Steps.{
  StageSteps, LinkSteps, ActSteps, stage_review-keeps, link_evidence-keeps, act-keeps,
}
use watershed_memory.Cases.Store.Indexes.{
  IsUnique, add_revision-reviews, add_evidence-reviews, insert_review-IsUnique, review_record-find,
  update_review-IsUnique,
}

module _ (texts : Texts) (digest : Input → ℕ) where
  StageSteps-IsUnique :
      (task : ℕ) (case : CaseRow) (draft : ReviewDraft) (request expected now : ℕ) (db db' : CaseDb)
      (value : ReviewRecord)
      → StageSteps texts digest task case draft request expected now db db' value
      → IsUnique db.reviews
      → IsUnique db'.reviews
  unfolding add_receipt
  StageSteps-IsUnique task case draft request expected now db db' value s u =
      let same : s.inserted.reviews ≡ db'.reviews = ground (
        arith,
        s.after,
        add_revision-reviews value proposal now s.inserted s.noted s.note,
        add_evidence-reviews case task draft.event_id now s.noted s.linked s.link,
      ) in
      subst IsUnique same
        (insert_review-IsUnique case draft task now db s.inserted s.free s.insert u)

  LinkSteps-IsUnique :
      (case : CaseRow) (link : EvidenceLink) (request expected now : ℕ) (db db' : CaseDb)
      (value : ReviewRecord)
      → LinkSteps texts digest case link request expected now db db' value
      → IsUnique db.reviews
      → IsUnique db'.reviews
  unfolding add_receipt
  LinkSteps-IsUnique case link request expected now db db' value s u =
      let same : db.reviews ≡ db'.reviews = ground (
        arith,
        s.after,
        add_evidence-reviews case value.task_id link.event_id now db s.linked s.add,
      ) in
      subst IsUnique same u

  ActSteps-IsUnique :
      (case : CaseRow) (action : HumanAction) (request now : ℕ) (db db' : CaseDb)
      (value : ReviewRecord)
      → ActSteps texts digest case action request now db db' value
      → IsUnique db.reviews
      → IsUnique db'.reviews
  unfolding add_receipt
  ActSteps-IsUnique case action request now db db' value s u =
      let changed = update_review case.case_id s.prior.task_id s.plan now db in
      let same : changed.reviews ≡ db'.reviews =
        ground (arith, s.after, add_revision-reviews value human now changed s.noted s.note) in
      let (row, found, status, task) =
        review_record-find texts db case.case_id action.task_id s.prior s.read in
      let hit : find (of_review case.case_id s.prior.task_id) db.reviews ≡ some row =
        ground (arith, find_sound (of_review case.case_id action.task_id) db.reviews row found) in
      subst IsUnique same (
        update_review-IsUnique case.case_id s.prior.task_id now s.plan row db hit
          (ground (arith, s.active)) u)

  -- Where task ids are unique and a case has one active review of each kind at most, this still
  -- holds after staging a review.
  pub stage_review-IsUnique :
      (task c : ℕ) (draft : ReviewDraft) (request expected now : ℕ) (db db' : CaseDb)
      (value : ReviewRecord)
      → stage_review texts digest task c draft request expected now db ≡ ok (db', value)
      → IsUnique db.reviews
      → IsUnique db'.reviews
  stage_review-IsUnique task c draft request expected now db db' value h =
      stage_review-keeps texts digest (λ d. IsUnique d.reviews) task c draft request expected now db
        db' value h (λ case. StageSteps-IsUnique task case draft request expected now db db' value)

  -- Where that holds before, linking evidence keeps task ids unique and leaves one active review
  -- of each kind in each case at most.
  pub link_evidence-IsUnique :
      (c : ℕ) (link : EvidenceLink) (request expected now : ℕ) (db db' : CaseDb)
      (value : ReviewRecord)
      → link_evidence texts digest c link request expected now db ≡ ok (db', value)
      → IsUnique db.reviews
      → IsUnique db'.reviews
  link_evidence-IsUnique c link request expected now db db' value h =
      link_evidence-keeps texts digest (λ d. IsUnique d.reviews) c link request expected now db db'
        value h (λ case. LinkSteps-IsUnique case link request expected now db db' value)

  -- Where task ids are unique and a case has one active review of each kind at most, this still
  -- holds after a human action.
  pub act-IsUnique :
      (c : ℕ) (action : HumanAction) (request now : ℕ) (db db' : CaseDb) (value : ReviewRecord)
      → act texts digest c action request now db ≡ ok (db', value)
      → IsUnique db.reviews
      → IsUnique db'.reviews
  act-IsUnique c action request now db db' value h =
      act-keeps texts digest (λ d. IsUnique d.reviews) c action request now db db' value h
        (λ case. ActSteps-IsUnique case action request now db db' value)
