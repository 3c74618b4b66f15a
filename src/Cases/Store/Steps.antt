-- ===== src/Cases/Store/Steps.antt =====
-- The steps of a successful new request of current/case_store.py: what each part read and wrote.
use watershed_memory.Base.{
  ℕ, ◌≡◌, not, ◌&&◌, none, is_some, ok, value_error, workflow_conflict, raise_if, >>=-eq-ok,
  >>-eq-ok, true, ltb, ◌==◌, arith,
}
use watershed_memory.Base.Table.{find}
use watershed_memory.Text.{Texts}
use watershed_memory.Cases.Types.{
  ReviewDraft, EvidenceLink, HumanAction, ReviewRecord, check_identifier,
}
use watershed_memory.Cases.Records.{
  CaseRow, proposal, human, Input, CaseDb, is_active, review_record, add_revision, add_receipt,
  add_evidence, check_revision, check_time, case_row,
}
use watershed_memory.Cases.Registration.{check_future, check_expected}
use watershed_memory.Cases.Store.{
  Plan, is_open, new_review, insert_review, update_review, transition, stage_new, link_new, act_new,
  is_result, stage_review, link_evidence, act,
}
use watershed_memory.Cases.Store.Indexes.{answer_or-keeps}
use watershed_memory.Cases.Store.Receipts.{staged_input, linked_input, acted_input}

module _ (texts : Texts) (digest : Input → ℕ) where
  pub record StageSteps (task : ℕ) (case : CaseRow) (draft : ReviewDraft) (request expected now : ℕ)
      (db db' : CaseDb) (value : ReviewRecord) : Type 0 where
    pub inserted : CaseDb
    pub noted : CaseDb
    pub linked : CaseDb
    pub current : case.revision ≡ expected
    pub free : find (is_open case.case_id draft.kind) db.reviews ≡ none
    pub insert : insert_review (new_review task case draft now) db ≡ ok inserted
    pub read : review_record texts inserted case.case_id task ≡ ok value
    pub note : add_revision value proposal now inserted ≡ ok noted
    pub link : add_evidence case task draft.event_id now noted ≡ ok linked
    pub after : db' ≡ add_receipt digest value request (staged_input case draft expected) now linked

  pub stage_new-StageSteps :
      (task : ℕ) (case : CaseRow) (draft : ReviewDraft) (request expected now : ℕ) (db db' : CaseDb)
      (value : ReviewRecord)
      → stage_new texts digest task case draft request expected now db ≡ ok (db', value)
      → StageSteps task case draft request expected now db db' value
  unfolding stage_new check_revision
  stage_new-StageSteps task case draft request expected now db db' value h =
      let k1 = >>-eq-ok (raise_if (not (case.revision == expected)) workflow_conflict) _ h in
      let k2 = >>-eq-ok (check_time case now) _ k1 in
      let k3 = >>-eq-ok (check_future draft.next_check_at now) _ k2 in
      let k4 =
        >>-eq-ok
          (raise_if (is_some (find (is_open case.case_id draft.kind) db.reviews)) workflow_conflict)
          _ k3 in
      let (db1, e1, k5) = >>=-eq-ok (insert_review (new_review task case draft now) db) _ k4 in
      let (read_value, e2, k6) = >>=-eq-ok (review_record texts db1 case.case_id task) _ k5 in
      let (db2, e3, k7) = >>=-eq-ok (add_revision read_value proposal now db1) _ k6 in
      let (db3, e4, k8) = >>=-eq-ok (add_evidence case task draft.event_id now db2) _ k7 in
      let same : read_value ≡ value = ground arith in
      record {
        inserted = db1;
        noted = db2;
        linked = db3;
        current = ground arith;
        free = ground arith;
        insert = e1;
        read = rw same at e2;
        note = rw same at e3;
        link = e4;
        after = ground arith;
      }

  pub record LinkSteps (case : CaseRow) (link : EvidenceLink) (request expected now : ℕ)
      (db db' : CaseDb) (value : ReviewRecord) : Type 0 where
    pub linked : CaseDb
    pub current : case.revision ≡ expected
    pub read : review_record texts db case.case_id link.task_id ≡ ok value
    pub active : is_active value.status ≡ true
    pub add : add_evidence case value.task_id link.event_id now db ≡ ok linked
    pub after : db' ≡ add_receipt digest value request (linked_input case link expected) now linked

  pub link_new-LinkSteps :
      (case : CaseRow) (link : EvidenceLink) (request expected now : ℕ) (db db' : CaseDb)
      (value : ReviewRecord)
      → link_new texts digest case link request expected now db ≡ ok (db', value)
      → LinkSteps case link request expected now db db' value
  unfolding link_new check_revision
  link_new-LinkSteps case link request expected now db db' value h =
      let k1 = >>-eq-ok (raise_if (not (case.revision == expected)) workflow_conflict) _ h in
      let k2 = >>-eq-ok (check_time case now) _ k1 in
      let (read_value, e2, k3) =
        >>=-eq-ok (review_record texts db case.case_id link.task_id) _ k2 in
      let k4 = >>-eq-ok (raise_if (not (is_active read_value.status)) workflow_conflict) _ k3 in
      let (db1, e4, k5) =
        >>=-eq-ok (add_evidence case read_value.task_id link.event_id now db) _ k4 in
      let same : read_value ≡ value = ground arith in
      record {
        linked = db1;
        current = ground arith;
        read = rw same at e2;
        active = ground arith;
        add = rw same at e4;
        after = ground arith;
      }

  pub record ActSteps (case : CaseRow) (action : HumanAction) (request now : ℕ) (db db' : CaseDb)
      (value : ReviewRecord) : Type 0 where
    pub prior : ReviewRecord
    pub plan : Plan
    pub noted : CaseDb
    pub read : review_record texts db case.case_id action.task_id ≡ ok prior
    pub active : is_active prior.status ≡ true
    pub expected : prior.revision ≡ action.expected_revision
    pub moves : transition prior action now ≡ ok plan
    pub reread :
        review_record texts
          (update_review case.case_id prior.task_id plan now db)
          case.case_id
          prior.task_id
        ≡ ok value
    pub note :
        add_revision value human now (update_review case.case_id prior.task_id plan now db)
        ≡ ok noted
    pub after : db' ≡ add_receipt digest value request (acted_input case action) now noted

  pub act_new-ActSteps :
      (case : CaseRow) (action : HumanAction) (request now : ℕ) (db db' : CaseDb)
      (value : ReviewRecord)
      → act_new texts digest case action request now db ≡ ok (db', value)
      → ActSteps case action request now db db' value
  unfolding act_new
  act_new-ActSteps case action request now db db' value h =
      let k1 = >>-eq-ok (check_time case now) _ h in
      let (prior, e1, k2) = >>=-eq-ok (review_record texts db case.case_id action.task_id) _ k1 in
      let k3 =
        >>-eq-ok
          (raise_if (not (prior.revision == action.expected_revision && is_active prior.status))
            workflow_conflict)
          _ k2 in
      let k4 = >>-eq-ok (raise_if (ltb now prior.updated_at) value_error) _ k3 in
      let (plan, e2, k5) = >>=-eq-ok (transition prior action now) _ k4 in
      let changed = update_review case.case_id prior.task_id plan now db in
      let (read_value, e3, k6) =
        >>=-eq-ok (review_record texts changed case.case_id prior.task_id) _ k5 in
      let (db2, e4, k7) = >>=-eq-ok (add_revision read_value human now changed) _ k6 in
      let same : read_value ≡ value = ground arith in
      record {
        prior = prior;
        plan = plan;
        noted = db2;
        read = e1;
        active = ground arith;
        expected = ground arith;
        moves = e2;
        reread = rw same at e3;
        note = rw same at e4;
        after = ground arith;
      }

  -- A property that a new request keeps is kept by the operation.
  pub stage_review-keeps {ℓ} :
      (P : CaseDb → Type ℓ) (task c : ℕ) (draft : ReviewDraft) (request expected now : ℕ)
      (db db' : CaseDb) (value : ReviewRecord)
      → stage_review texts digest task c draft request expected now db ≡ ok (db', value)
      → ((case : CaseRow)
          → StageSteps task case draft request expected now db db' value
          → P db
          → P db')
      → P db
      → P db'
  unfolding stage_review
  stage_review-keeps P task c draft request expected now db db' value h k u =
      let k1 = >>-eq-ok (check_identifier texts c) _ h in
      let k2 = >>-eq-ok (check_identifier texts request) _ k1 in
      let k3 = >>-eq-ok (check_expected expected) _ k2 in
      let k4 = >>-eq-ok (raise_if (is_result draft.kind) value_error) _ k3 in
      let (case, e, k5) = >>=-eq-ok (case_row db c) _ k4 in
      answer_or-keeps texts digest P db c request _ _ db' value k5 u
        (λ g. k case (stage_new-StageSteps task case draft request expected now db db' value g) u)

  pub link_evidence-keeps {ℓ} :
      (P : CaseDb → Type ℓ) (c : ℕ) (link : EvidenceLink) (request expected now : ℕ)
      (db db' : CaseDb) (value : ReviewRecord)
      → link_evidence texts digest c link request expected now db ≡ ok (db', value)
      → ((case : CaseRow) → LinkSteps case link request expected now db db' value → P db → P db')
      → P db
      → P db'
  unfolding link_evidence
  link_evidence-keeps P c link request expected now db db' value h k u =
      let k1 = >>-eq-ok (check_identifier texts c) _ h in
      let k2 = >>-eq-ok (check_identifier texts request) _ k1 in
      let k3 = >>-eq-ok (check_expected expected) _ k2 in
      let (case, e, k5) = >>=-eq-ok (case_row db c) _ k3 in
      answer_or-keeps texts digest P db c request _ _ db' value k5 u
        (λ g. k case (link_new-LinkSteps case link request expected now db db' value g) u)

  pub act-keeps {ℓ} :
      (P : CaseDb → Type ℓ) (c : ℕ) (action : HumanAction) (request now : ℕ) (db db' : CaseDb)
      (value : ReviewRecord)
      → act texts digest c action request now db ≡ ok (db', value)
      → ((case : CaseRow) → ActSteps case action request now db db' value → P db → P db')
      → P db
      → P db'
  unfolding act
  act-keeps P c action request now db db' value h k u =
      let k1 = >>-eq-ok (check_identifier texts c) _ h in
      let k2 = >>-eq-ok (check_identifier texts request) _ k1 in
      let (case, e, k5) = >>=-eq-ok (case_row db c) _ k2 in
      answer_or-keeps texts digest P db c request _ _ db' value k5 u
        (λ g. k case (act_new-ActSteps case action request now db db' value g) u)
