-- ===== src/Cases/Store/Replay.antt =====
-- Requests are idempotent (current/case_store.py): the receipt of a call answers the call that is
-- repeated, at any later time.
use watershed_memory.Base.{ℕ, ◌≡◌, ◌∙◌, ok, raise_if, >>=-eq-ok, >>-eq-ok, inl, inr, value_error}
use watershed_memory.Text.{Texts}
use watershed_memory.Cases.Types.{
  ReviewDraft, EvidenceLink, HumanAction, ReviewRecord, check_identifier,
}
use watershed_memory.Cases.Records.{CaseRow, Input, CaseDb, proposal, human, case_row}
use watershed_memory.Cases.Registration.{check_expected}
use watershed_memory.Cases.Store.{
  update_review, stage_new, stage_review, link_new, link_evidence, act_new, act, is_result,
}
use watershed_memory.Cases.Store.Steps.{stage_new-StageSteps, link_new-LinkSteps, act_new-ActSteps}
use watershed_memory.Cases.Store.Receipts.{
  >>-again, >>=-ok, case_row-id, add_revision-tables, add_evidence-tables, insert_review-tables,
  review_record-checked, staged_input, linked_input, acted_input, Settles, answer_or_again,
}

module _ (texts : Texts) (digest : Input → ℕ) where
  stage_new-Settles :
      (task c : ℕ) (case : CaseRow) (draft : ReviewDraft) (request expected now : ℕ)
      (db db' : CaseDb) (value : ReviewRecord)
      → case.case_id ≡ c
      → stage_new texts digest task case draft request expected now db ≡ ok (db', value)
      → Settles texts digest c request (staged_input case draft expected) now db db' value
  stage_new-Settles task c case draft request expected now db db' value ec h =
      let s =
        stage_new-StageSteps texts digest task case draft request expected now db db' value h in
      let (valid, at_case) =
        review_record-checked texts s.inserted case.case_id task value s.read in
      let (r1, c1) = insert_review-tables _ db s.inserted s.insert in
      let (r2, c2) = add_revision-tables value proposal now s.inserted s.noted s.note in
      let (r3, c3) = add_evidence-tables case task draft.event_id now s.noted s.linked s.link in
      record {
        before = s.linked;
        receipts = r3 ∙ r2 ∙ r1;
        cases = c3 ∙ c2 ∙ c1;
        after = s.after;
        case_id = at_case ∙ ec;
        valid = valid;
      }

  link_new-Settles :
      (c : ℕ) (case : CaseRow) (link : EvidenceLink) (request expected now : ℕ) (db db' : CaseDb)
      (value : ReviewRecord)
      → case.case_id ≡ c
      → link_new texts digest case link request expected now db ≡ ok (db', value)
      → Settles texts digest c request (linked_input case link expected) now db db' value
  link_new-Settles c case link request expected now db db' value ec h =
      let s = link_new-LinkSteps texts digest case link request expected now db db' value h in
      let (valid, at_case) =
        review_record-checked texts db case.case_id link.task_id value s.read in
      let (r, t) = add_evidence-tables case value.task_id link.event_id now db s.linked s.add in
      record {
        before = s.linked;
        receipts = r;
        cases = t;
        after = s.after;
        case_id = at_case ∙ ec;
        valid = valid;
      }

  act_new-Settles :
      (c : ℕ) (case : CaseRow) (action : HumanAction) (request now : ℕ) (db db' : CaseDb)
      (value : ReviewRecord)
      → case.case_id ≡ c
      → act_new texts digest case action request now db ≡ ok (db', value)
      → Settles texts digest c request (acted_input case action) now db db' value
  unfolding update_review
  act_new-Settles c case action request now db db' value ec h =
      let s = act_new-ActSteps texts digest case action request now db db' value h in
      let changed = update_review case.case_id s.prior.task_id s.plan now db in
      let (valid, at_case) =
        review_record-checked texts changed case.case_id s.prior.task_id value s.reread in
      let (r, t) = add_revision-tables value human now changed s.noted s.note in
      record {
        before = s.noted;
        receipts = r;
        cases = t;
        after = s.after;
        case_id = at_case ∙ ec;
        valid = valid;
      }

  -- A staged request that succeeded, repeated with the same draft and revision at any time,
  -- returns the same review and leaves the database as it is.
  pub stage_review_again :
      (task task' c : ℕ) (draft : ReviewDraft) (request expected now now' : ℕ) (db db' : CaseDb)
      (value : ReviewRecord)
      → stage_review texts digest task c draft request expected now db ≡ ok (db', value)
      → stage_review texts digest task' c draft request expected now' db' ≡ ok (db', value)
  unfolding stage_review
  stage_review_again task task' c draft request expected now now' db db' value h =
      let k1 = >>-eq-ok (check_identifier texts c) _ h in
      let k2 = >>-eq-ok (check_identifier texts request) _ k1 in
      let k3 = >>-eq-ok (check_expected expected) _ k2 in
      let k4 = >>-eq-ok (raise_if (is_result draft.kind) value_error) _ k3 in
      let (case, e, k5) = >>=-eq-ok (case_row db c) _ k4 in
      let (again, rows) =
        answer_or_again texts digest c request (staged_input case draft expected) now db db' value
          case _ e k5
          (stage_new-Settles task c case draft request expected now db db' value
            (case_row-id db c case e)) in
      >>-again (check_identifier texts c) _ _ h (
        >>-again (check_identifier texts request) _ _ k1 (
          >>-again (check_expected expected) _ _ k2 (
            >>-again (raise_if (is_result draft.kind) value_error) _ _ k3 (elim rows [
              | inl e' ↦ >>=-ok (case_row db' c) _ e' (again _)
              | inr e' ↦ >>=-ok (case_row db' c) _ e' (again _)
            ]))))

  -- Linking evidence, repeated under its request at any time, returns the same review and leaves
  -- the database as it is.
  pub link_evidence_again :
      (c : ℕ) (link : EvidenceLink) (request expected now now' : ℕ) (db db' : CaseDb)
      (value : ReviewRecord)
      → link_evidence texts digest c link request expected now db ≡ ok (db', value)
      → link_evidence texts digest c link request expected now' db' ≡ ok (db', value)
  unfolding link_evidence
  link_evidence_again c link request expected now now' db db' value h =
      let k1 = >>-eq-ok (check_identifier texts c) _ h in
      let k2 = >>-eq-ok (check_identifier texts request) _ k1 in
      let k3 = >>-eq-ok (check_expected expected) _ k2 in
      let (case, e, k5) = >>=-eq-ok (case_row db c) _ k3 in
      let (again, rows) =
        answer_or_again texts digest c request (linked_input case link expected) now db db' value
          case _ e k5
          (link_new-Settles c case link request expected now db db' value
            (case_row-id db c case e)) in
      >>-again (check_identifier texts c) _ _ h (
        >>-again (check_identifier texts request) _ _ k1 (
          >>-again (check_expected expected) _ _ k2 (elim rows [
            | inl e' ↦ >>=-ok (case_row db' c) _ e' (again _)
            | inr e' ↦ >>=-ok (case_row db' c) _ e' (again _)
          ])))

  -- A human action that succeeded, repeated under its request at any time, returns the same review
  -- and leaves the database as it is.
  pub act_again :
      (c : ℕ) (action : HumanAction) (request now now' : ℕ) (db db' : CaseDb) (value : ReviewRecord)
      → act texts digest c action request now db ≡ ok (db', value)
      → act texts digest c action request now' db' ≡ ok (db', value)
  unfolding act
  act_again c action request now now' db db' value h =
      let k1 = >>-eq-ok (check_identifier texts c) _ h in
      let k2 = >>-eq-ok (check_identifier texts request) _ k1 in
      let (case, e, k5) = >>=-eq-ok (case_row db c) _ k2 in
      let (again, rows) =
        answer_or_again texts digest c request (acted_input case action) now db db' value case _ e
          k5 (act_new-Settles c case action request now db db' value (case_row-id db c case e)) in
      >>-again (check_identifier texts c) _ _ h (
        >>-again (check_identifier texts request) _ _ k1 (elim rows [
          | inl e' ↦ >>=-ok (case_row db' c) _ e' (again _)
          | inr e' ↦ >>=-ok (case_row db' c) _ e' (again _)
        ]))
