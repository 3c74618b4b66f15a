-- ===== src/Cases/Store/Evidence.antt =====
-- When `link_evidence` of current/case_store.py writes evidence, and how often.
use watershed_memory.Base.{
  length, ℕ, suc, ◌≡◌, refl, true, ◌⊎◌, inl, inr, max, some, is_some, Option-cases, ok, or_raise,
  raise_if, value_error, [], ◌∷◌, ◌++◌, ltb, >>=-eq-ok, >>-eq-ok, arith,
}
use watershed_memory.Base.Table.{find, find_sound, count, count-append, count-none, count-is_some}
use watershed_memory.Text.{Texts}
use watershed_memory.Cases.Types.{EvidenceLink, ReviewRecord, check_identifier}
use watershed_memory.Cases.Records.{
  CaseRow, ReviewRow, EvidenceRow, Input, CaseDb, is_active, of_case, of_review, of_link, of_event,
  add_evidence, add_receipt, case_row,
}
use watershed_memory.Cases.Registration.{check_expected}
use watershed_memory.Cases.Store.{link_evidence}
use watershed_memory.Cases.Store.Steps.{LinkSteps, link_new-LinkSteps}
use watershed_memory.Cases.Store.Indexes.{answer_or-keeps, review_record-find}

-- A link that was made: the case was at the expected revision, the review was open, the event is one
-- of the case's monitor, and the event stands under the review, once if it was not there before.
pub record IsLinked (c : ℕ) (link : EvidenceLink) (expected : ℕ) (db db' : CaseDb) : Type 0 where
  pub case : CaseRow
  pub review : ReviewRow
  pub registered : find (of_case c) db.cases ≡ some case
  pub current : case.revision ≡ expected
  pub staged : find (of_review c link.task_id) db.reviews ≡ some review
  pub active : is_active review.status ≡ true
  pub observed :
      is_some (find (of_event link.event_id case.monitor_id) db.watch.ledger.events) ≡ true
  pub once :
      count (of_link c link.task_id link.event_id) db'.evidence
      ≡ max 1 (count (of_link c link.task_id link.event_id) db.evidence)

add_evidence_once :
    (case : CaseRow) (t event now : ℕ) (db db' : CaseDb)
    → add_evidence case t event now db ≡ ok db'
    → (is_some (find (of_event event case.monitor_id) db.watch.ledger.events) ≡ true)
      × (count (of_link case.case_id t event) db'.evidence
          ≡ max 1 (count (of_link case.case_id t event) db.evidence))
unfolding add_evidence count
add_evidence_once case t event now db db' h =
    let (found, e, k) =
      >>=-eq-ok
        (or_raise (find (of_event event case.monitor_id) db.watch.ledger.events) value_error) _ h in
    let k2 = >>-eq-ok (raise_if (ltb now found.interval_end) value_error) _ k in
    let added : EvidenceRow = record {
      link_id = suc (length db.evidence);
      case_id = case.case_id;
      task_id = t;
      monitor_id = case.monitor_id;
      event_id = event;
      recorded_at = now;
    } in
    (
      ground arith,
      elim (Option-cases (find (of_link case.case_id t event) db.evidence)) [
        | inl fresh ↦
            let rows : db'.evidence ≡ db.evidence ++ added ∷ [] = ground arith in
            rw (rows, count-append)
              (ground (arith, count-none (of_link case.case_id t event) db.evidence fresh))
        | inr (old, there) ↦
            let rows : db'.evidence ≡ db.evidence = ground arith in
            rw rows (ground (arith, count-is_some (of_link case.case_id t event) db.evidence))
      ],
    )

module _ (texts : Texts) (digest : Input → ℕ) where
  LinkSteps-IsLinked :
      (c : ℕ) (case : CaseRow) (link : EvidenceLink) (request expected now : ℕ) (db db' : CaseDb)
      (value : ReviewRecord)
      → case_row db c ≡ ok case
      → LinkSteps texts digest case link request expected now db db' value
      → IsLinked c link expected db db'
  unfolding case_row add_receipt
  LinkSteps-IsLinked c case link request expected now db db' value e s =
      let registered : find (of_case c) db.cases ≡ some case = ground arith in
      let named : case.case_id ≡ c =
        ground (arith, find_sound (of_case c) db.cases case registered) in
      let (row, staged, status, task) =
        review_record-find texts db case.case_id link.task_id value s.read in
      let same : value.task_id ≡ link.task_id =
        ground (arith, find_sound (of_review case.case_id link.task_id) db.reviews row staged) in
      let (observed, once) =
        add_evidence_once case value.task_id link.event_id now db s.linked s.add in
      record {
        case = case;
        review = row;
        registered = registered;
        current = s.current;
        staged = rw named at staged;
        active = rw (status, s.active);
        observed = observed;
        once = rw s.after (rw (named, same) at once);
      }

  -- Linking evidence that succeeds either leaves the database as it was, or finds the case at the
  -- expected revision, the review open and the event among those of the monitor of the case, and
  -- then the event is linked to the review: once if it was not, and as often as before if it was.
  pub link_evidence_guarded :
      (c : ℕ) (link : EvidenceLink) (request expected now : ℕ) (db db' : CaseDb)
      (value : ReviewRecord)
      → link_evidence texts digest c link request expected now db ≡ ok (db', value)
      → (db' ≡ db) ⊎ IsLinked c link expected db db'
  unfolding link_evidence
  link_evidence_guarded c link request expected now db db' value h =
      let k1 = >>-eq-ok (check_identifier texts c) _ h in
      let k2 = >>-eq-ok (check_identifier texts request) _ k1 in
      let k3 = >>-eq-ok (check_expected expected) _ k2 in
      let (case, e, k5) = >>=-eq-ok (case_row db c) _ k3 in
      answer_or-keeps texts digest (λ d. (d ≡ db) ⊎ IsLinked c link expected db d) db c request _ _
        db' value k5 (inl refl)
        (λ g. inr (
          LinkSteps-IsLinked c case link request expected now db db' value e
            (link_new-LinkSteps texts digest case link request expected now db db' value g)))
