-- ===== src/Cases/Store/Lifecycle.antt =====
-- The life of a review under `act` of current/case_store.py.
use watershed_memory.Base.{
  ℕ, ◌≡◌, ◌∙◌, true, false, ◌&&◌, some, ok, ◌==◌, inl, inr, Bool-cases, arith,
}
use mathlib.Core.Path.{subst}
use watershed_memory.Base.Table.{find, find_sound, find-update_other}
use watershed_memory.Text.{Texts}
use watershed_memory.Cases.Types.{HumanAction, ReviewRecord}
use watershed_memory.Cases.Records.{
  CaseRow, ReviewRow, Input, CaseDb, human, is_active, of_review, add_receipt,
}
use watershed_memory.Cases.Store.{Plan, update_review, revised, act}
use watershed_memory.Cases.Store.Steps.{ActSteps, act-keeps}
use watershed_memory.Cases.Store.Indexes.{add_revision-reviews, review_record-find}

-- A review that is closed is not the one that an action on an active review changes.
update_review-closed :
    (c t d s now : ℕ) (plan : Plan) (row closed : ReviewRow) (db : CaseDb)
    → find (of_review c t) db.reviews ≡ some row
    → is_active row.status ≡ true
    → find (of_review d s) db.reviews ≡ some closed
    → is_active closed.status ≡ false
    → find (of_review d s) (update_review c t plan now db).reviews ≡ some closed
unfolding update_review revised
update_review-closed c t d s now plan row closed db e active e' inactive =
    let at = find_sound (of_review d s) db.reviews closed e' in
    elim (Bool-cases (c == d && t == s)) [
      | inl hit ↦
          let ec : c ≡ d = ground arith in
          let et : t ≡ s = ground arith in
          let same : find (of_review d s) db.reviews ≡ some row =
            subst (λ x. find (of_review x s) db.reviews ≡ some row) ec
              (subst (λ x. find (of_review c x) db.reviews ≡ some row) et e) in
          let clash : row ≡ closed = ground arith in ground arith
      | inr miss ↦
          find-update_other (of_review d s) (of_review c t) (revised plan.0 plan.1 plan.2 now)
            db.reviews (λ a ea. ground arith) (λ a ea. ground arith)
          ∙ e'
    ]

module _ (texts : Texts) (digest : Input → ℕ) where
  ActSteps-closed :
      (case : CaseRow) (action : HumanAction) (request now d s : ℕ) (closed : ReviewRow)
      (db db' : CaseDb) (value : ReviewRecord)
      → is_active closed.status ≡ false
      → ActSteps texts digest case action request now db db' value
      → find (of_review d s) db.reviews ≡ some closed
      → find (of_review d s) db'.reviews ≡ some closed
  unfolding add_receipt
  ActSteps-closed case action request now d s closed db db' value inactive st e =
      let changed = update_review case.case_id st.prior.task_id st.plan now db in
      let same : changed.reviews ≡ db'.reviews =
        ground (arith, st.after, add_revision-reviews value human now changed st.noted st.note) in
      let (row, found, status, task) =
        review_record-find texts db case.case_id action.task_id st.prior st.read in
      let hit : find (of_review case.case_id st.prior.task_id) db.reviews ≡ some row =
        ground (arith, find_sound (of_review case.case_id action.task_id) db.reviews row found) in
      subst (λ rows. find (of_review d s) rows ≡ some closed) same
        (update_review-closed case.case_id st.prior.task_id d s now st.plan row closed db hit
          (ground (arith, st.active)) e inactive)

  -- A human action leaves every dismissed or cancelled review as it is.
  pub act_keeps_closed :
      (c : ℕ) (action : HumanAction) (request now d s : ℕ) (closed : ReviewRow) (db db' : CaseDb)
      (value : ReviewRecord)
      → act texts digest c action request now db ≡ ok (db', value)
      → find (of_review d s) db.reviews ≡ some closed
      → is_active closed.status ≡ false
      → find (of_review d s) db'.reviews ≡ some closed
  act_keeps_closed c action request now d s closed db db' value h e inactive =
      act-keeps texts digest (λ x. find (of_review d s) x.reviews ≡ some closed) c action request
        now db db' value h
        (λ case. ActSteps-closed case action request now d s closed db db' value inactive) e
