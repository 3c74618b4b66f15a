-- ===== src/Cases/Store/Indexes.antt =====
-- The keys of current_reviews (current/case_schema.py) under the writes of current/case_store.py.
use watershed_memory.Base.{
  ℕ, ◌≤◌, ◌≡◌, refl, true, Option, none, some, Result, ok, raise_if, or_raise, >>=-eq-ok, >>-eq-ok,
  List, [], ◌∷◌, ◌++◌, inl, inr, Bool-cases, arith, ltb, key_error, value_error, ==_iff,
}
use mathlib.Core.Path.{subst}
use watershed_memory.Base.Table.{find, count, count-append, count-update_le, count_mono, count-none}
use watershed_memory.Text.{Texts}
use watershed_memory.Cases.Types.{
  Kind, observation_review, coverage_review, result_verification, ReviewDraft, ReviewRecord,
  check_record,
}
use watershed_memory.Cases.Records.{
  CaseRow, ReviewRow, Author, Input, CaseDb, is_active, eq_kind, of_case, of_task, of_review,
  of_event, joined, checked, review_record, prior_receipt, add_revision, add_evidence,
}
use watershed_memory.Cases.Store.{
  Plan, is_open, new_review, insert_review, update_review, revised, answer_or,
}

-- The rows that the indexes of the reviews keep apart.
pub record IsUnique (rows : List ReviewRow) : Type 0 where
  pub tasks : (t : ℕ) → count (of_task t) rows ≤ 1
  pub kinds : (c : ℕ) (kind : Kind) → count (is_open c kind) rows ≤ 1

eq_kind_sound : (a b : Kind) → eq_kind a b ≡ true → a ≡ b
unfolding eq_kind
eq_kind_sound observation_review observation_review h = refl
eq_kind_sound observation_review coverage_review h = cc
eq_kind_sound observation_review result_verification h = cc
eq_kind_sound coverage_review observation_review h = cc
eq_kind_sound coverage_review coverage_review h = refl
eq_kind_sound coverage_review result_verification h = cc
eq_kind_sound result_verification observation_review h = cc
eq_kind_sound result_verification coverage_review h = cc
eq_kind_sound result_verification result_verification h = refl

open_row :
    (c : ℕ) (kind : Kind) (row : ReviewRow)
    → is_open c kind row ≡ true
    → (row.case_id ≡ c) × (row.kind ≡ kind)
unfolding is_open
open_row c kind row h = (ground arith, eq_kind_sound row.kind kind (ground arith))

-- What the steps after the reviews were written leave alone.
pub add_revision-reviews :
    (value : ReviewRecord) (author : Author) (now : ℕ) (db db' : CaseDb)
    → add_revision value author now db ≡ ok db'
    → db'.reviews ≡ db.reviews
unfolding add_revision
add_revision-reviews value author now db db' h = ground arith

pub add_evidence-reviews :
    (case : CaseRow) (t event now : ℕ) (db db' : CaseDb)
    → add_evidence case t event now db ≡ ok db'
    → db'.reviews ≡ db.reviews
unfolding add_evidence
add_evidence-reviews case t event now db db' h =
    let (found, e, k) =
      >>=-eq-ok
        (or_raise (find (of_event event case.monitor_id) db.watch.ledger.events) value_error) _ h in
    ground (arith, >>-eq-ok (raise_if (ltb now found.interval_end) value_error) _ k)

tasks-snoc :
    (rows : List ReviewRow) (row : ReviewRow) (t : ℕ)
    → find (of_task row.task_id) rows ≡ none
    → count (of_task t) rows ≤ 1
    → count (of_task t) (rows ++ row ∷ []) ≤ 1
unfolding count
tasks-snoc rows row t fresh u = elim (Bool-cases (of_task t row)) [
  | inl hit ↦
      let e : row.task_id ≡ t = (==_iff _ _).0 hit in
      let none_t : count (of_task t) rows ≡ 0 =
        subst (λ s. count (of_task s) rows ≡ 0) e (count-none (of_task row.task_id) rows fresh) in
      rw (count-append (of_task t) rows (row ∷ [])) (ground arith)
  | inr miss ↦ rw (count-append (of_task t) rows (row ∷ [])) (ground arith)
]

kinds-snoc :
    (rows : List ReviewRow) (row : ReviewRow) (c : ℕ) (kind : Kind)
    → find (is_open row.case_id row.kind) rows ≡ none
    → count (is_open c kind) rows ≤ 1
    → count (is_open c kind) (rows ++ row ∷ []) ≤ 1
unfolding count
kinds-snoc rows row c kind free u = elim (Bool-cases (is_open c kind row)) [
  | inl hit ↦
      let (ec, ek) = open_row c kind row hit in
      let none_c : count (is_open c kind) rows ≡ 0 =
        subst (λ s. count (is_open s kind) rows ≡ 0) ec
          (subst (λ k. count (is_open row.case_id k) rows ≡ 0) ek
            (count-none (is_open row.case_id row.kind) rows free)) in
      rw (count-append (is_open c kind) rows (row ∷ [])) (ground arith)
  | inr miss ↦ rw (count-append (is_open c kind) rows (row ∷ [])) (ground arith)
]

-- A new row whose task is new, in a case without an open review of its kind.
snoc-IsUnique :
    (rows : List ReviewRow) (row : ReviewRow)
    → find (of_task row.task_id) rows ≡ none
    → find (is_open row.case_id row.kind) rows ≡ none
    → IsUnique rows
    → IsUnique (rows ++ row ∷ [])
snoc-IsUnique rows row fresh free u = record {
  tasks = λ t. tasks-snoc rows row t fresh (u.tasks t);
  kinds = λ c kind. kinds-snoc rows row c kind free (u.kinds c kind);
}

pub insert_review-IsUnique :
    (case : CaseRow) (draft : ReviewDraft) (task now : ℕ) (db db' : CaseDb)
    → find (is_open case.case_id draft.kind) db.reviews ≡ none
    → insert_review (new_review task case draft now) db ≡ ok db'
    → IsUnique db.reviews
    → IsUnique db'.reviews
unfolding insert_review new_review is_open
insert_review-IsUnique case draft task now db db' e h u =
    let row = new_review task case draft now in
    let fresh : find (of_task task) db.reviews ≡ none = ground arith in
    let same : db'.reviews ≡ db.reviews ++ row ∷ [] = ground arith in
    rw same (snoc-IsUnique db.reviews row fresh e u)

-- The row behind a record that the store read.
pub review_record-find :
    (texts : Texts) (db : CaseDb) (c t : ℕ) (value : ReviewRecord)
    → review_record texts db c t ≡ ok value
    → (row : ReviewRow) × (find (of_review c t) db.reviews ≡ some row)
      × (row.status ≡ value.status)
      × (row.task_id ≡ value.task_id)
unfolding review_record checked
review_record-find texts db c t value h =
    let (row, e, k) = >>=-eq-ok (or_raise (find (of_review c t) db.reviews) key_error) _ h in
    let (case, e2, k2) = >>=-eq-ok (or_raise (find (of_case c) db.cases) key_error) _ k in
    let k3 = >>-eq-ok (check_record texts (joined row case)) _ k2 in
    (row, ground arith, ground arith, ground arith)

of_review-task : (c t : ℕ) (row : ReviewRow) → of_review c t row ≡ true → of_task t row ≡ true
of_review-task c t row h = ground arith

revised-is_open :
    (plan : Plan) (now c : ℕ) (kind : Kind) (row : ReviewRow)
    → is_active row.status ≡ true
    → is_open c kind (revised plan.0 plan.1 plan.2 now row) ≡ true
    → is_open c kind row ≡ true
unfolding is_open revised
revised-is_open plan now c kind row active h = ground arith

revised-of_task :
    (plan : Plan) (now t : ℕ) (row : ReviewRow)
    → of_task t (revised plan.0 plan.1 plan.2 now row) ≡ true
    → of_task t row ≡ true
unfolding revised
revised-of_task plan now t row h = h

pub update_review-IsUnique :
    (c t now : ℕ) (plan : Plan) (row : ReviewRow) (db : CaseDb)
    → find (of_review c t) db.reviews ≡ some row
    → is_active row.status ≡ true
    → IsUnique db.reviews
    → IsUnique (update_review c t plan now db).reviews
unfolding update_review
update_review-IsUnique c t now plan row db e active u =
    let f = revised plan.0 plan.1 plan.2 now in
    let once : count (of_review c t) db.reviews ≤ 1 =
      ground (
        arith,
        count_mono (of_review c t) (of_task t) db.reviews (of_review-task c t),
        u.tasks t,
      ) in
    record {
      tasks = λ s. ground (
        arith,
        u.tasks s,
        count-update_le (of_task s) (of_review c t) f db.reviews row once e
            (revised-of_task plan now s row),
      );
      kinds = λ d kind. ground (
        arith,
        u.kinds d kind,
        count-update_le (is_open d kind) (of_review c t) f db.reviews row once e
            (revised-is_open plan now d kind row active),
      );
    }

module _ (texts : Texts) (digest : Input → ℕ) where
  -- An operation either answers from a receipt or runs its body.
  pub answer_or-keeps {ℓ} :
      (P : CaseDb → Type ℓ) (db : CaseDb) (c request : ℕ) (input : Input)
      (body : Result (CaseDb × ReviewRecord)) (db' : CaseDb) (value : ReviewRecord)
      → answer_or texts digest db c request input body ≡ ok (db', value)
      → P db
      → (body ≡ ok (db', value) → P db')
      → P db'
  unfolding answer_or
  answer_or-keeps P db c request input body db' value h p k =
      let (saved, e, h2) = >>=-eq-ok (prior_receipt texts digest db c request input) _ h in
      answer_cases saved h2
    where
      answer_cases :
          (saved : Option ReviewRecord)
          → elim saved [ none ↦ body | some v ↦ ok (db, v) ] ≡ ok (db', value)
          → P db'
      answer_cases none g = k g
      answer_cases (some v) g = let same : db ≡ db' = ground arith in subst P same p
