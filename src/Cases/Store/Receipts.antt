-- ===== src/Cases/Store/Receipts.antt =====
-- Receipts: what `receipt` and `prior_receipt` of current/case_records.py have to do with each other.
use watershed_memory.Base.{
  ℕ, ◌≡◌, refl, sym, ◌∙◌, ◌⊎◌, none, some, Result, ok, err, ◌>>=◌, ◌>>◌, raise_if, or_raise,
  >>=-eq-ok, >>-eq-ok, inl, inr, Option-cases, arith, ltb, key_error, value_error,
}
use mathlib.Core.Path.{subst}
use watershed_memory.Base.Table.{find, find_sound, find-append_none, find-update_self}
use watershed_memory.Text.{Texts}
use watershed_memory.Cases.Types.{
  ReviewDraft, EvidenceLink, HumanAction, ReviewRecord, check_record,
}
use watershed_memory.Cases.Records.{
  ReceiptRow, CaseRow, ReviewRow, Author, Input, CaseDb, stage, add_link, act_on, of_case,
  of_review, of_request, next_case, of_event, case_row, joined, checked, review_record,
  prior_receipt, add_revision, add_receipt, add_evidence,
}
use watershed_memory.Cases.Store.{insert_review, answer_or}

-- A check that passed passes again.
pub >>-again {ℓ κ} :
    {A : Type ℓ} {B : Type κ} (m : Result (Unit {0})) (k : Result A) (l : Result B) {a : A} {b : B}
    → (m >> k) ≡ ok a
    → l ≡ ok b
    → (m >> l) ≡ ok b
>>-again (ok u) k l h g = g
>>-again (err e) k l h g = cc

pub >>=-ok {ℓ κ} :
    {A : Type ℓ} {B : Type κ} (m : Result A) (f : A → Result B) {a : A} {b : B}
    → m ≡ ok a
    → f a ≡ ok b
    → (m >>= f) ≡ ok b
>>=-ok (ok a) f e h = ground arith
>>=-ok (err x) f e h = cc

pub case_row-id :
    (db : CaseDb) (c : ℕ) (case : CaseRow) → case_row db c ≡ ok case → case.case_id ≡ c
unfolding case_row
case_row-id db c case h =
    let found : find (of_case c) db.cases ≡ some case = ground arith in
    ground (arith, find_sound (of_case c) db.cases case found)

pub add_revision-tables :
    (value : ReviewRecord) (author : Author) (now : ℕ) (db db' : CaseDb)
    → add_revision value author now db ≡ ok db'
    → (db'.receipts ≡ db.receipts) × (db'.cases ≡ db.cases)
unfolding add_revision
add_revision-tables value author now db db' h = (ground arith, ground arith)

pub add_evidence-tables :
    (case : CaseRow) (t event now : ℕ) (db db' : CaseDb)
    → add_evidence case t event now db ≡ ok db'
    → (db'.receipts ≡ db.receipts) × (db'.cases ≡ db.cases)
unfolding add_evidence
add_evidence-tables case t event now db db' h =
    let (found, e, k) =
      >>=-eq-ok
        (or_raise (find (of_event event case.monitor_id) db.watch.ledger.events) value_error) _ h in
    let k2 = >>-eq-ok (raise_if (ltb now found.interval_end) value_error) _ k in
    (ground arith, ground arith)

pub insert_review-tables :
    (row : ReviewRow) (db db' : CaseDb)
    → insert_review row db ≡ ok db'
    → (db'.receipts ≡ db.receipts) × (db'.cases ≡ db.cases)
unfolding insert_review
insert_review-tables row db db' h = (ground arith, ground arith)

pub review_record-checked :
    (texts : Texts) (db : CaseDb) (c t : ℕ) (value : ReviewRecord)
    → review_record texts db c t ≡ ok value
    → (checked texts value ≡ ok value) × (value.case_id ≡ c)
unfolding review_record checked
review_record-checked texts db c t value h =
    let (row, e, k) = >>=-eq-ok (or_raise (find (of_review c t) db.reviews) key_error) _ h in
    let (case, e2, k2) = >>=-eq-ok (or_raise (find (of_case c) db.cases) key_error) _ k in
    let k3 = >>-eq-ok (check_record texts (joined row case)) _ k2 in
    let same : joined row case ≡ value = ground arith in
    let found : find (of_review c t) db.reviews ≡ some row = ground arith in
    (rw (← same) (ground arith), ground (arith, find_sound (of_review c t) db.reviews row found))

abbrev pub staged_input : CaseRow → ReviewDraft → ℕ → Input
staged_input case draft expected = record {
  case_id = case.case_id;
  policy_digest = case.policy_digest;
  command = stage draft expected;
}

abbrev pub linked_input : CaseRow → EvidenceLink → ℕ → Input
linked_input case link expected = record {
  case_id = case.case_id;
  policy_digest = case.policy_digest;
  command = add_link link expected;
}

abbrev pub acted_input : CaseRow → HumanAction → Input
acted_input case action = record {
  case_id = case.case_id;
  policy_digest = case.policy_digest;
  command = act_on action;
}

-- The row that `add_receipt` inserts.
abbrev receipt_row : (Input → ℕ) → ReviewRecord → ℕ → Input → ℕ → ReceiptRow
receipt_row digest value request input now = record {
  case_id = value.case_id;
  request_id = request;
  input_hash = digest input;
  input = input;
  result = value;
  recorded_at = now;
}

module _ (texts : Texts) (digest : Input → ℕ) where
  -- What a new request leaves behind.
  pub record Settles (c request : ℕ) (input : Input) (now : ℕ) (db db' : CaseDb)
      (value : ReviewRecord) : Type 0 where
    pub before : CaseDb
    pub receipts : before.receipts ≡ db.receipts
    pub cases : before.cases ≡ db.cases
    pub after : db' ≡ add_receipt digest value request input now before
    pub case_id : value.case_id ≡ c
    pub valid : checked texts value ≡ ok value

  answer_or-found :
      (db : CaseDb) (c request : ℕ) (input : Input) (row : ReceiptRow)
      (body : Result (CaseDb × ReviewRecord))
      → find (of_request c request) db.receipts ≡ some row
      → row.input_hash ≡ digest input
      → checked texts row.result ≡ ok row.result
      → answer_or texts digest db c request input body ≡ ok (db, row.result)
  unfolding answer_or prior_receipt
  answer_or-found db c request input row body e same valid = ground (arith, valid)

  add_receipt-find :
      (c request : ℕ) (input : Input) (now : ℕ) (db : CaseDb) (value : ReviewRecord)
      → value.case_id ≡ c
      → find (of_request c request) db.receipts ≡ none
      → find (of_request c request) (add_receipt digest value request input now db).receipts
        ≡ some (receipt_row digest value request input now)
  unfolding add_receipt find
  add_receipt-find c request input now db value same fresh =
      find-append_none (of_request c request) db.receipts _ fresh ∙ ground arith

  -- The case that a settled request left.
  Settles-case :
      (c request : ℕ) (input : Input) (now : ℕ) (db db' : CaseDb) (value : ReviewRecord)
      (case : CaseRow)
      → Settles c request input now db db' value
      → case_row db c ≡ ok case
      → case_row db' c ≡ ok (next_case now case)
  unfolding case_row add_receipt
  Settles-case c request input now db db' value case s h = ground (
    arith,
    s.cases,
    s.after,
    s.case_id,
    find-update_self (of_case c) (next_case now) s.before.cases (λ a e. e),
  )

  Settles-answers :
      (c request : ℕ) (input : Input) (now : ℕ) (db db' : CaseDb) (value : ReviewRecord)
      (body : Result (CaseDb × ReviewRecord))
      → Settles c request input now db db' value
      → find (of_request c request) db.receipts ≡ none
      → answer_or texts digest db' c request input body ≡ ok (db', value)
  Settles-answers c request input now db db' value body s fresh = rw s.after (
      answer_or-found _ c request input _ body
        (add_receipt-find c request input now s.before value s.case_id (rw s.receipts fresh)) refl
        s.valid)

  answer_or-missing :
      (db : CaseDb) (c request : ℕ) (input : Input) (body : Result (CaseDb × ReviewRecord))
      → find (of_request c request) db.receipts ≡ none
      → answer_or texts digest db c request input body ≡ body
  unfolding answer_or prior_receipt
  answer_or-missing db c request input body e = ground arith

  answer_or-same :
      (db db' : CaseDb) (c request : ℕ) (input : Input) (row : ReceiptRow) (value : ReviewRecord)
      (body body' : Result (CaseDb × ReviewRecord))
      → find (of_request c request) db.receipts ≡ some row
      → answer_or texts digest db c request input body ≡ ok (db', value)
      → (db ≡ db') × (answer_or texts digest db c request input body' ≡ ok (db, value))
  unfolding answer_or prior_receipt
  answer_or-same db db' c request input row value body body' e h = (ground arith, ground arith)

  -- An answered request is answered in the same way again, whatever would be done otherwise.
  pub answer_or_again :
      (c request : ℕ) (input : Input) (now : ℕ) (db db' : CaseDb) (value : ReviewRecord)
      (case : CaseRow) (body : Result (CaseDb × ReviewRecord))
      → case_row db c ≡ ok case
      → answer_or texts digest db c request input body ≡ ok (db', value)
      → (body ≡ ok (db', value) → Settles c request input now db db' value)
      → ((body' : Result (CaseDb × ReviewRecord))
          → answer_or texts digest db' c request input body' ≡ ok (db', value))
        × ((case_row db' c ≡ ok case) ⊎ (case_row db' c ≡ ok (next_case now case)))
  answer_or_again c request input now db db' value case body e h k =
      elim (Option-cases (find (of_request c request) db.receipts)) [
        | inl missing ↦
            let s = k (sym (answer_or-missing db c request input body missing) ∙ h) in
            (
              λ body'. Settles-answers c request input now db db' value body' s missing,
              inr (Settles-case c request input now db db' value case s e),
            )
        | inr (row, found) ↦
            let (same, _) = answer_or-same db db' c request input row value body body found h in
            (
              λ body'.
                  subst (λ d. answer_or texts digest d c request input body' ≡ ok (d, value)) same
                    (answer_or-same db db' c request input row value body body' found h).1,
              inl (subst (λ d. case_row d c ≡ ok case) same e),
            )
      ]
