-- ===== src/Dispatch/Additions.antt =====
-- What the results and the activation of current/dispatch_store.py add to the tables of the dispatcher.
use watershed_memory.Base.{
  ℕ, ◌≡◌, refl, sym, ◌∙◌, Bool, true, false, none, is_some, ok, integrity_error, raise_if, >>-eq-ok,
  List, [], ◌∷◌, ◌++◌, ◌==◌, if◌then◌else◌, inl, inr, Bool-cases, Option-cases, arith,
}
use mathlib.Core.Path.{subst}
use watershed_memory.Base.Table.{find-append_some, find-append_none, find}
use watershed_memory.Text.{Texts}
use watershed_memory.Cases.Records.{CaseRow}
use watershed_memory.Delivery.Records.{Codec, AttemptRow, Journal}
use watershed_memory.Delivery.Journals.{IsJournalSound}
use watershed_memory.Dispatch.Types.{AttentionPolicy, DueCheck}
use watershed_memory.Dispatch.Records.{
  Engine, Setting, Admission, assessed, Outcome, DispatchDb, of_setting, of_due,
}
use watershed_memory.Dispatch.Accounts.{
  eq_outcome, Accounts, IsDispatchSound, Growth, add_outcome-Growth,
}
use watershed_memory.Dispatch.Settings.{new_setting, activate_new}
use watershed_memory.Dispatch.Finish.{note_outcome, assessed_outcome, add_due}

pub add_due-IsDispatchSound :
    (c a now : ℕ) (ds : List DueCheck) (db db' : DispatchDb)
    → add_due c a now ds db ≡ ok db'
    → IsDispatchSound db
    → IsDispatchSound db'
unfolding add_due
add_due-IsDispatchSound c a now [] db db' h d = subst IsDispatchSound (ground arith) d
add_due-IsDispatchSound c a now (x ∷ xs) db db' h d =
    let k1 = >>-eq-ok (raise_if (is_some (find (of_due c x.key) db.due)) integrity_error) _ h in
    add_due-IsDispatchSound c a now xs _ db' k1
      (record { journal = d.journal; once = d.once; accounts = d.accounts })

-- The outcome of an assessed event is of no kind that is counted.
pub note_outcome-Growth :
    (s : Setting) (row : AttemptRow) (e now : ℕ) (saved : Admission) (source : Bool)
    (db db' : DispatchDb)
    → note_outcome s row e now saved source db ≡ ok db'
    → Growth s.case_id (λ k. if source then (if eq_outcome assessed k then 1 else 0) else 0) db db'
unfolding note_outcome
note_outcome-Growth s row e now saved false db db' h =
    let same : db ≡ db' = ground arith in
    subst (Growth s.case_id (λ k. 0) db) same
      (record { settings = refl; once = λ u. u; counted = λ c k. grind arith; journal = λ j. j })
note_outcome-Growth s row e now saved true db db' h =
    add_outcome-Growth (assessed_outcome s row e now saved) db db' h

pub journal_changed :
    (db : DispatchDb) (j : Journal)
    → IsJournalSound j
    → IsDispatchSound db
    → IsDispatchSound (record db { journal = j })
journal_changed db j sound d = record { journal = sound; once = d.once; accounts = d.accounts }

pub new_Accounts :
    (c : ℕ) (case : CaseRow) (policy_json : ℕ) (policy : AttentionPolicy) (profile_json now : ℕ)
    (outcomes : List Outcome)
    → Accounts c none outcomes
    → Accounts c
        (find (of_setting c) (new_setting case policy_json policy profile_json now ∷ []))
        outcomes
unfolding find
new_Accounts c case policy_json policy profile_json now outcomes a =
    elim (Bool-cases (case.case_id == c)) [
      | inl mine ↦ rw mine (record { skips = a.skips; past = a.past; blank = a.blank })
      | inr other ↦ rw other a
    ]

pub activate_new-IsDispatchSound :
    (case : CaseRow) (policy_json : ℕ) (policy : AttentionPolicy) (profile_json now : ℕ)
    (db db' : DispatchDb) (texts : Texts) (codec : Codec) (engine : Engine)
    → activate_new texts codec engine case policy_json policy profile_json now db ≡ ok db'
    → IsDispatchSound db
    → IsDispatchSound db'
unfolding activate_new
activate_new-IsDispatchSound case policy_json policy profile_json now db db' texts codec engine h
      d =
    let new = new_setting case policy_json policy profile_json now in
    let done : record db { settings = db.settings ++ new ∷ [] } ≡ db' = ground arith in
    subst IsDispatchSound done (record {
      journal = d.journal;
      once = d.once;
      accounts = λ c. elim (Option-cases (find (of_setting c) db.settings)) [
        | inr (s, known) ↦
            subst (λ o. Accounts c o db.outcomes)
              (known ∙ sym (find-append_some (of_setting c) db.settings (new ∷ []) s known))
              (d.accounts c)
        | inl unknown ↦
            subst (λ o. Accounts c o db.outcomes)
              (sym (find-append_none (of_setting c) db.settings (new ∷ []) unknown))
              (new_Accounts c case policy_json policy profile_json now db.outcomes
                (subst (λ o. Accounts c o db.outcomes) unknown (d.accounts c)))
      ];
    })
