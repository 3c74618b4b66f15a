-- ===== src/Delivery/Journals.antt =====
-- The books and the lives of the attempts, whichever way an operation of current/delivery_store.py
-- changes the journal.
use watershed_memory.Base.{
  ◌≡◌, refl, sym, ap, ◌∙◌, true, false, Option, none, some, ok, ◌==◌, >>-eq-ok, [], ◌∷◌, inl, inr,
  Bool-cases, arith, ==_iff,
}
use mathlib.Core.Path.{subst}
use watershed_memory.Base.Table.{find, count}
use watershed_memory.Cases.Records.{CaseDb}
use watershed_memory.Delivery.Types.{
  InvocationAllowance, check_allowance, Mode, scripted_sdk, strands_current,
}
use watershed_memory.Delivery.Records.{AttemptRow, Journal, of_attempt, finish_attempt}
use watershed_memory.Delivery.Reserve.{insert_attempt}
use watershed_memory.Delivery.Balance.{
  used, IsBalanced, insert_attempt-IsBalanced, finish_attempt-IsBalanced,
}
use watershed_memory.Delivery.Opening.{new_journal, create_journal, verify_journal}
use watershed_memory.Base.Table.{find-append_some, find-update_other}
use watershed_memory.Base.Keys.{find-update_within}
use watershed_memory.Delivery.Changes.{Moves, stays, Change, unchanged, settles, charges}
use watershed_memory.Delivery.Decisions.{IsWorkSound}

pub record IsJournalSound (j : Journal) : Type 0 where
  pub balanced : IsBalanced j
  pub sound : IsWorkSound j.work

pub Change-IsJournalSound : (j j' : Journal) → Change j j' → IsJournalSound j → IsJournalSound j'
unfolding finish_attempt insert_attempt
Change-IsJournalSound j j' unchanged s = s
Change-IsJournalSound j j' (settles row mark work e k w) s =
    let d =
      finish_attempt-IsBalanced mark row j k.attempt k.case k.profile e k.unresolved s.balanced in
    let kept = w s.sound in
    record {
      balanced = record { charged = d.charged; capped = d.capped; keys = d.keys; held = d.held };
      sound = record { unique = kept.unique; watched = kept.watched };
    }
Change-IsJournalSound j j' (charges row a inserted free paid h) s =
    let work : inserted.work ≡ j.work = ground arith in
    record {
      balanced = insert_attempt-IsBalanced row j inserted a free paid h s.balanced;
      sound = subst IsWorkSound (sym work) s.sound;
    }

-- An attempt after a change of the journal: its status has moved, and what was reserved is as it was.
pub record HasMoved (row : AttemptRow) (j : Journal) : Type 0 where
  pub now : AttemptRow
  pub known : find (of_attempt row.attempt_id) j.attempts ≡ some now
  pub case : now.case_id ≡ row.case_id
  pub input : now.input ≡ row.input
  pub profile : now.profile ≡ row.profile
  pub moves : Moves row.status now.status

pub has_stayed :
    (row : AttemptRow) (j : Journal)
    → find (of_attempt row.attempt_id) j.attempts ≡ some row
    → HasMoved row j
has_stayed row j e = record {
  now = row;
  known = e;
  case = refl;
  input = refl;
  profile = refl;
  moves = stays row.status;
}

pub Change-HasMoved :
    (j j' : Journal) (row : AttemptRow)
    → Change j j'
    → find (of_attempt row.attempt_id) j.attempts ≡ some row
    → HasMoved row j'
unfolding finish_attempt insert_attempt
Change-HasMoved j j' row unchanged e = has_stayed row j e
Change-HasMoved j j' row (settles mine mark work known k w) e =
    elim (Bool-cases (row.attempt_id == mine.attempt_id)) [
      | inl hit ↦
          let id = (==_iff row.attempt_id mine.attempt_id).0 hit in
          let it : mine ≡ row =
            ground (arith, subst (λ i. find (of_attempt i) j.attempts ≡ some row) id e) in
          record {
            now = mark row;
            known =
                find-update_within (of_attempt row.attempt_id) (of_attempt mine.attempt_id) mark
                  j.attempts row e hit (λ r h. ground (arith, k.attempt r)) (λ r h. ground arith);
            case = k.case row;
            input = k.input row;
            profile = k.profile row;
            moves = subst (λ r. Moves r.status (mark r).status) it k.moves;
          }
      | inr miss ↦ has_stayed row (finish_attempt mine.attempt_id mark (record j { work = work })) (
          find-update_other (of_attempt row.attempt_id) (of_attempt mine.attempt_id) mark j.attempts
            (λ r h. ground arith)
            (λ r h. ap (λ i. i == row.attempt_id) (k.attempt r) ∙ missed r h miss)
          ∙ e)
    ]
  where
    missed :
        (r : AttemptRow)
        → (r.attempt_id == mine.attempt_id) ≡ true
        → (row.attempt_id == mine.attempt_id) ≡ false
        → (r.attempt_id == row.attempt_id) ≡ false
    missed r h miss = ground arith
Change-HasMoved j j' row (charges other a inserted free paid h) e =
    has_stayed row (record inserted { allowance = a })
      (ground (arith, find-append_some (of_attempt row.attempt_id) j.attempts (other ∷ []) row e))

pub create_journal-IsJournalSound :
    (allowance : Option InvocationAllowance) (db : CaseDb) (j : Journal)
    → create_journal allowance db ≡ ok j
    → IsWorkSound db
    → IsJournalSound j
unfolding create_journal count
create_journal-IsJournalSound none db j h s = ground arith
create_journal-IsJournalSound (some a) db j h s =
    let k = >>-eq-ok (check_allowance a) _ h in
    let same : new_journal a db ≡ j = ground arith in
    subst IsJournalSound same (record {
      balanced = record {
        charged = λ m. fresh_used m a db;
        capped = λ m. omega (arith, fresh_used m a db);
        keys = λ t. omega arith;
        held = λ c. omega arith;
      };
      sound = record { unique = s.unique; watched = s.watched };
    })
  where
    fresh_used :
        (m : Mode) (a : InvocationAllowance) (db : CaseDb) → used m (new_journal a db).allowance ≡ 0
    fresh_used scripted_sdk a db = refl
    fresh_used strands_current a db = refl

pub verify_journal-same :
    (allowance : Option InvocationAllowance) (j j' : Journal)
    → verify_journal allowance j ≡ ok j'
    → j ≡ j'
unfolding verify_journal
verify_journal-same none j j' h = ground arith
verify_journal-same (some a) j j' h = ground arith
