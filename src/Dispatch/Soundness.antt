-- ===== src/Dispatch/Soundness.antt =====
-- Every operation of current/dispatch_store.py keeps the accounts of the dispatcher, and the journal
-- and the watch under it sound.
use watershed_memory.Base.{
  ℕ, ◌≡◌, refl, sym, ap, ◌∙◌, Bool, true, false, not, none, some, is_some, Result, ok,
  workflow_conflict, raise_if, >>=-eq-ok, >>-eq-ok, length, ltb, arith,
}
use mathlib.Core.Path.{subst}
use watershed_memory.Base.Table.{find}
use watershed_memory.Text.{Texts}
use watershed_memory.Cases.Records.{Input}
use watershed_memory.Delivery.Types.{InvocationProfile, CurrentAssessment}
use watershed_memory.Delivery.Records.{Codec, Journal, Context}
use watershed_memory.Delivery.Reserve.{Reserved, fresh, replayed, reserve}
use watershed_memory.Delivery.Operations.{reserve-Change}
use watershed_memory.Delivery.Journals.{IsJournalSound, Change-IsJournalSound}
use watershed_memory.Dispatch.Types.{AttentionPolicy, AttentionResult, DispatchStep, check_step}
use watershed_memory.Dispatch.Records.{
  CurrentContext, Replay, Engine, journal_load, Setting, history, skipped, DispatchDb, of_setting,
}
use watershed_memory.Dispatch.Queue.{
  Place, add_outcome, take_event, pass_over, history_of, set_setting, bootstrapped, one_suppressed,
  reserved_for, bootstrap, suppressed_outcome, add_admission,
}
use watershed_memory.Dispatch.Prepare.{suppress, accept, settle_event, widen, decide}
use watershed_memory.Dispatch.Admission.{
  due_identities, handled_keys, evaluate_admission, capture_admission, restored,
}
use watershed_memory.Dispatch.Accounts.{
  eq_outcome, Accounts, IsDispatchSound, Growth-trans, add_outcome-Growth, take_event-Growth,
  passed, pass_over-Growth, set_setting-find, set_setting-IsDispatchSound,
}

-- The setting of a case after a bootstrap or before it.
pub record IsKnown (c : ℕ) (db : DispatchDb) : Type 0 where
  pub row : Setting
  pub found : find (of_setting c) db.settings ≡ some row

pub bootstrap-IsDispatchSound :
    (s : Setting) (selected : Place) (now : ℕ) (db db' : DispatchDb)
    → bootstrap s selected now db ≡ ok db'
    → find (of_setting s.case_id) db.settings ≡ some s
    → s.initial_event_id ≡ none
    → IsDispatchSound db
    → IsDispatchSound db'
unfolding bootstrap eq_outcome
bootstrap-IsDispatchSound s selected now db db' h known first d =
    let past = history_of s.monitor_id selected db.journal.work.watch in
    let k1 = >>-eq-ok (raise_if (ltb 10000 (length past)) workflow_conflict) _ h in
    let (db1, e2, k2) = >>=-eq-ok (pass_over s now past db) _ k1 in
    let g = pass_over-Growth s now past db db1 e2 in
    let f = bootstrapped selected.event_id (length past) now in
    let done : set_setting s.case_id f db1 ≡ db' = ground arith in
    let before : Accounts s.case_id (some s) db.outcomes =
      subst (λ o. Accounts s.case_id o db.outcomes) known (d.accounts s.case_id) in
    subst IsDispatchSound done (
      set_setting-IsDispatchSound s.case_id (passed (length past)) f s db db1 g known (λ t. refl)
        (record {
          skips = ground (arith, before.skips, g.counted s.case_id skipped);
          past = ground (arith, before.blank, g.counted s.case_id history);
          blank = λ b. ground arith;
        })
        d)

pub bootstrap-IsKnown :
    (s : Setting) (selected : Place) (now : ℕ) (db db' : DispatchDb)
    → bootstrap s selected now db ≡ ok db'
    → find (of_setting s.case_id) db.settings ≡ some s
    → IsKnown s.case_id db'
unfolding bootstrap
bootstrap-IsKnown s selected now db db' h known =
    let past = history_of s.monitor_id selected db.journal.work.watch in
    let k1 = >>-eq-ok (raise_if (ltb 10000 (length past)) workflow_conflict) _ h in
    let (db1, e2, k2) = >>=-eq-ok (pass_over s now past db) _ k1 in
    let f = bootstrapped selected.event_id (length past) now in
    let done : set_setting s.case_id f db1 ≡ db' = ground arith in
    subst (IsKnown s.case_id) done (record {
      row = f s;
      found =
          set_setting-find s.case_id f s db db1 (pass_over-Growth s now past db db1 e2).settings
            known (λ t. refl);
    })

suppress-IsDispatchSound :
    (texts : Texts) (codec : Codec) (engine : Engine) (s : Setting) (e : ℕ) (source : Bool)
    (now : ℕ) (replay : Replay) (attention : AttentionResult) (db db' : DispatchDb)
    → suppress texts codec engine s e source now replay attention db ≡ ok db'
    → IsKnown s.case_id db
    → IsDispatchSound db
    → IsDispatchSound db'
unfolding suppress eq_outcome
suppress-IsDispatchSound texts codec engine s e false now replay attention db db' h known d =
    subst IsDispatchSound (ground arith) d
suppress-IsDispatchSound texts codec engine s e true now replay attention db db' h known d =
    let o = suppressed_outcome s e now replay attention in
    let (noted, e1, k1) = >>=-eq-ok (add_outcome o db) _ h in
    let (taken, e2, k2) = >>=-eq-ok (take_event s.monitor_id e noted) _ k1 in
    let g =
      Growth-trans s.case_id _ _ db noted taken (add_outcome-Growth o db noted e1)
        (take_event-Growth s.case_id s.monitor_id e noted taken e2) in
    let done : set_setting s.case_id (one_suppressed now) taken ≡ db' = ground arith in
    let before : Accounts s.case_id (some known.row) db.outcomes =
      subst (λ o. Accounts s.case_id o db.outcomes) known.found (d.accounts s.case_id) in
    subst IsDispatchSound done (
      set_setting-IsDispatchSound s.case_id _ (one_suppressed now) known.row db taken g known.found
        (λ t. refl)
        (record {
          skips = ground (arith, before.skips, g.counted s.case_id skipped);
          past = ground (arith, before.past, g.counted s.case_id history);
          blank = λ b. ground (arith, before.blank b, g.counted s.case_id history);
        })
        d)

-- A change of the setting of a case that keeps its counters, over a journal that stays sound.
pub reset-IsDispatchSound :
    (c : ℕ) (f : Setting → Setting) (db db1 : DispatchDb)
    → IsKnown c db
    → db1.settings ≡ db.settings
    → db1.outcomes ≡ db.outcomes
    → IsJournalSound db1.journal
    → ((t : Setting) → (f t).case_id ≡ t.case_id)
    → ((t : Setting) → (f t).suppressed_count ≡ t.suppressed_count)
    → ((t : Setting) → (f t).history_count ≡ t.history_count)
    → ((t : Setting) → (f t).initial_event_id ≡ t.initial_event_id)
    → IsDispatchSound db
    → IsDispatchSound (set_setting c f db1)
reset-IsDispatchSound c f db db1 known rows outcomes j case skips past initial d =
    let before : Accounts c (some known.row) db.outcomes =
      subst (λ o. Accounts c o db.outcomes) known.found (d.accounts c) in
    set_setting-IsDispatchSound c (λ k. 0) f known.row db db1
      (record {
        settings = rows;
        once = λ u. rw outcomes u;
        counted = λ x k. rw outcomes (grind arith);
        journal = λ i. j;
      })
      known.found case
      (record {
        skips = rw outcomes (skips known.row ∙ before.skips);
        past = rw outcomes (past known.row ∙ before.past);
        blank = λ b. rw outcomes (before.blank (sym (ap is_some (initial known.row)) ∙ b));
      })
      d

module _ (texts : Texts) (digest : Input → ℕ) (codec : Codec) (engine : Engine)
    (validate : Context → CurrentAssessment → Result (Unit {0})) where
  accept-IsDispatchSound :
      (answer : Reserved) (s : Setting) (context : CurrentContext) (e now : ℕ) (replay : Replay)
      (attention : AttentionResult) (move : Bool) (j : Journal) (db db' : DispatchDb)
      (step : DispatchStep)
      → accept texts codec engine answer s context e now replay attention move
          (record db { journal = j })
        ≡ ok (db', step)
      → IsJournalSound j
      → IsKnown s.case_id db
      → IsDispatchSound db
      → IsDispatchSound db'
  unfolding accept add_admission
  accept-IsDispatchSound (replayed receipt) s context e now replay attention move j db db' step h
        sound known d =
      ground arith
  accept-IsDispatchSound (fresh r) s context e now replay attention move j db db' step h sound known
        d =
      let k1 =
        >>-eq-ok (raise_if (not (engine.same_context r.context context.base)) workflow_conflict) _
          h in
      let (admitted, e2, k2) = >>=-eq-ok (add_admission _ (record db { journal = j })) _ k1 in
      let (step1, e3, k3) = >>=-eq-ok (check_step texts _) _ k2 in
      let done : set_setting s.case_id (reserved_for r.attempt_id now) admitted ≡ db' =
        ground arith in
      let same : admitted.journal ≡ j = ground arith in
      subst IsDispatchSound done (
        reset-IsDispatchSound s.case_id (reserved_for r.attempt_id now) db admitted known
          (ground arith) (ground arith) (subst IsJournalSound (sym same) sound) (λ t. refl)
          (λ t. refl) (λ t. refl) (λ t. refl) d)

  settle_event-IsDispatchSound :
      (eligible : Bool) (attempt request : ℕ) (s : Setting) (profile : InvocationProfile)
      (context : CurrentContext) (e : ℕ) (source : Bool) (now : ℕ) (replay : Replay)
      (attention : AttentionResult) (move : Bool) (db db' : DispatchDb) (step : DispatchStep)
      → settle_event texts codec engine eligible attempt request s profile context e source now
          replay attention move db
        ≡ ok (db', step)
      → IsKnown s.case_id db
      → IsDispatchSound db
      → IsDispatchSound db'
  unfolding settle_event
  settle_event-IsDispatchSound true attempt request s profile context e source now replay attention
        move db db' step h known d =
      let ((j, answer), e1, k1) =
        >>=-eq-ok
          (reserve texts codec (journal_load engine) attempt s.case_id request _ now db.journal) _
          h in
      accept-IsDispatchSound answer s context e now replay attention move j db db' step k1
        (Change-IsJournalSound db.journal j
          (reserve-Change texts digest codec (journal_load engine) validate attempt s.case_id
            request _ now db.journal j answer e1)
          d.journal)
        known d
  settle_event-IsDispatchSound false attempt request s profile context e source now replay attention
        move db db' step h known d =
      let (done, e1, k1) =
        >>=-eq-ok (suppress texts codec engine s e source now replay attention db) _ h in
      let (step1, e2, k2) = >>=-eq-ok (check_step texts _) _ k1 in
      let same : done ≡ db' = ground arith in
      subst IsDispatchSound same (
        suppress-IsDispatchSound texts codec engine s e source now replay attention db done e1 known
          d)

  pub decide-IsDispatchSound :
      (attempt request : ℕ) (s : Setting) (policy : AttentionPolicy) (profile : InvocationProfile)
      (event : Place) (source : Bool) (now : ℕ) (first : CurrentContext) (db db' : DispatchDb)
      (step : DispatchStep)
      → decide texts codec engine attempt request s policy profile event source now first db
        ≡ ok (db', step)
      → IsKnown s.case_id db
      → IsDispatchSound db
      → IsDispatchSound db'
  unfolding decide
  decide-IsDispatchSound attempt request s policy profile event source now first db db' step h known
        d =
      let (numeric, e1, k1) =
        >>=-eq-ok (restored texts codec engine db.journal.work s.numeric_context) _ h in
      let (health, e2, k2) =
        >>=-eq-ok (restored texts codec engine db.journal.work s.health_context) _ k1 in
      let (context, e3, k3) =
        >>=-eq-ok
          (widen texts codec engine s.case_id event.event_id now db.journal.work first numeric) _
          k2 in
      let (handled, e4, k4) =
        >>=-eq-ok
          (handled_keys texts codec engine context.base.case_id context.base.evaluated_at db.due
            (due_identities texts codec engine context.reviews))
          _ k3 in
      let ((attention, move), e5, k5) =
        >>=-eq-ok (evaluate_admission texts codec engine context policy numeric health handled) _
          k4 in
      let (replay, e6, k6) =
        >>=-eq-ok (capture_admission texts codec engine context numeric health handled source) _
          k5 in
      settle_event-IsDispatchSound attention.eligible attempt request s profile context
        event.event_id source now replay attention move db db' step k6 known d
