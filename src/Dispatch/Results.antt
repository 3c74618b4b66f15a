-- ===== src/Dispatch/Results.antt =====
-- The results that `finish` and `fail` of current/dispatch_store.py commit, and the activation of a
-- case, keep the accounts of the dispatcher.
use watershed_memory.Base.{
  ℕ, ◌≡◌, refl, sym, Bool, not, ◌&&◌, some, Result, ok, value_error, workflow_conflict, raise_if,
  or_raise, >>=-eq-ok, >>-eq-ok, all, ltb, ◌==◌, inl, inr, Bool-cases, Option-cases, arith,
  eq_option,
}
use mathlib.Core.Path.{subst}
use watershed_memory.Base.Table.{find}
use watershed_memory.Text.{Texts}
use watershed_memory.Watch.Store.{get_config}
use watershed_memory.Cases.Types.{check_identifier}
use watershed_memory.Cases.Records.{Input, case_row}
use watershed_memory.Delivery.Types.{
  scripted_sdk, eq_mode, InvocationProfile, CurrentAssessment, CurrentExecution, CurrentFailure,
  DeliveryReceipt,
}
use watershed_memory.Delivery.Records.{Codec, AttemptRow, Journal, Context, attempt_row}
use watershed_memory.Delivery.Commit.{commit, fail}
use watershed_memory.Delivery.Operations.{commit-Change, fail-Change}
use watershed_memory.Delivery.Journals.{Change-IsJournalSound}
use watershed_memory.Dispatch.Types.{AttentionPolicy, AttentionResult}
use watershed_memory.Dispatch.Records.{
  CurrentContext, Engine, journal_load, Setting, Admission, history, skipped, DispatchDb,
  of_setting, of_admission,
}
use watershed_memory.Dispatch.Queue.{set_setting}
use watershed_memory.Dispatch.Accounts.{
  eq_outcome, Accounts, IsDispatchSound, set_setting-IsDispatchSound,
}
use watershed_memory.Dispatch.Settings.{has_series, settings_of, activate}
use watershed_memory.Dispatch.Finish.{
  is_committed, is_bound, is_replayed, note_outcome, one_assessed, assess, finish_active, finish,
  fail_dispatch,
}
use watershed_memory.Dispatch.Admission.{restore_admission}
use watershed_memory.Dispatch.Calls.{settings_of-find}
use watershed_memory.Dispatch.Additions.{
  activate_new-IsDispatchSound, add_due-IsDispatchSound, journal_changed, note_outcome-Growth,
}

module _ (texts : Texts) (digest : Input → ℕ) (codec : Codec) (engine : Engine)
    (validate : Context → CurrentAssessment → Result (Unit {0})) where
  commits_journal :
      (tasks : ℕ → ℕ) (attempt : ℕ) (execution : CurrentExecution) (now : ℕ) (db : DispatchDb)
      (j : Journal) (r : DeliveryReceipt)
      → commit texts digest codec
          (journal_load engine)
          validate
          tasks
          attempt
          execution
          now
          db.journal
        ≡ ok (j, r)
      → IsDispatchSound db
      → IsDispatchSound (record db { journal = j })
  commits_journal tasks attempt execution now db j r h d =
      journal_changed db j
        (Change-IsJournalSound db.journal j
          (commit-Change texts digest codec (journal_load engine) validate tasks attempt execution
            now db.journal j r h)
          d.journal)
        d

  assess-IsDispatchSound :
      (s : Setting) (row : AttemptRow) (saved : Admission) (context : CurrentContext)
      (attention : AttentionResult) (move : Bool) (now : ℕ) (db db' : DispatchDb)
      → assess texts digest codec engine validate s row saved context attention move now db ≡ ok db'
      → context.base.case_id ≡ s.case_id
      → find (of_setting s.case_id) db.settings ≡ some s
      → IsDispatchSound db
      → IsDispatchSound db'
  unfolding assess eq_outcome
  assess-IsDispatchSound s row saved context attention move now db db' h case known d =
      let (noted, e1, k1) =
        >>=-eq-ok (note_outcome s row context.current.event_id now saved row.source_delivery db) _
          h in
      let (text, e2, k2) = >>=-eq-ok (engine.reference context) _ k1 in
      let g =
        note_outcome-Growth s row context.current.event_id now saved row.source_delivery db noted
          e1 in
      let f = one_assessed text move now in
      let before : Accounts s.case_id (some s) db.outcomes =
        subst (λ o. Accounts s.case_id o db.outcomes) known (d.accounts s.case_id) in
      add_due-IsDispatchSound context.base.case_id row.attempt_id now attention.due_checks _ db' k2
        (subst (λ c. IsDispatchSound (set_setting c f noted)) (sym case)
          (set_setting-IsDispatchSound s.case_id _ f s db noted g known (λ t. refl)
            (record {
              skips = ground (arith, before.skips, g.counted s.case_id skipped);
              past = ground (arith, before.past, g.counted s.case_id history);
              blank = λ b. ground (arith, before.blank b, g.counted s.case_id history);
            })
            d))

  finish_active-IsDispatchSound :
      (tasks : ℕ → ℕ) (s : Setting) (row : AttemptRow) (saved : Admission)
      (context : CurrentContext) (attention : AttentionResult) (move : Bool)
      (execution : CurrentExecution) (now : ℕ) (db db' : DispatchDb) (r : DeliveryReceipt)
      → finish_active texts digest codec engine validate tasks s row saved context attention move
          execution now db
        ≡ ok (db', r)
      → context.base.case_id ≡ s.case_id
      → find (of_setting s.case_id) db.settings ≡ some s
      → IsDispatchSound db
      → IsDispatchSound db'
  unfolding finish_active
  finish_active-IsDispatchSound tasks s row saved context attention move execution now db db' r h
        case known d =
      let k1 =
        >>-eq-ok
          (raise_if (not (eq_option s.active_attempt_id (some row.attempt_id))) workflow_conflict) _
          h in
      let k2 =
        >>-eq-ok
          (raise_if
            (not (
              eq_option s.numeric_context saved.replay.numeric
              && eq_option s.health_context saved.replay.health))
            workflow_conflict)
          _ k1 in
      let k3 = >>-eq-ok (raise_if (ltb now s.updated_at) value_error) _ k2 in
      let ((j, receipt), e4, k4) =
        >>=-eq-ok
          (commit texts digest codec (journal_load engine) validate tasks row.attempt_id execution
            now db.journal)
          _ k3 in
      let sound = commits_journal tasks row.attempt_id execution now db j receipt e4 d in
      elim (Bool-cases (is_committed receipt.status)) [
        | inl done ↦
            let (end, e5, k5) =
              >>=-eq-ok
                (assess texts digest codec engine validate s row saved context attention move now _)
                _ (rw done at k4) in
            let same : end ≡ db' = ground arith in
            subst IsDispatchSound same (
              assess-IsDispatchSound s row saved context attention move now _ end e5 case known
                sound)
        | inr left ↦ subst IsDispatchSound (ground arith) sound
      ]

  pub finish-IsDispatchSound :
      (tasks : ℕ → ℕ) (attempt : ℕ) (execution : CurrentExecution) (now : ℕ) (db db' : DispatchDb)
      (r : DeliveryReceipt)
      → finish texts digest codec engine validate tasks attempt execution now db ≡ ok (db', r)
      → IsDispatchSound db
      → IsDispatchSound db'
  unfolding finish is_replayed
  finish-IsDispatchSound tasks attempt execution now db db' r h d =
      let (row, e1, k1) = >>=-eq-ok (attempt_row texts codec db.journal attempt) _ h in
      let ((s, policy, profile), e2, k2) =
        >>=-eq-ok (settings_of texts codec engine db row.case_id) _ k1 in
      let (known, id) = settings_of-find texts codec engine db row.case_id s policy profile e2 in
      let (saved, e3, k3) =
        >>=-eq-ok (or_raise (find (of_admission attempt) db.admissions) workflow_conflict) _ k2 in
      let k4 =
        >>-eq-ok (raise_if (not (is_bound codec row profile saved)) workflow_conflict) _ k3 in
      let ((context, attention, move), e5, k5) =
        >>=-eq-ok (restore_admission texts codec engine db saved policy) _ k4 in
      let (_, replayed_ok, k6) =
        >>=-eq-ok
          (raise_if (not (is_replayed codec row saved context attention move)) workflow_conflict) _
          k5 in
      let case : context.base.case_id ≡ s.case_id = ground (arith, id, replayed_ok) in
      elim (Bool-cases (is_committed row.status)) [
        | inl done ↦
            let k7 =
              >>-eq-ok (raise_if (eq_option s.active_attempt_id (some attempt)) workflow_conflict) _
                (rw done at k6) in
            let ((j, receipt), e8, k8) =
              >>=-eq-ok
                (commit texts digest codec (journal_load engine) validate tasks attempt execution
                  now db.journal)
                _ k7 in
            subst IsDispatchSound (ground arith)
              (commits_journal tasks attempt execution now db j receipt e8 d)
        | inr live ↦
            finish_active-IsDispatchSound tasks s row saved context attention move execution now db
              db' r (rw live at k6) case known d
      ]

  pub fail_dispatch-IsDispatchSound :
      (attempt : ℕ) (failure : CurrentFailure) (now : ℕ) (db db' : DispatchDb) (r : DeliveryReceipt)
      → fail_dispatch texts digest codec engine validate attempt failure now db ≡ ok (db', r)
      → IsDispatchSound db
      → IsDispatchSound db'
  unfolding fail_dispatch
  fail_dispatch-IsDispatchSound attempt failure now db db' r h d =
      let (row, e1, k1) = >>=-eq-ok (attempt_row texts codec db.journal attempt) _ h in
      let ((s, policy, profile), e2, k2) =
        >>=-eq-ok (settings_of texts codec engine db row.case_id) _ k1 in
      let k3 =
        >>-eq-ok (raise_if (not (eq_option s.active_attempt_id (some attempt))) workflow_conflict) _
          k2 in
      let ((j, receipt), e4, k4) =
        >>=-eq-ok
          (fail texts digest codec (journal_load engine) validate attempt failure now db.journal) _
          k3 in
      let sound =
        Change-IsJournalSound db.journal j
          (fail-Change texts digest codec (journal_load engine) validate attempt failure now
            db.journal j receipt e4)
          d.journal in
      subst IsDispatchSound (ground arith) (journal_changed db j sound d)

  pub activate-IsDispatchSound :
      (c : ℕ) (policy : AttentionPolicy) (profile : InvocationProfile) (now : ℕ)
      (db db' : DispatchDb)
      → activate texts codec engine c policy profile now db ≡ ok db'
      → IsDispatchSound db
      → IsDispatchSound db'
  unfolding activate
  activate-IsDispatchSound c policy profile now db db' h d =
      let k1 = >>-eq-ok (check_identifier texts c) _ h in
      let k2 =
        >>-eq-ok (raise_if (not (profile.instruction_version == engine.instructions)) value_error) _
          k1 in
      let (_, e3, k3) = >>=-eq-ok (engine.decode_policy (engine.policy_json policy)) _ k2 in
      let (case, e4, k4) = >>=-eq-ok (case_row db.journal.work c) _ k3 in
      let (monitor, e5, k5) =
        >>=-eq-ok (get_config db.journal.work.watch case.config.monitor_id) _ k4 in
      let k6 = >>-eq-ok (raise_if (not (monitor.case_id == c)) value_error) _ k5 in
      let k7 =
        >>-eq-ok
          (raise_if (eq_mode profile.mode scripted_sdk && not case.config.simulated) value_error) _
          k6 in
      let k8 = >>-eq-ok (raise_if (not (all (has_series monitor) policy.rules)) value_error) _ k7 in
      elim (Option-cases (find (of_setting c) db.settings)) [
        | inl absent ↦
            activate_new-IsDispatchSound case (engine.policy_json policy) policy
              (codec.profile profile) now db db' texts codec engine (rw absent at k8) d
        | inr (existing, there) ↦
            let (s, e9, k9) = >>=-eq-ok (settings_of texts codec engine db c) _ (rw there at k8) in
            subst IsDispatchSound (ground arith) d
      ]
