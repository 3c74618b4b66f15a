-- ===== src/Dispatch/Calls.antt =====
-- The calls of current/dispatch_store.py keep the accounts of the dispatcher.
use watershed_memory.Base.{
  ℕ, ◌≡◌, refl, sym, ap, ◌∙◌, Bool, true, false, not, ◌&&◌, ◌||◌, Option, none, some, is_some,
  Result, ok, value_error, key_error, workflow_conflict, raise_if, or_raise, >>=-eq-ok, >>-eq-ok,
  ltb, ◌==◌, if◌then◌else◌, inl, inr, Option-cases, ==_iff, arith,
}
use mathlib.Core.Path.{subst}
use watershed_memory.Base.Table.{find, find_sound}
use watershed_memory.Text.{Texts}
use watershed_memory.Cases.Types.{check_identifier}
use watershed_memory.Cases.Records.{Input, case_row, check_time}
use watershed_memory.Delivery.Types.{scripted_sdk, eq_mode, InvocationProfile, CurrentAssessment}
use watershed_memory.Delivery.Records.{Codec, Context, is_held}
use watershed_memory.Dispatch.Types.{AttentionPolicy, DispatchStep, check_step}
use watershed_memory.Dispatch.Records.{check_json, Engine, Setting, DispatchDb, of_setting}
use watershed_memory.Dispatch.Queue.{Place, bootstrap}
use watershed_memory.Dispatch.Prepare.{prepare_event, prepare_free, prepare}
use watershed_memory.Dispatch.Accounts.{IsDispatchSound}
use watershed_memory.Dispatch.Soundness.{
  IsKnown, bootstrap-IsKnown, bootstrap-IsDispatchSound, decide-IsDispatchSound,
}
use watershed_memory.Dispatch.Settings.{settings_of, dispatch_status, is_external}
use watershed_memory.Dispatch.Queue.{next_event, last_event}

module _ (texts : Texts) (codec : Codec) (engine : Engine) where
  -- The setting that a call works on is the one of its case.
  pub settings_of-find :
      (db : DispatchDb) (c : ℕ) (s : Setting) (policy : AttentionPolicy)
      (profile : InvocationProfile)
      → settings_of texts codec engine db c ≡ ok (s, policy, profile)
      → (find (of_setting s.case_id) db.settings ≡ some s) × (s.case_id ≡ c)
  unfolding settings_of
  settings_of-find db c s policy profile h =
      let k1 = >>-eq-ok (check_identifier texts c) _ h in
      let (row, e, k2) = >>=-eq-ok (or_raise (find (of_setting c) db.settings) key_error) _ k1 in
      let known : find (of_setting c) db.settings ≡ some row = ground arith in
      let k3 =
        >>-eq-ok
          (raise_if (is_some (find (is_external c db.admissions) db.journal.attempts))
            workflow_conflict)
          _ k2 in
      let (policy1, e4, k4) = >>=-eq-ok (engine.decode_policy row.policy_json) _ k3 in
      let k5 = >>-eq-ok (check_json codec row.profile_json 2048) _ k4 in
      let (profile1, e6, k6) = >>=-eq-ok (engine.decode_profile row.profile_json) _ k5 in
      let k7 =
        >>-eq-ok
          (raise_if
            (not (
              policy1.policy_digest == row.policy_digest
              && profile1.instruction_version == engine.instructions))
            workflow_conflict)
          _ k6 in
      let (case, e8, k8) = >>=-eq-ok (case_row db.journal.work c) _ k7 in
      let k9 =
        >>-eq-ok
          (raise_if
            (not (row.monitor_id == case.config.monitor_id)
              || eq_mode profile1.mode scripted_sdk && not case.config.simulated)
            workflow_conflict)
          _ k8 in
      let same : row ≡ s = ground arith in
      let found : find (of_setting c) db.settings ≡ some s = known ∙ ap some same in
      let id : s.case_id ≡ c =
        (==_iff s.case_id c).0 (find_sound (of_setting c) db.settings s found) in
      (subst (λ x. find (of_setting x) db.settings ≡ some s) (sym id) found, id)

module _ (texts : Texts) (digest : Input → ℕ) (codec : Codec) (engine : Engine)
    (validate : Context → CurrentAssessment → Result (Unit {0})) where
  prepare_event-IsDispatchSound :
      (attempt request : ℕ) (s : Setting) (policy : AttentionPolicy) (profile : InvocationProfile)
      (event : Place) (source : Bool) (now : ℕ) (db db' : DispatchDb) (step : DispatchStep)
      → prepare_event texts codec engine attempt request s policy profile event source now db
        ≡ ok (db', step)
      → find (of_setting s.case_id) db.settings ≡ some s
      → IsDispatchSound db
      → IsDispatchSound db'
  unfolding prepare_event
  prepare_event-IsDispatchSound attempt request s policy profile event source now db db' step h
        known d =
      let (context, e1, k1) = >>=-eq-ok (engine.load db.journal.work _) _ h in
      let (started, e2, k2) =
        >>=-eq-ok (if is_some s.initial_event_id then ok db else bootstrap s event now db) _ k1 in
      let (row, sound) = started_or s.initial_event_id started refl e2 in
      decide-IsDispatchSound texts digest codec engine validate attempt request s policy profile
        event source now context started db' step k2 row sound
    where
      started_or :
          (first : Option ℕ) (started : DispatchDb)
          → s.initial_event_id ≡ first
          → (if is_some first then ok db else bootstrap s event now db) ≡ ok started
          → IsKnown s.case_id started × IsDispatchSound started
      started_or (some e) started initial h =
          let same : db ≡ started = ground arith in
          (
            subst (IsKnown s.case_id) same (record { row = s; found = known }),
            subst IsDispatchSound same d,
          )
      started_or none started initial h = (
        bootstrap-IsKnown s event now db started h known,
        bootstrap-IsDispatchSound s event now db started h known initial d,
      )

  prepare_free-IsDispatchSound :
      (attempt request : ℕ) (s : Setting) (policy : AttentionPolicy) (profile : InvocationProfile)
      (now : ℕ) (db db' : DispatchDb) (step : DispatchStep)
      → prepare_free texts codec engine attempt request s policy profile now db ≡ ok (db', step)
      → find (of_setting s.case_id) db.settings ≡ some s
      → IsDispatchSound db
      → IsDispatchSound db'
  unfolding prepare_free
  prepare_free-IsDispatchSound attempt request s policy profile now db db' step h known d =
      elim (Option-cases (next_event s db.journal.work.watch)) [
        | inr (event, next) ↦
            prepare_event-IsDispatchSound attempt request s policy profile event true now db db'
              step (rw (next, prepare_free) at h) known d
        | inl empty ↦ elim (Option-cases s.initial_event_id) [
          | inl waiting ↦
              let (step1, e1, k1) =
                >>=-eq-ok (check_step texts _) _ (rw (empty, waiting, prepare_free) at h) in
              subst IsDispatchSound (ground arith) d
          | inr (initial, started) ↦
              let (event, e1, k1) =
                >>=-eq-ok
                  (or_raise (last_event s.monitor_id db.journal.work.watch) workflow_conflict) _
                  (rw (empty, started, prepare_free) at h) in
              prepare_event-IsDispatchSound attempt request s policy profile event false now db db'
                step k1 known d
        ]
      ]

  pub prepare-IsDispatchSound :
      (attempt request c now : ℕ) (db db' : DispatchDb) (step : DispatchStep)
      → prepare texts codec engine attempt request c now db ≡ ok (db', step)
      → IsDispatchSound db
      → IsDispatchSound db'
  unfolding prepare
  prepare-IsDispatchSound attempt request c now db db' step h d =
      let ((s, policy, profile), e1, k1) = >>=-eq-ok (settings_of texts codec engine db c) _ h in
      let known = (settings_of-find texts codec engine db c s policy profile e1).0 in
      let (status, e2, k2) = >>=-eq-ok (dispatch_status texts codec engine db s) _ k1 in
      let k3 = >>-eq-ok (raise_if (ltb now s.updated_at) value_error) _ k2 in
      let (case, e4, k4) = >>=-eq-ok (case_row db.journal.work c) _ k3 in
      let k5 = >>-eq-ok (check_time case now) _ k4 in
      elim (Option-cases (find (is_held c) db.journal.attempts)) [
        | inr (row, held) ↦
            let k6 = >>-eq-ok (raise_if _ workflow_conflict) _ (rw held at k5) in
            let (step1, e7, k7) = >>=-eq-ok (check_step texts _) _ k6 in
            subst IsDispatchSound (ground arith) d
        | inl free ↦
            let k6 =
              >>-eq-ok (raise_if (is_some s.active_attempt_id) workflow_conflict) _
                (rw free at k5) in
            prepare_free-IsDispatchSound attempt request s policy profile now db db' step k6 known d
      ]
