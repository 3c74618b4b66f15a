-- ===== src/Dispatch/Settings.antt =====
-- `_settings`, `DispatchStore.activate` and `DispatchStore.status` of current/dispatch_store.py.
use watershed_memory.Base.{
  ℕ, Bool, true, false, not, ◌&&◌, ◌||◌, Option, none, some, is_some, Result, ok, value_error,
  key_error, workflow_conflict, ◌>>=◌, ◌>>◌, raise_if, or_raise, List, [], ◌∷◌, ◌++◌, all, any, ltb,
  leb, ◌==◌, if◌then◌else◌,
}
use watershed_memory.Base.Table.{find}
use watershed_memory.Text.{Texts}
use watershed_memory.Watch.Records.{SeriesSpec, MonitorConfig}
use watershed_memory.Watch.Store.{get_config}
use watershed_memory.Cases.Types.{check_identifier}
use watershed_memory.Cases.Records.{CaseRow, case_row, check_time}
use watershed_memory.Delivery.Types.{
  scripted_sdk, AttemptStatus, reserved, committed, failed, stale, abandoned, InvocationProfile,
  eq_mode,
}
use watershed_memory.Delivery.Records.{Codec, AttemptRow, Journal, attempt_row}
use watershed_memory.Dispatch.Types.{AttentionRule, AttentionPolicy, check_event, check_attempt_id}
use watershed_memory.Dispatch.Records.{
  ContextReference, Engine, Setting, Admission, DispatchDb, of_setting, check_json,
}

-- `DispatchStatus`, with the status of the active attempt.
pub record DispatchStatus : Type 0 where
  pub setting : Setting
  pub numeric_event_id : Option ℕ
  pub health_evaluated_at : Option ℕ
  pub active_status : Option AttemptStatus

unfoldable pub is_live : Option AttemptStatus → Bool
is_live none = true
is_live (some reserved) = true
is_live (some failed) = true
is_live (some stale) = true
is_live (some committed) = false
is_live (some abandoned) = false

abbrev same_presence {ℓ κ} : {A : Type ℓ} {B : Type κ} → Option A → Option B → Bool
same_presence none none = true
same_presence (some _) (some _) = true
same_presence _ _ = false

abbrev is_between : ℕ → Option ℕ → ℕ → Bool
is_between a none b = true
is_between a (some t) b = leb a t && leb t b

-- What fits together in `DispatchStatus.__post_init__`.
unfoldable pub fits_status : DispatchStatus → Bool
fits_status s =
    let row = s.setting in
    leb row.activated_at row.updated_at
    && leb row.history_count 10000
    && ltb row.suppressed_count 9223372036854775808
    && ltb row.assessment_count 9223372036854775808
    && not (ltb 0 row.suppressed_count && row.assessment_count == 0)
    && same_presence s.numeric_event_id s.health_evaluated_at
    && (if ltb 0 row.assessment_count
        then is_some s.numeric_event_id
        else not (is_some s.numeric_event_id))
    && is_between row.activated_at s.health_evaluated_at row.updated_at
    && (if is_some row.initial_event_id
        then not (row.assessment_count == 0 && not (is_some row.active_attempt_id))
        else row.history_count == 0
          && row.suppressed_count == 0
          && row.assessment_count == 0
          && not (is_some s.numeric_event_id)
          && not (is_some row.active_attempt_id))
    && same_presence row.active_attempt_id s.active_status
    && is_live s.active_status

-- An attempt of the case that no admission covers.
unfoldable pub is_external : ℕ → List Admission → AttemptRow → Bool
is_external c admissions row =
    row.case_id == c
    && not (any (λ (a : Admission). a.attempt_id == row.attempt_id && a.case_id == c) admissions)

-- The rule of a policy names a series of the monitor.
unfoldable pub has_series : MonitorConfig → AttentionRule → Bool
has_series monitor r =
    any (λ (s : SeriesSpec). s.parameter_code == r.parameter_code && s.unit == r.unit)
      monitor.series

abbrev pub new_setting : CaseRow → ℕ → AttentionPolicy → ℕ → ℕ → Setting
new_setting case policy_json policy profile_json now = record {
  case_id = case.case_id;
  monitor_id = case.config.monitor_id;
  policy_json = policy_json;
  policy_digest = policy.policy_digest;
  profile_json = profile_json;
  activated_at = now;
  updated_at = now;
  initial_event_id = none;
  history_count = 0;
  suppressed_count = 0;
  assessment_count = 0;
  numeric_context = none;
  health_context = none;
  active_attempt_id = none;
}

module _ (texts : Texts) (codec : Codec) (engine : Engine) where
  -- `_settings`
  unfoldable pub settings_of :
      DispatchDb → ℕ → Result (Setting × AttentionPolicy × InvocationProfile)
  settings_of db c = do
    check_identifier texts c
    row ← or_raise (find (of_setting c) db.settings) key_error
    raise_if (is_some (find (is_external c db.admissions) db.journal.attempts)) workflow_conflict
    policy ← engine.decode_policy row.policy_json
    check_json codec row.profile_json 2048
    profile ← engine.decode_profile row.profile_json
    raise_if
        (not (
          policy.policy_digest == row.policy_digest
          && profile.instruction_version == engine.instructions))
        workflow_conflict
    case ← case_row db.journal.work c
    raise_if
        (not (row.monitor_id == case.config.monitor_id)
          || eq_mode profile.mode scripted_sdk && not case.config.simulated)
        workflow_conflict
    ok (row, policy, profile)

  abbrev decoded : Option ℕ → Result (Option ContextReference)
  decoded none = ok none
  decoded (some text) = engine.decode_reference text >>= λ r. ok (some r)

  abbrev is_outside : ℕ → Option ContextReference → Bool
  is_outside c none = false
  is_outside c (some r) = not (r.case_id == c)

  abbrev active_of : Journal → Option ℕ → Result (Option AttemptRow)
  active_of j none = ok none
  active_of j (some a) = attempt_row texts codec j a >>= λ row. ok (some row)

  abbrev other_case : ℕ → Option AttemptRow → Bool
  other_case c none = false
  other_case c (some row) = not (row.case_id == c)

  abbrev status_of : Option AttemptRow → Option AttemptStatus
  status_of none = none
  status_of (some row) = some row.status

  abbrev event_in : Option ContextReference → Option ℕ
  event_in none = none
  event_in (some r) = some r.event_id

  abbrev time_in : Option ContextReference → Option ℕ
  time_in none = none
  time_in (some r) = some r.evaluated_at

  -- `_status`
  unfoldable pub dispatch_status : DispatchDb → Setting → Result DispatchStatus
  dispatch_status db row = do
    numeric ← decoded row.numeric_context
    health ← decoded row.health_context
    raise_if (is_outside row.case_id numeric || is_outside row.case_id health) workflow_conflict
    attempt ← active_of db.journal row.active_attempt_id
    raise_if (other_case row.case_id attempt) workflow_conflict
    let status : DispatchStatus = record {
      setting = row;
      numeric_event_id = event_in numeric;
      health_evaluated_at = time_in health;
      active_status = status_of attempt;
    }
    check_identifier texts row.case_id
    check_identifier texts row.monitor_id
    check_event texts row.initial_event_id
    check_event texts status.numeric_event_id
    check_attempt_id texts row.active_attempt_id
    raise_if (not (fits_status status)) value_error
    ok status

  -- `status`
  unfoldable pub read_status : DispatchDb → ℕ → Result DispatchStatus
  read_status db c = settings_of db c >>= λ s. dispatch_status db s.0

  -- `activate` of a case that is not activated yet.
  unfoldable pub activate_new :
      CaseRow → ℕ → AttentionPolicy → ℕ → ℕ → DispatchDb → Result DispatchDb
  activate_new case policy_json policy profile_json now db = do
    check_time case now
    raise_if
        (not (case.revision == 0)
          || is_some (find (λ (row : AttemptRow). row.case_id == case.case_id) db.journal.attempts))
        workflow_conflict
    ok (record db {
      settings = db.settings ++ new_setting case policy_json policy profile_json now ∷ [];
    })

  -- `activate`; the texts of the policy and the profile are bound.
  unfoldable pub activate :
      ℕ → AttentionPolicy → InvocationProfile → ℕ → DispatchDb → Result DispatchDb
  activate c policy profile now db = do
    check_identifier texts c
    raise_if (not (profile.instruction_version == engine.instructions)) value_error
    _ ← engine.decode_policy (engine.policy_json policy)
    case ← case_row db.journal.work c
    monitor ← get_config db.journal.work.watch case.config.monitor_id
    raise_if (not (monitor.case_id == c)) value_error
    raise_if (eq_mode profile.mode scripted_sdk && not case.config.simulated) value_error
    raise_if (not (all (has_series monitor) policy.rules)) value_error
    elim (find (of_setting c) db.settings) [
      | none ↦ activate_new case (engine.policy_json policy) policy (codec.profile profile) now db
      | some existing ↦ settings_of db c >>= λ s.
          raise_if
            (not (
              existing.policy_json == engine.policy_json policy
              && existing.profile_json == codec.profile profile))
            workflow_conflict
          >> ok db
    ]
