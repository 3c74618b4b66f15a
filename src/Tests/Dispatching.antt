-- ===== src/Tests/Dispatching.antt =====
-- The theorem of the dispatcher on the first event of a case.
use mathlib.Core.Path.{subst}
use watershed_memory.Base.{
  ◌==◌, ℕ, false, arith, ℕ, ◌≡◌, refl, none, some, true, Result, ok, err, [], ◌∷◌,
}
use watershed_memory.Base.Table.{find, select, delete, update, count}
use watershed_memory.Time.{plus_seconds, minus_seconds, floor_to}
use watershed_memory.Text.{
  is_digit, is_alphanumeric, is_id_char, is_identifier, is_parameter_code, is_digest, is_series_id,
  is_station, bounded_source_text, text_lt,
}
use watershed_memory.Watch.Config.{
  eq_spec, eq_specs, eq_config, check_spec, check_specs, check_client, check_timing, check_names,
  check_config,
}
use watershed_memory.Watch.Ingest.{
  measurement, mark_dirty, newer_publication, refresh, new_version, put_current, raise_cursor,
  store_version, current_of, apply_item, ingest_item, ingest_items, ingest,
}
use watershed_memory.Watch.Payloads.{
  insert_sorted, sort, tally, counter, present, fold_value, latest_row, qualifier_set, summarize,
  payload_of,
}
use watershed_memory.Watch.Events.{
  pick, latest_event, next_revision, is_new_digest, join, members_of, digest_of, event_row,
  insert_event, seal_members, clear_dirty, seal_interval, seal_all, seal_events,
}
use watershed_memory.Watch.Store.{
  monitor, get_config, new_monitor, new_cursors, register, poll_window, is_leased, grant_lease,
  acquire_poll, guard_lease, poll_outcome, advance_row, drop_lease, commit_transaction, commit_poll,
  backoff, check_source_error, fail_row, fail_poll, take_rows, join_events, pending_events,
  lease_expiry,
}
use watershed_memory.Watch.Validation.{
  validate_scope, validate_pages, is_seen, order_lt, in_order, validate_identity, validate_metadata,
  validate_item, validate_items, validate_batch,
}
use watershed_memory.Cases.Types.{
  check_identifier, check_text, check_case_config, check_draft, check_link, check_plan,
  check_action, check_record,
}
use watershed_memory.Cases.Records.{
  is_active, eq_kind, case_row, checked, review_record, prior_receipt, add_revision, add_receipt,
  add_evidence, check_revision, check_time,
}
use watershed_memory.Cases.Registration.{
  check_expected, check_future, eq_list, eq_policy, eq_case_config, add_case, register_case,
}
use watershed_memory.Cases.Store.{
  is_result, is_open, new_review, insert_review, approval_of, modification_of, plan_of, transition,
  revised, update_review, answer_or, stage_new, stage_review, link_new, link_evidence, act_new, act,
}
use watershed_memory.Watch.Store.Reachability.{acquires}
use watershed_memory.Watch.Store.Reachability as Watched
use watershed_memory.Delivery.Reachability as Runs
use watershed_memory.Delivery.Types.{
  is_hex, is_attempt, is_nil, is_work_of, fits_status, check_profile, check_receipt, eq_mode,
  check_allowance,
}
use watershed_memory.Delivery.Records.{
  is_unresolved, finished_or, check_records, check_bytes, read_receipt, attempt_row,
  check_delivery_time, check_identity, acknowledge, finish_attempt,
}
use watershed_memory.Delivery.Opening.{create_journal}
use watershed_memory.Delivery.Reserve.{
  charge, check_prior, check_source, insert_attempt, check_request, answer_request, check_health,
  check_reservation, reserve_new, reserve,
}
use watershed_memory.Delivery.Commit.{
  deliver, apply_decision, apply_decisions, commit_work, commit_reserved, check_encoded, commit,
  settle, fail, abandon_row, abandon,
}
use watershed_memory.Dispatch.Types.{
  AttentionPolicy, AttentionResult, DispatchStep, initial_review, rank, is_ordered, has_reason,
  check_event, is_sorted, check_attention, is_eligible, is_of_step, fits_step, check_attempt_id,
  check_step, step_reserved,
}
use watershed_memory.Dispatch.Records.{Admission, CurrentContext, Engine, DispatchDb, check_json}
use watershed_memory.Dispatch.Admission.{
  is_event, fits_baseline, not_initial, moves_numeric, due_identities, handled_key, handled_keys,
  is_late, late_attention, evaluate_admission, capture_admission, restored, restore_admission,
}
use watershed_memory.Dispatch.Settings
use watershed_memory.Dispatch.Settings.{
  is_live, is_external, has_series, settings_of, dispatch_status, activate_new, activate,
}
use watershed_memory.Dispatch.Queue.{
  is_before, first_place, next_event, last_event, insert_place, sort_places, history_of,
  add_outcome, take_event, pass_over, set_setting, bootstrap, add_admission,
}
use watershed_memory.Dispatch.Prepare.{
  suppress, accept, settle_event, widen, decide, prepare_event, prepare_free, prepare,
}
use watershed_memory.Cases.Policies.{is_distinct}
use watershed_memory.Dispatch.Accounts.{IsDispatchSound}
use watershed_memory.Dispatch.Replay.{IsKept, restore_admission-capture_admission}
use watershed_memory.Dispatch.Reachability.{
  new_dispatch, installed, called, activates, prepares, DispatchReach-IsDispatchSound,
}
use watershed_memory.Delivery.Reachability.{opened, watches}
use watershed_memory.Tests.Inputs.{
  texts, sha, digests, validate, batch, lease, config, at, case_config, policy_sha, input_sha,
  value_or, registered, leased, polled_once,
}
use watershed_memory.Tests.Watching.{
  register_test, acquire_test, commit_test as polled_test, result,
}
use watershed_memory.Tests.Delivering.{
  codec, context_at, profile, opened_journal, create_test, register_case_test,
}
use watershed_memory.Watch.Store.Reachability.{acquires}
use watershed_memory.Watch.Store.Reachability as Watched
use watershed_memory.Delivery.Reachability as Runs

abbrev policy : AttentionPolicy
policy = record {
  policy_id = 4;
  rules = record { parameter_code = 6; unit = 7 } ∷ [];
  policy_digest = 1;
}

abbrev attention : AttentionResult
attention = record {
  eligible = true;
  reasons = initial_review ∷ [];
  changed_parameters = [];
  due_checks = [];
  policy_digest = 1;
  basis_event_id = none;
}

abbrev full_context : ℕ → CurrentContext
full_context now = record {
  base = context_at now;
  current = record {
    event_id = 1;
    interval_start = at 0;
    interval_end = at 3600;
    revision = 1;
    supersedes_event_id = none;
  };
  prior = [];
  reviews = [];
  review_evidence = [];
  has_health = true;
}

abbrev engine : Engine
engine = record {
  load = λ db q. ok (full_context q.evaluated_at);
  decode_reference = λ t. ok (record { case_id = 3; event_id = 1; evaluated_at = at 5000 });
  restore = λ db t. ok (full_context t);
  reference = λ c. ok c.base.evaluated_at;
  same_context = λ a b. a.json == b.json;
  comparable = λ a b. true;
  evaluate = λ c p n h ks. ok attention;
  due_key = λ t r n. t;
  policy_json = λ p. 98;
  decode_policy = λ t. ok policy;
  attention_json = λ a. 99;
  replay_json = λ r. 101;
  decode_profile = λ t. ok profile;
  instructions = 5;
}

abbrev dispatch_or {ℓ} : {A : Type ℓ} → DispatchDb → Result (DispatchDb × A) → DispatchDb
dispatch_or d (ok (e, a)) = e
dispatch_or d (err e) = d

abbrev installed_once : DispatchDb
installed_once = new_dispatch opened_journal

abbrev activated_once : DispatchDb
activated_once =
    value_or installed_once (activate texts codec engine 3 policy profile (at 4600) installed_once)

abbrev prepared_once : DispatchDb
prepared_once =
    dispatch_or installed_once (prepare texts codec engine 70 60 3 (at 5000) activated_once)

abbrev step : DispatchStep
step = record {
  case_id = 3;
  status = step_reserved;
  event_id = some 1;
  attention = some attention;
  reservation = some (
    record {
      attempt_id = 70;
      request_id = 60;
      profile = profile;
      source_delivery = true;
      context = context_at (at 5000);
      reserved_at = at 5000;
    },
    1,
  );
  held_attempt_id = none;
}

-- What the runs lead to.
runs :
    (activate texts codec engine 3 policy profile (at 4600) installed_once ≡ ok activated_once)
    × (prepare texts codec engine 70 60 3 (at 5000) activated_once ≡ ok (prepared_once, step))
unfolding find select delete update count plus_seconds minus_seconds floor_to is_digit
    is_alphanumeric is_id_char is_identifier is_parameter_code is_digest is_series_id is_station
    bounded_source_text text_lt eq_spec eq_specs eq_config check_spec check_specs check_client
    check_timing check_names check_config measurement mark_dirty newer_publication refresh
    new_version put_current raise_cursor store_version current_of apply_item ingest_item
    ingest_items ingest insert_sorted sort tally counter present fold_value latest_row qualifier_set
    summarize payload_of pick latest_event next_revision is_new_digest join members_of digest_of
    event_row insert_event seal_members clear_dirty seal_interval seal_all seal_events monitor
    get_config new_monitor new_cursors register poll_window is_leased grant_lease acquire_poll
    guard_lease poll_outcome advance_row drop_lease commit_transaction commit_poll backoff
    check_source_error fail_row fail_poll take_rows join_events pending_events lease_expiry
    validate_scope validate_pages is_seen order_lt in_order validate_identity validate_metadata
    validate_item validate_items validate_batch check_identifier check_text check_case_config
    check_draft check_link check_plan check_action check_record is_active eq_kind case_row checked
    review_record prior_receipt add_revision add_receipt add_evidence check_revision check_time
    check_expected check_future eq_list eq_policy eq_case_config add_case register_case is_result
    is_open new_review insert_review approval_of modification_of plan_of transition revised
    update_review answer_or stage_new stage_review link_new link_evidence act_new act is_hex
    is_attempt is_nil is_work_of fits_status check_profile check_receipt is_unresolved finished_or
    check_records check_bytes read_receipt attempt_row check_delivery_time check_identity
    acknowledge finish_attempt eq_mode check_allowance create_journal charge check_prior
    check_source insert_attempt check_request answer_request check_health check_reservation
    reserve_new reserve deliver apply_decision apply_decisions commit_work commit_reserved
    check_encoded commit settle fail abandon_row abandon rank is_ordered has_reason check_event
    is_sorted check_attention is_eligible is_of_step fits_step check_attempt_id check_step
    check_json is_event fits_baseline not_initial moves_numeric due_identities handled_key
    handled_keys is_late late_attention evaluate_admission capture_admission restored
    restore_admission is_live Settings.fits_status is_external has_series settings_of
    dispatch_status activate_new activate is_before first_place next_event last_event insert_place
    sort_places history_of add_outcome take_event pass_over set_setting bootstrap suppress accept
    settle_event widen decide prepare_event prepare_free prepare is_distinct add_admission
runs = (refl, refl)

activate_test :
    activate texts codec engine 3 policy profile (at 4600) installed_once ≡ ok activated_once
activate_test = runs.0

prepare_test :
    prepare texts codec engine 70 60 3 (at 5000) activated_once ≡ ok (prepared_once, step)
prepare_test = runs.1

DispatchReach-IsDispatchSound_example : IsDispatchSound prepared_once
DispatchReach-IsDispatchSound_example =
    DispatchReach-IsDispatchSound texts sha digests validate policy_sha input_sha codec engine
      (λ c a. ok tt) prepared_once
      (called
        (called
          (installed (
            opened (some (record { scripted_attempts = 2; provider_attempts = 1 }))
              (Runs.next
                (Runs.next
                  (Runs.next
                    (Runs.next Runs.start
                      (watches registered (Watched.registers config register_test) refl))
                    (watches leased (acquires 11 1 (at 4000) (some lease) acquire_test) refl))
                  (watches polled_once (Watched.commits lease batch (at 4001) result polled_test)
                    refl))
                (Runs.registers case_config (at 4500) register_case_test))
              create_test))
          (activates 3 policy profile (at 4600) activate_test))
        (prepares 70 60 3 (at 5000) step prepare_test))

abbrev saved : Admission
saved = record {
  attempt_id = 70;
  case_id = 3;
  replay = record {
    context = at 5000;
    numeric = some (at 4900);
    health = some (at 4800);
    handled_due_keys = [];
    source_delivery = true;
  };
  attention = attention;
  move_numeric = false;
}

abbrev numeric_basis : CurrentContext
numeric_basis = full_context (at 4900)

abbrev health_basis : CurrentContext
health_basis = full_context (at 4800)

-- What the admission was decided on.
decided_runs :
    (handled_keys texts codec engine 3 (at 5000) [] (due_identities texts codec engine []) ≡ ok [])
    × (evaluate_admission texts codec engine
          (full_context (at 5000))
          policy
          (some numeric_basis)
          (some health_basis)
          []
        ≡ ok (attention, false))
    × (capture_admission texts codec engine
          (full_context (at 5000))
          (some numeric_basis)
          (some health_basis)
          []
          true
        ≡ ok saved.replay)
    × (check_json codec 99 4096 ≡ ok tt)
unfolding handled_keys due_identities evaluate_admission fits_baseline is_late moves_numeric
    capture_admission check_json
decided_runs = (refl, refl, refl, refl)

-- The reference to a context of this engine is its time.
full_context-IsKept : (n : ℕ) → IsKept texts codec engine installed_once (full_context n)
full_context-IsKept n text h = ground arith

full_context-IsKept-some :
    (n : ℕ) (c : CurrentContext)
    → some (full_context n) ≡ some c
    → IsKept texts codec engine installed_once c
full_context-IsKept-some n c e =
    let same : full_context n ≡ c = ground arith in
    subst (IsKept texts codec engine installed_once) same (full_context-IsKept n)

restore_admission-capture_admission_example :
    restore_admission texts codec engine installed_once saved policy
    ≡ ok (full_context (at 5000), attention, false)
restore_admission-capture_admission_example =
    restore_admission-capture_admission texts codec engine installed_once policy saved
      (full_context (at 5000)) (some numeric_basis) (some health_basis) [] true decided_runs.0
      decided_runs.1 decided_runs.2 decided_runs.3 (full_context-IsKept (at 5000))
      (full_context-IsKept-some (at 4900)) (full_context-IsKept-some (at 4800))
