-- ===== src/Tests/Working.antt =====
-- The theorems of the work ledger on one review.
use watershed_memory.Base.{◌⊎◌, ◌≡◌, refl, none, some, ok, arith, false}
use watershed_memory.Base.Table.{find, select, delete, update, count}
use watershed_memory.Time.{plus_seconds, minus_seconds, floor_to}
use watershed_memory.Text.{
  is_digit, is_alphanumeric, is_id_char, is_identifier, is_parameter_code, is_digest, is_series_id,
  is_station, bounded_source_text, text_lt,
}
use watershed_memory.Watch.Config.{
  eq_spec, eq_specs, eq_config, check_spec, check_specs, check_client, check_timing, check_names,
  check_config,
}
use watershed_memory.Watch.Ingest.{
  measurement, mark_dirty, newer_publication, refresh, new_version, put_current, raise_cursor,
  store_version, current_of, apply_item, ingest_item, ingest_items, ingest,
}
use watershed_memory.Watch.Payloads.{
  insert_sorted, sort, tally, counter, present, fold_value, latest_row, qualifier_set, summarize,
  payload_of,
}
use watershed_memory.Watch.Events.{
  pick, latest_event, next_revision, is_new_digest, join, members_of, digest_of, event_row,
  insert_event, seal_members, clear_dirty, seal_interval, seal_all, seal_events,
}
use watershed_memory.Watch.Store.{
  monitor, get_config, new_monitor, new_cursors, register, poll_window, is_leased, grant_lease,
  acquire_poll, guard_lease, poll_outcome, advance_row, drop_lease, commit_transaction, commit_poll,
  backoff, check_source_error, fail_row, fail_poll, take_rows, join_events, pending_events,
  lease_expiry,
}
use watershed_memory.Watch.Validation.{
  validate_scope, validate_pages, is_seen, order_lt, in_order, validate_identity, validate_metadata,
  validate_item, validate_items, validate_batch,
}
use watershed_memory.Cases.Types.{
  dismissed, observation_review, check_identifier, check_text, check_case_config, check_draft,
  check_link, check_plan, check_action, check_record,
}
use watershed_memory.Cases.Records.{
  of_review, ReviewRow, is_active, eq_kind, case_row, checked, review_record, prior_receipt,
  add_revision, add_receipt, add_evidence, check_revision, check_time,
}
use watershed_memory.Cases.Registration.{
  check_expected, check_future, eq_list, eq_policy, eq_case_config, add_case, register_case,
}
use watershed_memory.Cases.Store.{
  is_result, is_open, new_review, insert_review, approval_of, modification_of, plan_of, transition,
  revised, update_review, answer_or, stage_new, stage_review, link_new, link_evidence, act_new, act,
}
use watershed_memory.Cases.Store.Indexes.{IsUnique}
use watershed_memory.Cases.Store.Uniqueness.{stage_review-IsUnique, act-IsUnique}
use watershed_memory.Cases.Store.Evidence.{IsLinked, link_evidence_guarded}
use watershed_memory.Cases.Store.Replay.{stage_review_again, link_evidence_again, act_again}
use watershed_memory.Cases.Store.Lifecycle.{act_keeps_closed}
use watershed_memory.Tests.Inputs.{
  texts, at, case_config, policy_sha, input_sha, no_case, one_case, draft, staged, link, linked,
  action, dismissed_once, staged_record, dismissed_record,
}

abbrev closed : ReviewRow
closed = record {
  task_id = 50;
  case_id = 3;
  monitor_id = 1;
  kind = observation_review;
  status = dismissed;
  revision = 2;
  title = 20;
  reason = 16;
  next_check_at = none;
  created_at = at 5000;
  updated_at = at 5002;
}

-- What the runs lead to.
runs :
    (register_case policy_sha case_config (at 4500) no_case ≡ ok one_case)
    × (stage_review texts input_sha 50 3 draft 60 0 (at 5000) one_case ≡ ok (staged, staged_record))
    × (link_evidence texts input_sha 3 link 61 1 (at 5001) staged ≡ ok (linked, staged_record))
    × (act texts input_sha 3 action 62 (at 5002) staged ≡ ok (dismissed_once, dismissed_record))
    × (find (of_review 3 50) dismissed_once.reviews ≡ some closed)
unfolding find select delete update count plus_seconds minus_seconds floor_to is_digit
    is_alphanumeric is_id_char is_identifier is_parameter_code is_digest is_series_id is_station
    bounded_source_text text_lt eq_spec eq_specs eq_config check_spec check_specs check_client
    check_timing check_names check_config measurement mark_dirty newer_publication refresh
    new_version put_current raise_cursor store_version current_of apply_item ingest_item
    ingest_items ingest insert_sorted sort tally counter present fold_value latest_row qualifier_set
    summarize payload_of pick latest_event next_revision is_new_digest join members_of digest_of
    event_row insert_event seal_members clear_dirty seal_interval seal_all seal_events monitor
    get_config new_monitor new_cursors register poll_window is_leased grant_lease acquire_poll
    guard_lease poll_outcome advance_row drop_lease commit_transaction commit_poll backoff
    check_source_error fail_row fail_poll take_rows join_events pending_events lease_expiry
    validate_scope validate_pages is_seen order_lt in_order validate_identity validate_metadata
    validate_item validate_items validate_batch check_identifier check_text check_case_config
    check_draft check_link check_plan check_action check_record is_active eq_kind case_row checked
    review_record prior_receipt add_revision add_receipt add_evidence check_revision check_time
    check_expected check_future eq_list eq_policy eq_case_config add_case register_case is_result
    is_open new_review insert_review approval_of modification_of plan_of transition revised
    update_review answer_or stage_new stage_review link_new link_evidence act_new act
runs = (refl, refl, refl, refl, refl)

register_case_test : register_case policy_sha case_config (at 4500) no_case ≡ ok one_case
register_case_test = runs.0

stage_test :
    stage_review texts input_sha 50 3 draft 60 0 (at 5000) one_case ≡ ok (staged, staged_record)
stage_test = runs.1

link_test : link_evidence texts input_sha 3 link 61 1 (at 5001) staged ≡ ok (linked, staged_record)
link_test = runs.2

act_test : act texts input_sha 3 action 62 (at 5002) staged ≡ ok (dismissed_once, dismissed_record)
act_test = runs.3

one_case-IsUnique : IsUnique one_case.reviews
unfolding find select delete update count plus_seconds minus_seconds floor_to is_digit
    is_alphanumeric is_id_char is_identifier is_parameter_code is_digest is_series_id is_station
    bounded_source_text text_lt eq_spec eq_specs eq_config check_spec check_specs check_client
    check_timing check_names check_config measurement mark_dirty newer_publication refresh
    new_version put_current raise_cursor store_version current_of apply_item ingest_item
    ingest_items ingest insert_sorted sort tally counter present fold_value latest_row qualifier_set
    summarize payload_of pick latest_event next_revision is_new_digest join members_of digest_of
    event_row insert_event seal_members clear_dirty seal_interval seal_all seal_events monitor
    get_config new_monitor new_cursors register poll_window is_leased grant_lease acquire_poll
    guard_lease poll_outcome advance_row drop_lease commit_transaction commit_poll backoff
    check_source_error fail_row fail_poll take_rows join_events pending_events lease_expiry
    validate_scope validate_pages is_seen order_lt in_order validate_identity validate_metadata
    validate_item validate_items validate_batch check_identifier check_text check_case_config
    check_draft check_link check_plan check_action check_record is_active eq_kind case_row checked
    review_record prior_receipt add_revision add_receipt add_evidence check_revision check_time
    check_expected check_future eq_list eq_policy eq_case_config add_case register_case is_result
    is_open new_review insert_review approval_of modification_of plan_of transition revised
    update_review answer_or stage_new stage_review link_new link_evidence act_new act
one_case-IsUnique = record { tasks = λ t. omega arith; kinds = λ c kind. omega arith }

stage_review-IsUnique_example : IsUnique staged.reviews
stage_review-IsUnique_example =
    stage_review-IsUnique texts input_sha 50 3 draft 60 0 (at 5000) one_case staged staged_record
      stage_test one_case-IsUnique

stage_review-IsUnique_case : IsUnique staged.reviews
stage_review-IsUnique_case =
    stage_review-IsUnique texts input_sha 50 3 draft 60 0 (at 5000) one_case staged staged_record
      stage_test one_case-IsUnique

link_evidence_guarded_example : (linked ≡ staged) ⊎ IsLinked 3 link 1 staged linked
link_evidence_guarded_example =
    link_evidence_guarded texts input_sha 3 link 61 1 (at 5001) staged linked staged_record
      link_test

act-IsUnique_example : IsUnique dismissed_once.reviews
act-IsUnique_example =
    act-IsUnique texts input_sha 3 action 62 (at 5002) staged dismissed_once dismissed_record
      act_test stage_review-IsUnique_case

stage_review_again_example :
    stage_review texts input_sha 51 3 draft 60 0 (at 6000) staged ≡ ok (staged, staged_record)
stage_review_again_example =
    stage_review_again texts input_sha 50 51 3 draft 60 0 (at 5000) (at 6000) one_case staged
      staged_record stage_test

link_evidence_again_example :
    link_evidence texts input_sha 3 link 61 1 (at 6000) linked ≡ ok (linked, staged_record)
link_evidence_again_example =
    link_evidence_again texts input_sha 3 link 61 1 (at 5001) (at 6000) staged linked staged_record
      link_test

act_again_example :
    act texts input_sha 3 action 62 (at 6000) dismissed_once ≡ ok (dismissed_once, dismissed_record)
act_again_example =
    act_again texts input_sha 3 action 62 (at 5002) (at 6000) staged dismissed_once dismissed_record
      act_test

act_again_case :
    act texts input_sha 3 action 62 (at 6000) dismissed_once ≡ ok (dismissed_once, dismissed_record)
act_again_case =
    act_again texts input_sha 3 action 62 (at 5002) (at 6000) staged dismissed_once dismissed_record
      act_test

closed_test : find (of_review 3 50) dismissed_once.reviews ≡ some closed
closed_test = runs.4

dismissed_is_closed : is_active closed.status ≡ false
unfolding is_active
dismissed_is_closed = refl

-- The same action, repeated.
act_keeps_closed_example : find (of_review 3 50) dismissed_once.reviews ≡ some closed
act_keeps_closed_example =
    act_keeps_closed texts input_sha 3 action 62 (at 6000) 3 50 closed dismissed_once dismissed_once
      dismissed_record act_again_case closed_test dismissed_is_closed
