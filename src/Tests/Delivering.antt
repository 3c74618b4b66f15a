-- ===== src/Tests/Delivering.antt =====
-- The theorems of the journal on one attempt, from the empty database on.
use watershed_memory.Base.{
  ℕ, ◌+◌, ◌≡◌, refl, Option, none, some, true, false, Result, ok, err, [], ◌∷◌, delivery_held,
}
use watershed_memory.Base.Table.{find, select, delete, update, count}
use watershed_memory.Time.{plus_seconds, minus_seconds, floor_to}
use watershed_memory.Text.{
  is_digit, is_alphanumeric, is_id_char, is_identifier, is_parameter_code, is_digest, is_series_id,
  is_station, bounded_source_text, text_lt,
}
use watershed_memory.Watch.Config.{
  eq_spec, eq_specs, eq_config, check_spec, check_specs, check_client, check_timing, check_names,
  check_config,
}
use watershed_memory.Watch.Ingest.{
  measurement, mark_dirty, newer_publication, refresh, new_version, put_current, raise_cursor,
  store_version, current_of, apply_item, ingest_item, ingest_items, ingest,
}
use watershed_memory.Watch.Payloads.{
  insert_sorted, sort, tally, counter, present, fold_value, latest_row, qualifier_set, summarize,
  payload_of,
}
use watershed_memory.Watch.Events.{
  pick, latest_event, next_revision, is_new_digest, join, members_of, digest_of, event_row,
  insert_event, seal_members, clear_dirty, seal_interval, seal_all, seal_events,
}
use watershed_memory.Watch.Store.{
  monitor, get_config, new_monitor, new_cursors, register, poll_window, is_leased, grant_lease,
  acquire_poll, guard_lease, poll_outcome, advance_row, drop_lease, commit_transaction, commit_poll,
  backoff, check_source_error, fail_row, fail_poll, take_rows, join_events, pending_events,
  lease_expiry,
}
use watershed_memory.Watch.Validation.{
  validate_scope, validate_pages, is_seen, order_lt, in_order, validate_identity, validate_metadata,
  validate_item, validate_items, validate_batch,
}
use watershed_memory.Cases.Types.{
  observation_review, check_identifier, check_text, check_case_config, check_draft, check_link,
  check_plan, check_action, check_record,
}
use watershed_memory.Cases.Records.{
  is_active, eq_kind, case_row, checked, review_record, prior_receipt, add_revision, add_receipt,
  add_evidence, check_revision, check_time,
}
use watershed_memory.Cases.Registration.{
  check_expected, check_future, eq_list, eq_policy, eq_case_config, add_case, register_case,
}
use watershed_memory.Cases.Store.{
  is_result, is_open, new_review, insert_review, approval_of, modification_of, plan_of, transition,
  revised, update_review, answer_or, stage_new, stage_review, link_new, link_evidence, act_new, act,
}
use watershed_memory.Watch.Store.Reachability.{acquires}
use watershed_memory.Watch.Store.Reachability as Watched
use watershed_memory.Delivery.Reachability as Runs
use watershed_memory.Cases.Records.{CaseDb}
use watershed_memory.Delivery.Types.{
  InvocationProfile, scripted_sdk, propose_review, reserved, committed, CurrentExecution,
  DeliveryReceipt, is_hex, is_attempt, is_nil, is_work_of, fits_status, check_profile,
  check_receipt, eq_mode, check_allowance,
}
use watershed_memory.Delivery.Records.{
  DeliveryRequest, Codec, AttemptRow, Journal, ContextQuery, Context, is_held, of_attempt,
  of_delivery, is_unresolved, finished_or, check_records, check_bytes, read_receipt, attempt_row,
  check_delivery_time, check_identity, acknowledge, finish_attempt, receipt_of,
}
use watershed_memory.Delivery.Opening.{create_journal}
use watershed_memory.Delivery.Reserve.{
  Reservation, fresh, charge, check_prior, check_source, insert_attempt, check_request,
  answer_request, check_health, check_reservation, reserve_new, reserve, reserved_row,
}
use watershed_memory.Delivery.Commit.{
  deliver, apply_decision, apply_decisions, commit_work, commit_reserved, check_encoded, commit,
  settle, fail, abandon_row, abandon,
}
use watershed_memory.Delivery.Journals.{IsJournalSound, HasMoved}
use watershed_memory.Delivery.Reachability.{
  JournalReach, opened, later, JournalStep, changes, reserves, JournalReach-IsJournalSound,
  JournalStep-HasMoved, watches,
}
use watershed_memory.Delivery.Answers.{commit_again}
use watershed_memory.Delivery.Holding.{abandon_frees, reserve_holds}
use watershed_memory.Tests.Inputs.{
  texts, sha, digests, validate, batch, lease, config, at, case_config, policy_sha, input_sha,
  no_case, one_case, value_or, registered, leased, polled_once,
}
use watershed_memory.Tests.Watching.{
  register_test, acquire_test, commit_test as polled_test, result,
}

abbrev pub codec : Codec
codec = record {
  execution = λ e. 90;
  failure = λ f. 91;
  request = λ r. 92;
  profile = λ p. p.model_id;
  refs = λ r. 94;
  versions = λ v. 95;
  work = λ w. 96;
  sha = λ t. t;
  bytes = λ t. 100;
  canonical = λ t. true;
  numbered = λ a i. 100 + i;
}

abbrev pub context_at : ℕ → Context
context_at now = record {
  case_id = 3;
  case_revision = 0;
  policy_digest = 4;
  simulated = true;
  evaluated_at = now;
  source_case_id = 3;
  monitor_id = 1;
  prior_ids = [];
  review_refs = [];
  health_versions = [];
  json = 80;
}

abbrev load : CaseDb → ContextQuery → Result Context
load db q = ok (context_at q.evaluated_at)

abbrev pub profile : InvocationProfile
profile = record { mode = scripted_sdk; model_id = 16; instruction_version = 5; sdk_version = 6 }

abbrev request : DeliveryRequest
request = record {
  event_id = 1;
  profile = profile;
  source_delivery = true;
  include_source_health = false;
  prior_event_ids = none;
}

abbrev execution : CurrentExecution
execution = record {
  assessment = record {
    case_id = 3;
    case_revision = 0;
    policy_digest = 4;
    event_id = 1;
    decisions =
        record {
          disposition = propose_review;
          kind = some observation_review;
          event_id = 1;
          target_task_id = none;
          title = some 20;
          reason = 16;
          next_check_at = some (at 9000);
          reference_ids = [];
        }
        ∷ [];
    trace = [];
  };
  profile = profile;
  model_calls = 1;
  tool_attempts = 1;
  elapsed_seconds = 1;
  usage_json = 93;
}

abbrev pub opened_journal : Journal
opened_journal =
    value_or
      (record {
        work = no_case;
        allowance = record {
          scripted_limit = 0;
          scripted_used = 0;
          provider_limit = 0;
          provider_used = 0;
        };
        attempts = [];
      })
      (create_journal (some (record { scripted_attempts = 2; provider_attempts = 1 })) one_case)

abbrev pub journal_or {ℓ} : {A : Type ℓ} → Journal → Result (Journal × A) → Journal
journal_or j (ok (k, a)) = k
journal_or j (err e) = j

abbrev reserved_once : Journal
reserved_once =
    journal_or opened_journal (reserve texts codec load 70 3 60 request (at 5000) opened_journal)

abbrev committed_once : Journal
committed_once = journal_or opened_journal (
    commit texts input_sha codec load (λ c a. ok tt) (λ i. 50 + i) 70 execution (at 5010)
      reserved_once)

abbrev abandoned_once : Journal
abandoned_once =
    journal_or opened_journal
      (abandon texts input_sha codec load (λ c a. ok tt) 3 60 16 (at 5020) reserved_once)

abbrev row_or : Option AttemptRow → AttemptRow
row_or (some row) = row
row_or none = reserved_row codec 0 0 0 request (context_at 0) 0

abbrev reservation : Reservation
reservation = record {
  attempt_id = 70;
  request_id = 60;
  profile = profile;
  source_delivery = true;
  context = context_at (at 5000);
  reserved_at = at 5000;
}

abbrev receipt : DeliveryReceipt
receipt = receipt_of (row_or (find (of_attempt 70) committed_once.attempts))

abbrev reserved_attempt : AttemptRow
reserved_attempt = reserved_row codec 70 3 60 request (context_at (at 5000)) (at 5000)

-- What the runs lead to.
runs :
    (create_journal (some (record { scripted_attempts = 2; provider_attempts = 1 })) one_case
      ≡ ok opened_journal)
    × (register_case policy_sha case_config (at 4500) no_case ≡ ok one_case)
    × (reserve texts codec load 70 3 60 request (at 5000) opened_journal
        ≡ ok (reserved_once, fresh reservation))
    × (commit texts input_sha codec load
          (λ c a. ok tt)
          (λ i. 50 + i)
          70
          execution
          (at 5010)
          reserved_once
        ≡ ok (committed_once, receipt))
    × (find (of_attempt 70) reserved_once.attempts ≡ some reserved_attempt)
    × (receipt.status ≡ committed)
    × (find (of_delivery 3 60) reserved_once.attempts ≡ some reserved_attempt)
    × (abandon texts input_sha codec load (λ c a. ok tt) 3 60 16 (at 5020) reserved_once
        ≡ ok (abandoned_once, receipt_of (row_or (find (of_attempt 70) abandoned_once.attempts))))
    × (check_request texts codec load 3 61 request ≡ ok tt)
    × (find (of_delivery 3 61) reserved_once.attempts ≡ none)
unfolding find select delete update count plus_seconds minus_seconds floor_to is_digit
    is_alphanumeric is_id_char is_identifier is_parameter_code is_digest is_series_id is_station
    bounded_source_text text_lt eq_spec eq_specs eq_config check_spec check_specs check_client
    check_timing check_names check_config measurement mark_dirty newer_publication refresh
    new_version put_current raise_cursor store_version current_of apply_item ingest_item
    ingest_items ingest insert_sorted sort tally counter present fold_value latest_row qualifier_set
    summarize payload_of pick latest_event next_revision is_new_digest join members_of digest_of
    event_row insert_event seal_members clear_dirty seal_interval seal_all seal_events monitor
    get_config new_monitor new_cursors register poll_window is_leased grant_lease acquire_poll
    guard_lease poll_outcome advance_row drop_lease commit_transaction commit_poll backoff
    check_source_error fail_row fail_poll take_rows join_events pending_events lease_expiry
    validate_scope validate_pages is_seen order_lt in_order validate_identity validate_metadata
    validate_item validate_items validate_batch check_identifier check_text check_case_config
    check_draft check_link check_plan check_action check_record is_active eq_kind case_row checked
    review_record prior_receipt add_revision add_receipt add_evidence check_revision check_time
    check_expected check_future eq_list eq_policy eq_case_config add_case register_case is_result
    is_open new_review insert_review approval_of modification_of plan_of transition revised
    update_review answer_or stage_new stage_review link_new link_evidence act_new act is_hex
    is_attempt is_nil is_work_of fits_status check_profile check_receipt is_unresolved finished_or
    check_records check_bytes read_receipt attempt_row check_delivery_time check_identity
    acknowledge finish_attempt eq_mode check_allowance create_journal charge check_prior
    check_source insert_attempt check_request answer_request check_health check_reservation
    reserve_new reserve deliver apply_decision apply_decisions commit_work commit_reserved
    check_encoded commit settle fail abandon_row abandon
runs = (refl, refl, refl, refl, refl, refl, refl, refl, refl, refl)

pub create_test :
    create_journal (some (record { scripted_attempts = 2; provider_attempts = 1 })) one_case
    ≡ ok opened_journal
create_test = runs.0

pub register_case_test : register_case policy_sha case_config (at 4500) no_case ≡ ok one_case
register_case_test = runs.1

reserve_test :
    reserve texts codec load 70 3 60 request (at 5000) opened_journal
    ≡ ok (reserved_once, fresh reservation)
reserve_test = runs.2

commit_test :
    commit texts input_sha codec load
      (λ c a. ok tt)
      (λ i. 50 + i)
      70
      execution
      (at 5010)
      reserved_once
    ≡ ok (committed_once, receipt)
commit_test = runs.3

reached :
    JournalReach texts sha digests validate policy_sha input_sha codec load
      (λ c a. ok tt)
      reserved_once
reached =
    later
      (opened (some (record { scripted_attempts = 2; provider_attempts = 1 }))
        (Runs.next
          (Runs.next
            (Runs.next
              (Runs.next Runs.start
                (watches registered (Watched.registers config register_test) refl))
              (watches leased (acquires 11 1 (at 4000) (some lease) acquire_test) refl))
            (watches polled_once (Watched.commits lease batch (at 4001) result polled_test) refl))
          (Runs.registers case_config (at 4500) register_case_test))
        create_test)
      (changes (reserves 70 3 60 request (at 5000) (fresh reservation) reserve_test))

committing :
    JournalStep texts sha digests validate policy_sha input_sha codec load
      (λ c a. ok tt)
      reserved_once
      committed_once
committing = changes (Runs.commits (λ i. 50 + i) 70 execution (at 5010) receipt commit_test)

JournalReach-IsJournalSound_example : IsJournalSound committed_once
JournalReach-IsJournalSound_example =
    JournalReach-IsJournalSound texts sha digests validate policy_sha input_sha codec load
      (λ c a. ok tt) committed_once (later reached committing)

reserved_test : find (of_attempt 70) reserved_once.attempts ≡ some reserved_attempt
reserved_test = runs.4

JournalStep-HasMoved_example : HasMoved reserved_attempt committed_once
JournalStep-HasMoved_example =
    JournalStep-HasMoved texts sha digests validate policy_sha input_sha codec load (λ c a. ok tt)
      reserved_once committed_once reserved_attempt reached committing reserved_test

status_test : receipt.status ≡ committed
status_test = runs.5

commit_again_example :
    commit texts input_sha codec load
      (λ c a. ok tt)
      (λ i. 80 + i)
      70
      execution
      (at 6000)
      committed_once
    ≡ ok (committed_once, receipt)
commit_again_example =
    commit_again texts input_sha codec load (λ c a. ok tt) (λ i. 50 + i) (λ i. 80 + i) 70 execution
      (at 5010) (at 6000) reserved_once committed_once receipt commit_test status_test

delivery_test : find (of_delivery 3 60) reserved_once.attempts ≡ some reserved_attempt
delivery_test = runs.6

unresolved_test : is_unresolved reserved ≡ true
unfolding is_unresolved
unresolved_test = refl

abandon_test :
    abandon texts input_sha codec load (λ c a. ok tt) 3 60 16 (at 5020) reserved_once
    ≡ ok (abandoned_once, receipt_of (row_or (find (of_attempt 70) abandoned_once.attempts)))
abandon_test = runs.7

abandon_frees_example : find (is_held 3) abandoned_once.attempts ≡ none
abandon_frees_example =
    abandon_frees texts input_sha codec load (λ c a. ok tt) 3 60 16 (at 5020) reserved_once
      abandoned_once (receipt_of (row_or (find (of_attempt 70) abandoned_once.attempts)))
      reserved_attempt
      (JournalReach-IsJournalSound texts sha digests validate policy_sha input_sha codec load
        (λ c a. ok tt) reserved_once reached)
      delivery_test unresolved_test abandon_test

checked_test : check_request texts codec load 3 61 request ≡ ok tt
checked_test = runs.8

unseen_test : find (of_delivery 3 61) reserved_once.attempts ≡ none
unseen_test = runs.9

reserve_holds_example :
    reserve texts codec load 71 3 61 request (at 5001) reserved_once ≡ err delivery_held
reserve_holds_example =
    reserve_holds texts input_sha codec load (λ c a. ok tt) 70 3 60 request (at 5000) opened_journal
      reserved_once reservation 71 61 request (at 5001) reserve_test checked_test unseen_test
