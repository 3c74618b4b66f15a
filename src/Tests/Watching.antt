-- ===== src/Tests/Watching.antt =====
-- The theorems of the watch on a first poll.
use watershed_memory.Base.{
  Result, source_error, http, length, ap, false, List, true, ℕ, min, ◌+◌, ◌≤◌, ◌≡◌, refl, none,
  some, [], ◌∷◌, ok, err, arith, lease_lost, All,
}
use watershed_memory.Base.Table.{find, delete, count, update}
use watershed_memory.Time.{plus_seconds, minus_seconds, floor_to, microseconds}
use watershed_memory.Watch.Config.{
  eq_spec, eq_specs, eq_config, check_specs, check_client, check_timing, check_names, check_config,
}
use watershed_memory.Watch.Ingest.{
  mark_dirty, store_version, current_of, apply_item, ingest_item, ingest_items, ingest, Progress,
}
use watershed_memory.Watch.Payloads.{payload_of}
use watershed_memory.Watch.Events.{
  is_due, latest_event, next_revision, is_new_digest, members_of, event_row, insert_event,
  seal_members, clear_dirty, seal_interval, seal_all, seal_events,
}
use watershed_memory.Watch.Store.{
  of_id, monitor, get_config, new_monitor, register, poll_window, is_leased, grant_lease,
  acquire_poll, guard_lease, poll_outcome, commit_transaction, commit_poll, backoff, fail_poll,
  lease_expiry, check_source_error, PollResult, advance_row,
}
use watershed_memory.Watch.Validation.{
  validate_scope, validate_pages, is_seen, in_order, validate_identity, validate_metadata,
  validate_item, validate_items, validate_batch,
}
use watershed_memory.Watch.Runner.{
  polled, report, wake, settle_commit, after_fetch, after_acquire, tick, Clocks, TickResult,
  not_due, backed_off,
}
use watershed_memory.Watch.Records.{events_ready, PollLease}
use watershed_memory.Watch.Tables.{SourceBatch, Db, Ledger}
use watershed_memory.Watch.Ingest.Consistency.{IsConsistent}
use watershed_memory.Watch.Ingest.Idempotence.{ingest_item_idem}
use watershed_memory.Watch.Events.Sealing.{IsRevised, seal_all-IsRevised}
use watershed_memory.Watch.Events.Clearing.{seal_events_clears}
use watershed_memory.Watch.Store.Backoff.{backoff_bounds, backoff-suc, backoff_retry}
use watershed_memory.Watch.Store.Leases.{
  IsWindow, acquire_poll-IsWindow, acquire_poll-excludes, fail_poll_once, acquire_poll-revokes,
}
use watershed_memory.Watch.Store.Reachability.{
  empty, Reach, start, next, registers, acquires, commits, Reach-IsSound,
}
use watershed_memory.Watch.Store.Soundness.{IsSound}
use watershed_memory.Watch.Validation.Order.{IsInScope, IsOrdered, validate_batch-IsOrdered}
use watershed_memory.Watch.Runner.Ticks.{BackedOff, tick_backs_off, wake_later}
use watershed_memory.Watch.Store.Commits.{commit_poll_once, IsReported, commit_poll-IsReported}
use watershed_memory.Watch.Runner.Loop.{Round, run, collect, settle_round, poll_rounds, run_bounded}
use watershed_memory.Tests.Inputs.{
  texts, sha, digests, config, at, observation, batch, lease, validate, registered, leased,
  polled_once, value_or, database_ledger,
}

pub register_test : register config empty ≡ ok registered
unfolding register find
register_test = refl

pub acquire_test : acquire_poll 11 1 (at 4000) registered ≡ ok (leased, some lease)
unfolding acquire_poll monitor find register is_leased poll_window minus_seconds plus_seconds
    grant_lease
acquire_test = refl

abbrev pub result : PollResult
result = record {
  outcome = events_ready;
  new_observations = 1;
  corrected_observations = 0;
  event_ids = 1 ∷ [];
}

pub commit_test :
    commit_poll texts sha digests validate lease batch (at 4001) leased ≡ ok (polled_once, result)
unfolding plus_seconds minus_seconds floor_to mark_dirty store_version current_of apply_item
    ingest_item ingest_items ingest payload_of latest_event next_revision is_new_digest members_of
    event_row insert_event seal_members clear_dirty seal_interval seal_all seal_events get_config
    register poll_window is_leased grant_lease acquire_poll guard_lease poll_outcome
    commit_transaction commit_poll validate_scope validate_pages is_seen in_order validate_identity
    validate_metadata validate_item validate_items validate_batch eq_config eq_specs eq_spec
commit_test = refl

registered_reached : Reach texts sha digests validate registered
registered_reached = next start (registers config register_test)

Reach-IsSound_example : IsSound polled_once
Reach-IsSound_example = Reach-IsSound texts sha digests validate polled_once (
    next (next registered_reached (acquires 11 1 (at 4000) (some lease) acquire_test))
      (commits lease batch (at 4001) result commit_test))

abbrev clocks : Clocks
clocks = record { acquired_at = at 4000; completed_at = at 4001; failed_at = at 4002 }

tick_test :
    (tick texts sha digests validate (λ s e n. ok batch) 11 1 clocks registered).0 ≡ polled_once
unfolding plus_seconds minus_seconds floor_to mark_dirty store_version current_of apply_item
    ingest_item ingest_items ingest payload_of latest_event is_new_digest members_of insert_event
    seal_members clear_dirty seal_interval seal_all seal_events get_config register poll_window
    is_leased grant_lease acquire_poll guard_lease commit_transaction commit_poll validate_scope
    validate_pages is_seen in_order validate_identity validate_metadata validate_item validate_items
    validate_batch report settle_commit after_fetch after_acquire tick eq_config eq_specs eq_spec
tick_test = refl

abbrev before : Progress
before = record { ledger = registered.ledger; new_count = 0; corrected = 0 }

abbrev taken : Progress
taken = value_or before (ingest_item texts sha config 1 observation before)

taken_test : ingest_item texts sha config 1 observation before ≡ ok taken
unfolding ingest_item apply_item current_of find register store_version mark_dirty floor_to
    plus_seconds
taken_test = refl

before-IsConsistent : IsConsistent before.ledger
unfolding find register
before-IsConsistent = record { counted_up = refl; numbered = tt; linked = tt }

ingest_item_idem_example : ingest_item texts sha config 2 observation taken ≡ ok taken
ingest_item_idem_example =
    ingest_item_idem texts sha config 1 2 observation before taken before-IsConsistent taken_test

abbrev sealed : Ledger
sealed = database_ledger (seal_events texts digests config (at 4000) taken.ledger)

sealed_test : seal_events texts digests config (at 4000) taken.ledger ≡ ok (sealed, 1 ∷ [])
unfolding find plus_seconds floor_to mark_dirty store_version current_of apply_item ingest_item
    payload_of latest_event next_revision is_new_digest members_of event_row insert_event
    seal_members seal_interval seal_all seal_events register
sealed_test = refl

seal_events_clears_example : find (is_due texts digests config (at 4000)) sealed.dirty ≡ none
seal_events_clears_example =
    seal_events_clears texts digests config (at 4000) taken.ledger sealed (1 ∷ []) sealed_test

seal_all_test : seal_all texts digests config taken.ledger.dirty taken.ledger ≡ ok (sealed, 1 ∷ [])
unfolding find plus_seconds floor_to mark_dirty store_version current_of apply_item ingest_item
    payload_of latest_event next_revision is_new_digest members_of event_row insert_event
    seal_members seal_interval seal_all seal_events register
seal_all_test = refl

taken-IsRevised : IsRevised taken.ledger.events
unfolding find count latest_event ingest_item apply_item current_of register store_version
    mark_dirty floor_to plus_seconds
taken-IsRevised = λ m s. (refl, refl)

seal_all-IsRevised_example : IsRevised sealed.events
seal_all-IsRevised_example =
    seal_all-IsRevised texts digests config taken.ledger.dirty taken.ledger sealed (1 ∷ [])
      seal_all_test taken-IsRevised

abbrev silent : ℕ → ℕ → ℕ → Result SourceBatch
silent s e n = err (source_error http (some 60))

-- The source fails after a second, and asks for a minute.
tick_backs_off_example :
    (db' : Db) × (b : BackedOff 1 1 (at 4001) (some 60) lease registered db') × (tick texts sha
        digests validate silent 11 1 clocks registered
      ≡ (
        db',
        ok (record {
          outcome = backed_off http;
          poll_result = none;
          next_poll_at = b.after.next_poll_at;
        }),
      ))
unfolding check_source_error
tick_backs_off_example =
    tick_backs_off texts sha digests validate silent 11 1 clocks registered leased lease http
      (some 60) acquire_test refl refl (omega arith) (omega arith) (omega arith)

acquire_poll-excludes_example : acquire_poll 12 1 (at 4100) leased ≡ ok (leased, none)
acquire_poll-excludes_example =
    acquire_poll-excludes 11 12 1 (at 4000) (at 4100) registered leased lease acquire_test
      (omega arith)

abbrev older : PollLease
older = record lease { token = 10 }

acquire_poll-revokes_example : guard_lease older (at 4001) leased ≡ err lease_lost
acquire_poll-revokes_example =
    acquire_poll-revokes 11 (at 4000) (at 4001) older registered leased lease acquire_test
      (omega arith)

registered_row : find (of_id 1) registered.monitors ≡ some (new_monitor config)
unfolding find new_monitor register
registered_row = refl

acquire_poll-IsWindow_example : IsWindow (new_monitor config) (at 4000) lease
acquire_poll-IsWindow_example =
    acquire_poll-IsWindow 11 1 (at 4000) registered leased lease (new_monitor config) registered_row
      acquire_test

abbrev failed : Db
failed = value_or leased (fail_poll lease 1 none (at 4001) leased)

fail_test : fail_poll lease 1 none (at 4001) leased ≡ ok failed
unfolding fail_poll guard_lease find acquire_poll monitor register is_leased poll_window
    minus_seconds plus_seconds grant_lease delete backoff
fail_test = refl

fail_poll_once_example : guard_lease lease (at 4002) failed ≡ err lease_lost
fail_poll_once_example = fail_poll_once lease 1 none (at 4001) (at 4002) leased failed fail_test

validate_test :
    validate_batch texts (λ c l b i p. true) (λ o. true) batch config lease (at 4001) ≡ ok tt
unfolding validate_batch validate_scope validate_pages validate_items validate_item
    validate_identity validate_metadata is_seen in_order plus_seconds
validate_test = refl

validate_batch-IsOrdered_example :
    (batch.start ≡ lease.start)
    × (batch.end ≡ lease.end)
    × All (IsInScope config lease) batch.observations
    × IsOrdered texts batch.observations
validate_batch-IsOrdered_example =
    validate_batch-IsOrdered texts (λ c l b i p. true) (λ o. true) batch config lease (at 4001)
      validate_test

backoff_bounds_example : (min 3600 900 ≤ backoff 900 3 none) × (backoff 900 3 none ≤ 3600)
backoff_bounds_example = backoff_bounds 900 3 none

backoff-suc_example : backoff 900 1 none ≤ backoff 900 2 none
backoff-suc_example = backoff-suc 900 1 none

backoff_retry_example : 1000 ≤ backoff 900 1 (some 1000)
backoff_retry_example = backoff_retry 900 1 1000 (omega arith)

abbrev woken : TickResult
woken = record { outcome = not_due; poll_result = none; next_poll_at = at 4120 }

wake_test : wake 1 (at 4010) leased ≡ ok woken
unfolding wake monitor find acquire_poll register is_leased poll_window minus_seconds plus_seconds
    grant_lease lease_expiry delete
wake_test = refl

wake_later_example :
    (at 4010 + microseconds 1 ≤ woken.next_poll_at)
    × ((expires : ℕ) → lease_expiry 1 leased ≡ some expires → expires ≤ woken.next_poll_at)
wake_later_example = wake_later 1 (at 4010) leased woken wake_test

check_test : check_config texts 99 config ≡ ok tt
unfolding check_config check_names check_client check_specs check_timing
check_test = refl

leased-IsConsistent : IsConsistent leased.ledger
unfolding find register acquire_poll monitor is_leased poll_window minus_seconds plus_seconds
    grant_lease
leased-IsConsistent = record { counted_up = refl; numbered = tt; linked = tt }

commit_poll-IsReported_example : IsReported 1 (at 4001) result leased polled_once
commit_poll-IsReported_example =
    commit_poll-IsReported texts sha digests validate lease batch (at 4001) leased polled_once
      result leased-IsConsistent commit_test

commit_poll_once_example : guard_lease lease (at 4003) polled_once ≡ err lease_lost
commit_poll_once_example =
    commit_poll_once texts sha digests validate lease batch (at 4001) (at 4003) leased polled_once
      result commit_test

abbrev one_round : List Round
one_round = record { stopped = false; expired = false; token = 11; clocks = clocks } ∷ []

abbrev ticked : TickResult
ticked = record { outcome = polled events_ready; poll_result = some result; next_poll_at = at 4901 }

run_test :
    run texts sha digests validate (λ s e n. ok batch) 1 1 60 one_round registered
    ≡ (polled_once, ok (ticked ∷ []))
unfolding run poll_rounds settle_round collect update advance_row poll_outcome event_row
    next_revision plus_seconds minus_seconds floor_to mark_dirty store_version current_of apply_item
    ingest_item ingest_items ingest payload_of latest_event is_new_digest members_of insert_event
    seal_members clear_dirty seal_interval seal_all seal_events get_config register poll_window
    is_leased grant_lease acquire_poll guard_lease commit_transaction commit_poll validate_scope
    validate_pages is_seen in_order validate_identity validate_metadata validate_item validate_items
    validate_batch report settle_commit after_fetch after_acquire tick eq_config eq_specs eq_spec
run_test = refl

run_bounded_example : length (ticked ∷ []) ≤ 1
run_bounded_example =
    run_bounded texts sha digests validate (λ s e n. ok batch) 1 1 60 one_round registered
      (ticked ∷ []) (ap (λ p. p.1) run_test)
