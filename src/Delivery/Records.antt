-- ===== src/Delivery/Records.antt =====
-- The tables of current/delivery_schema.py and what the operations of current/delivery_store.py
-- share. A JSON text is a number; `Codec` has the encoders and sha256. `_load_context` of
-- current/context.py and `validate_assessment` of current/tools.py are arguments of the operations.
use watershed_memory.Base.{
  ℕ, ◌-◌, Bool, true, false, not, ◌&&◌, Option, none, some, Result, ok, value_error, key_error,
  workflow_conflict, ◌>>=◌, ◌>>◌, raise_if, or_raise, List, [], ◌∷◌, ltb, leb, ◌==◌,
}
use watershed_memory.Base.Table.{find, update, count}
use watershed_memory.Text.{Texts}
use watershed_memory.Watch.Records.{MonitorRow}
use watershed_memory.Watch.Tables.{OutboxRow, Db}
use watershed_memory.Watch.Store.{of_id}
use watershed_memory.Cases.Types.{ReviewRecord, check_record}
use watershed_memory.Cases.Records.{CaseRow, CaseDb, case_row, check_time}
use watershed_memory.Delivery.Types.{
  AttemptStatus, reserved, committed, failed, stale, abandoned, InvocationProfile, CurrentExecution,
  CurrentFailure, DeliveryReceipt, is_attempt, check_receipt, check_profile,
}

-- The input of a request, as `_reserve` encodes it.
pub record DeliveryRequest : Type 0 where
  pub event_id : ℕ
  pub profile : InvocationProfile
  pub source_delivery : Bool
  pub include_source_health : Bool
  pub prior_event_ids : Option (List ℕ)

-- A review of a context: its task, its revision and its evidence.
abbrev pub ReviewRef : Type 0
ReviewRef = ℕ × ℕ × List ℕ

pub record Codec : Type 0 where
  pub execution : CurrentExecution → ℕ
  pub failure : CurrentFailure → ℕ
  pub request : DeliveryRequest → ℕ
  pub profile : InvocationProfile → ℕ
  pub refs : List ReviewRef → ℕ
  pub versions : List (Option ℕ) → ℕ
  pub work : List ReviewRecord → ℕ
  pub sha : ℕ → ℕ
  -- The number of bytes of a text in UTF-8.
  pub bytes : ℕ → ℕ
  -- `_canonical_json`, but for its bound on the bytes.
  pub canonical : ℕ → Bool
  -- `f"{attempt_id}-{index}"`
  pub numbered : ℕ → ℕ → ℕ

-- `delivery_allowance`, and the snapshot that `allowance` returns.
pub record Allowance : Type 0 where
  pub scripted_limit : ℕ
  pub scripted_used : ℕ
  pub provider_limit : ℕ
  pub provider_used : ℕ

-- `delivery_attempts`, with the row of `health_attempts` that goes with an attempt.
pub record AttemptRow : Type 0 where
  pub attempt_id : ℕ
  pub case_id : ℕ
  pub monitor_id : ℕ
  pub event_id : ℕ
  pub request_id : ℕ
  pub input : DeliveryRequest
  pub input_hash : ℕ
  pub profile : InvocationProfile
  pub source_delivery : Bool
  pub status : AttemptStatus
  pub case_revision : ℕ
  pub coverage_digest : ℕ
  pub context_digest : ℕ
  pub prior_ids : List ℕ
  pub review_refs : List ReviewRef
  pub evaluated_at : ℕ
  pub finished_at : Option ℕ
  pub execution_json : Option ℕ
  pub failure_json : Option ℕ
  pub work : List ReviewRecord
  pub reason : Option ℕ
  pub health_versions : Option (List (Option ℕ))

-- The database file with the journal.
pub record Journal : Type 0 where
  pub work : CaseDb
  pub allowance : Allowance
  pub attempts : List AttemptRow

-- What `_load_context` is asked, and of its answer what the journal uses.
pub record ContextQuery : Type 0 where
  pub case_id : ℕ
  pub event_id : ℕ
  pub evaluated_at : ℕ
  pub include_source_health : Bool
  pub prior_event_ids : Option (List ℕ)
  pub review_refs : Option (List ReviewRef)
  pub reserved_revision : Option ℕ
  pub source_version_ids : Option (List (Option ℕ))

pub record Context : Type 0 where
  pub case_id : ℕ
  pub case_revision : ℕ
  pub policy_digest : ℕ
  pub simulated : Bool
  pub evaluated_at : ℕ
  pub source_case_id : ℕ
  pub monitor_id : ℕ
  pub prior_ids : List ℕ
  pub review_refs : List ReviewRef
  pub health_versions : List (Option ℕ)
  -- The text of the context as JSON.
  pub json : ℕ

abbrev pub of_attempt : ℕ → AttemptRow → Bool
of_attempt a row = row.attempt_id == a

abbrev pub of_delivery : ℕ → ℕ → AttemptRow → Bool
of_delivery c request row = row.case_id == c && row.request_id == request

-- `status IN ('RESERVED','FAILED','STALE')`
unfoldable pub is_unresolved : AttemptStatus → Bool
is_unresolved reserved = true
is_unresolved failed = true
is_unresolved stale = true
is_unresolved committed = false
is_unresolved abandoned = false

abbrev pub is_held : ℕ → AttemptRow → Bool
is_held c row = row.case_id == c && is_unresolved row.status

unfoldable pub finished_or : AttemptRow → Option ℕ → ℕ
finished_or row none = row.evaluated_at
finished_or row (some t) = t

-- `raw["finished_at"] or raw["evaluated_at"]`
abbrev pub saved_at : AttemptRow → ℕ
saved_at row = finished_or row row.finished_at

unfoldable pub check_records : Texts → List ReviewRecord → Result (Unit {0})
check_records texts [] = ok tt
check_records texts (r ∷ rest) = check_record texts r >> check_records texts rest

abbrev pub receipt_of : AttemptRow → DeliveryReceipt
receipt_of row = record {
  attempt_id = row.attempt_id;
  request_id = row.request_id;
  case_id = row.case_id;
  event_id = row.event_id;
  profile = row.profile;
  status = row.status;
  source_delivery = row.source_delivery;
  recorded_at = saved_at row;
  work = row.work;
  execution_json = row.execution_json;
  failure_json = row.failure_json;
  reason = row.reason;
}

module _ (texts : Texts) (codec : Codec) where
  -- `_encoded`
  unfoldable pub check_bytes : ℕ → ℕ → Result (Unit {0})
  check_bytes text limit = raise_if (ltb limit (codec.bytes text)) value_error

  -- `_receipt`
  unfoldable pub read_receipt : AttemptRow → Result DeliveryReceipt
  read_receipt row =
      check_profile texts row.profile
      >> check_records texts row.work
      >> check_receipt texts (λ t. codec.canonical t && leb (codec.bytes t) 524288) (receipt_of row)
      >> ok (receipt_of row)

  -- `_attempt`
  unfoldable pub attempt_row : Journal → ℕ → Result AttemptRow
  attempt_row j a =
      raise_if (not (is_attempt (texts.chars a))) value_error
      >> or_raise (find (of_attempt a) j.attempts) key_error

-- `_time`
unfoldable pub check_delivery_time : Journal → AttemptRow → ℕ → Result CaseRow
check_delivery_time j row now = do
  raise_if (ltb now (saved_at row)) value_error
  case ← case_row j.work row.case_id
  check_time case now
  ok case

-- `_identity`: the profile, the case, its revision, the policy and the event of a result.
unfoldable pub check_identity :
    Codec → AttemptRow → InvocationProfile → ℕ → ℕ → ℕ → ℕ → Result (Unit {0})
check_identity codec row profile c revision policy event =
    raise_if (not (codec.profile profile == codec.profile row.profile)) value_error
    >> raise_if
        (not (
          c == row.case_id
          && revision == row.case_revision
          && policy == row.coverage_digest
          && event == row.event_id))
        value_error

abbrev pub of_outbox : ℕ → ℕ → OutboxRow → Bool
of_outbox event m row = row.event_id == event && row.monitor_id == m && row.pending

abbrev pub delivered : OutboxRow → OutboxRow
delivered row = record row { pending = false }

abbrev pub one_less : MonitorRow → MonitorRow
one_less row = record row { pending_count = row.pending_count - 1 }

abbrev pub has_pending : ℕ → MonitorRow → Bool
has_pending m row = of_id m row && ltb 0 row.pending_count

-- `_acknowledge`: the event leaves the outbox, and the monitor's counter goes down by one.
unfoldable pub acknowledge : ℕ → ℕ → Db → Result Db
acknowledge m event db = do
  raise_if (not (count (of_outbox event m) db.ledger.outbox == 1)) workflow_conflict
  raise_if (not (count (has_pending m) db.monitors == 1)) workflow_conflict
  ok (record db {
    monitors = update (has_pending m) one_less db.monitors;
    ledger = record (db.ledger) { outbox = update (of_outbox event m) delivered db.ledger.outbox };
  })

-- `UPDATE delivery_attempts … WHERE attempt_id=?`
unfoldable pub finish_attempt : ℕ → (AttemptRow → AttemptRow) → Journal → Journal
finish_attempt a f j = record j { attempts = update (of_attempt a) f j.attempts }
