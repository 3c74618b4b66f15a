-- ===== src/Dispatch/Records.antt =====
-- The tables of current/dispatch_schema.py beside those of the journal, what the dispatcher reads of
-- a context, and the functions that it calls: loading and restoring contexts (current/context.py,
-- current/context_reference.py), comparing intervals (current/facts.py), `evaluate_attention`
-- (current/attention.py) and the encoders. A JSON text is a number.
use watershed_memory.Base.{
  ℕ, Bool, not, ◌&&◌, Option, Result, ok, value_error, ◌>>=◌, raise_if, List, leb, ◌==◌,
}
use watershed_memory.Cases.Types.{ReviewRecord}
use watershed_memory.Cases.Records.{CaseDb}
use watershed_memory.Delivery.Types.{InvocationProfile}
use watershed_memory.Delivery.Records.{Codec, Journal, ContextQuery, Context}
use watershed_memory.Dispatch.Types.{AttentionPolicy, AttentionResult}

-- `IntervalFacts`, of which the dispatcher reads these fields.
pub record Interval : Type 0 where
  pub event_id : ℕ
  pub interval_start : ℕ
  pub interval_end : ℕ
  pub revision : ℕ
  pub supersedes_event_id : Option ℕ

-- `CurrentContext`: what the journal reads of it, and the rest that the dispatcher reads.
pub record CurrentContext : Type 0 where
  pub base : Context
  pub current : Interval
  pub prior : List Interval
  pub reviews : List ReviewRecord
  pub review_evidence : List (ℕ × List ℕ)
  pub has_health : Bool

-- `ContextReference`, of which the dispatcher reads these fields.
pub record ContextReference : Type 0 where
  pub case_id : ℕ
  pub event_id : ℕ
  pub evaluated_at : ℕ

-- What `capture_admission` encodes; a context is the text of its reference.
pub record Replay : Type 0 where
  pub context : ℕ
  pub numeric : Option ℕ
  pub health : Option ℕ
  pub handled_due_keys : List ℕ
  pub source_delivery : Bool

pub record Engine : Type 0 where
  -- `_load_context`
  pub load : CaseDb → ContextQuery → Result CurrentContext
  pub decode_reference : ℕ → Result ContextReference
  -- `restore_context` of `decode_reference`
  pub restore : CaseDb → ℕ → Result CurrentContext
  -- `encode_reference` of `capture_context`
  pub reference : CurrentContext → Result ℕ
  -- `==` of two contexts
  pub same_context : Context → Context → Bool
  -- `compare_intervals(a, b).comparable`
  pub comparable : Interval → Interval → Bool
  -- `evaluate_attention`: the baselines of the numbers and of the health, and the handled keys
  pub evaluate :
      CurrentContext
      → AttentionPolicy
      → Option CurrentContext
      → Option CurrentContext
      → List ℕ
      → Result AttentionResult
  -- The digest of a due check.
  pub due_key : ℕ → ℕ → ℕ → ℕ
  pub policy_json : AttentionPolicy → ℕ
  pub decode_policy : ℕ → Result AttentionPolicy
  pub attention_json : AttentionResult → ℕ
  pub replay_json : Replay → ℕ
  -- `InvocationProfile(**json.loads(text))`
  pub decode_profile : ℕ → Result InvocationProfile
  -- `HEALTH_INSTRUCTION_VERSION`
  pub instructions : ℕ

-- `_load_context` as the journal calls it.
abbrev pub journal_load : Engine → CaseDb → ContextQuery → Result Context
journal_load engine db q = engine.load db q >>= λ c. ok c.base

-- `dispatch_settings`
pub record Setting : Type 0 where
  pub case_id : ℕ
  pub monitor_id : ℕ
  pub policy_json : ℕ
  pub policy_digest : ℕ
  pub profile_json : ℕ
  pub activated_at : ℕ
  pub updated_at : ℕ
  pub initial_event_id : Option ℕ
  pub history_count : ℕ
  pub suppressed_count : ℕ
  pub assessment_count : ℕ
  pub numeric_context : Option ℕ
  pub health_context : Option ℕ
  pub active_attempt_id : Option ℕ

-- `dispatch_attempts`
pub record Admission : Type 0 where
  pub attempt_id : ℕ
  pub case_id : ℕ
  pub replay : Replay
  pub attention : AttentionResult
  pub move_numeric : Bool

pub data OutcomeKind : Type 0 where
  history skipped assessed : OutcomeKind

-- `dispatch_source_outcomes`; the kind `skipped` is SUPPRESSED.
pub record Outcome : Type 0 where
  pub case_id : ℕ
  pub monitor_id : ℕ
  pub event_id : ℕ
  pub kind : OutcomeKind
  pub recorded_at : ℕ
  pub replay : Option Replay
  pub attention : Option AttentionResult
  pub attempt_id : Option ℕ

-- `dispatch_due`
pub record DueRow : Type 0 where
  pub case_id : ℕ
  pub key : ℕ
  pub task_id : ℕ
  pub revision : ℕ
  pub next_check_at : ℕ
  pub handled_at : ℕ
  pub attempt_id : ℕ

-- The database file with the tables of the dispatcher.
pub record DispatchDb : Type 0 where
  pub journal : Journal
  pub settings : List Setting
  pub admissions : List Admission
  pub outcomes : List Outcome
  pub due : List DueRow

abbrev pub of_setting : ℕ → Setting → Bool
of_setting c row = row.case_id == c

abbrev pub of_admission : ℕ → Admission → Bool
of_admission a row = row.attempt_id == a

abbrev pub of_outcome : ℕ → ℕ → Outcome → Bool
of_outcome c e row = row.case_id == c && row.event_id == e

abbrev pub of_due : ℕ → ℕ → DueRow → Bool
of_due c k row = row.case_id == c && row.key == k

-- `_canonical_json` with its bound.
unfoldable pub check_json : Codec → ℕ → ℕ → Result (Unit {0})
check_json codec text limit =
    raise_if (not (codec.canonical text && leb (codec.bytes text) limit)) value_error
