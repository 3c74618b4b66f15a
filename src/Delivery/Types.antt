-- ===== src/Delivery/Types.antt =====
-- The records of current/delivery_types.py, the decisions of current/assessment_types.py and the
-- results of current/strands.py, with the checks of their constructors.
use watershed_memory.Base.{
  ℕ, Bool, true, false, not, ◌&&◌, ◌||◌, Option, none, some, is_some, Result, ok, value_error, ◌>>◌,
  raise_if, List, [], ◌∷◌, length, all, leb, ◌==◌,
}
use watershed_memory.Text.{Texts, is_digest}
use watershed_memory.Cases.Types.{Kind, ReviewRecord, check_identifier, check_text}
use watershed_memory.Cases.Records.{eq_kind}

pub data Mode : Type 0 where
  scripted_sdk strands_current : Mode

unfoldable pub eq_mode : Mode → Mode → Bool
eq_mode scripted_sdk scripted_sdk = true
eq_mode strands_current strands_current = true
eq_mode _ _ = false

-- `_STATUSES`
pub data AttemptStatus : Type 0 where
  reserved committed failed stale abandoned : AttemptStatus

-- `InvocationAllowance`
pub record InvocationAllowance : Type 0 where
  pub scripted_attempts : ℕ
  pub provider_attempts : ℕ

unfoldable pub check_allowance : InvocationAllowance → Result (Unit {0})
check_allowance a =
    raise_if (not (leb a.scripted_attempts 10000 && leb a.provider_attempts 10000)) value_error

-- `InvocationProfile`
pub record InvocationProfile : Type 0 where
  pub mode : Mode
  pub model_id : ℕ
  pub instruction_version : ℕ
  pub sdk_version : ℕ

pub data Disposition : Type 0 where
  no_follow_up propose_review continue_existing_review : Disposition

-- `ReviewDecision`
pub record ReviewDecision : Type 0 where
  pub disposition : Disposition
  pub kind : Option Kind
  pub event_id : ℕ
  pub target_task_id : Option ℕ
  pub title : Option ℕ
  pub reason : ℕ
  pub next_check_at : Option ℕ
  pub reference_ids : List ℕ

-- `ToolReceipt`
pub record ToolReceipt : Type 0 where
  pub name : ℕ
  pub input_json : ℕ
  pub output_json : ℕ

-- `CurrentAssessment`
pub record CurrentAssessment : Type 0 where
  pub case_id : ℕ
  pub case_revision : ℕ
  pub policy_digest : ℕ
  pub event_id : ℕ
  pub decisions : List ReviewDecision
  pub trace : List ToolReceipt

-- `CurrentExecution`; the elapsed time is a text, which is stored and never computed with.
pub record CurrentExecution : Type 0 where
  pub assessment : CurrentAssessment
  pub profile : InvocationProfile
  pub model_calls : ℕ
  pub tool_attempts : ℕ
  pub elapsed_seconds : ℕ
  pub usage_json : ℕ

-- `CurrentFailure`
pub record CurrentFailure : Type 0 where
  pub case_id : ℕ
  pub case_revision : ℕ
  pub policy_digest : ℕ
  pub event_id : ℕ
  pub profile : InvocationProfile
  pub model_calls : ℕ
  pub tool_attempts : ℕ
  pub trace : List ToolReceipt
  pub usage_json : ℕ

-- `DeliveryReceipt`
pub record DeliveryReceipt : Type 0 where
  pub attempt_id : ℕ
  pub request_id : ℕ
  pub case_id : ℕ
  pub event_id : ℕ
  pub profile : InvocationProfile
  pub status : AttemptStatus
  pub source_delivery : Bool
  pub recorded_at : ℕ
  pub work : List ReviewRecord
  pub execution_json : Option ℕ
  pub failure_json : Option ℕ
  pub reason : Option ℕ

unfoldable pub is_hex : ℕ → Bool
is_hex c = leb b'0' c && leb c b'9' || leb b'a' c && leb c b'f'

-- `attempt-[0-9a-f]{32}`
unfoldable pub is_attempt : List ℕ → Bool
is_attempt (a ∷ b ∷ c ∷ d ∷ e ∷ f ∷ g ∷ h ∷ rest) =
    a == b'a'
    && b == b't'
    && c == b't'
    && d == b'e'
    && e == b'm'
    && f == b'p'
    && g == b't'
    && h == b'-'
    && length rest == 32
    && all is_hex rest
is_attempt _ = false

unfoldable pub is_nil {ℓ} : {A : Type ℓ} → List A → Bool
is_nil [] = true
is_nil (_ ∷ _) = false

-- `len(self.work) <= 2`, with different tasks and kinds, all of the case.
unfoldable pub is_work_of : ℕ → List ReviewRecord → Bool
is_work_of c [] = true
is_work_of c (a ∷ []) = a.case_id == c
is_work_of c (a ∷ b ∷ []) =
    not (a.task_id == b.task_id) && not (eq_kind a.kind b.kind) && a.case_id == c && b.case_id == c
is_work_of c _ = false

-- Which fields go with which status.
unfoldable pub fits_status : DeliveryReceipt → AttemptStatus → Bool
fits_status r reserved =
    is_nil r.work
    && not (is_some r.execution_json)
    && not (is_some r.failure_json)
    && not (is_some r.reason)
fits_status r committed =
    is_some r.execution_json && not (is_some r.failure_json) && not (is_some r.reason)
fits_status r failed =
    is_some r.failure_json
    && not (is_some r.execution_json)
    && is_nil r.work
    && not (is_some r.reason)
fits_status r stale =
    is_some r.execution_json
    && not (is_some r.failure_json)
    && is_nil r.work
    && not (is_some r.reason)
fits_status r abandoned = is_some r.reason && is_nil r.work

module _ (texts : Texts) where
  -- `InvocationProfile.__post_init__`
  unfoldable pub check_profile : InvocationProfile → Result (Unit {0})
  check_profile p =
      check_text texts p.model_id 1 200
      >> check_text texts p.instruction_version 1 200
      >> check_text texts p.sdk_version 1 200

  abbrev check_reason : Option ℕ → Result (Unit {0})
  check_reason none = ok tt
  check_reason (some reason) = check_text texts reason 8 700

  abbrev check_canonical : (ℕ → Bool) → Option ℕ → Result (Unit {0})
  check_canonical canonical none = ok tt
  check_canonical canonical (some text) = raise_if (not (canonical text)) value_error

  -- `DeliveryReceipt.__post_init__`; `canonical` is `_canonical_json` with its bound.
  unfoldable pub check_receipt : (ℕ → Bool) → DeliveryReceipt → Result (Unit {0})
  check_receipt canonical r =
      raise_if (not (is_attempt (texts.chars r.attempt_id))) value_error
      >> check_identifier texts r.request_id
      >> check_identifier texts r.case_id
      >> raise_if (not (is_digest (texts.chars r.event_id))) value_error
      >> raise_if (not (is_work_of r.case_id r.work)) value_error
      >> check_canonical canonical r.execution_json
      >> check_canonical canonical r.failure_json
      >> check_reason r.reason
      >> raise_if (not (fits_status r r.status)) value_error
