-- ===== src/Dispatch/Types.antt =====
-- The results of current/attention.py and the steps of current/dispatch_types.py, with the checks of
-- their constructors.
use watershed_memory.Base.{
  ℕ, Bool, true, false, not, ◌&&◌, ◌||◌, Option, none, some, is_some, Result, ok, value_error, ◌>>◌,
  raise_if, List, [], ◌∷◌, length, all, map, ltb, ◌==◌,
}
use watershed_memory.Text.{Texts, is_digest, is_parameter_code, text_lt}
use watershed_memory.Cases.Types.{check_identifier}
use watershed_memory.Cases.Policies.{is_distinct}
use watershed_memory.Delivery.Types.{is_attempt, is_nil}
use watershed_memory.Delivery.Reserve.{Reservation}

-- `_REASONS`, in their order.
pub data Reason : Type 0 where
  initial_review late_evidence coverage_changed source_correction material_change check_due : Reason

unfoldable pub rank : Reason → ℕ
rank initial_review = 0
rank late_evidence = 1
rank coverage_changed = 2
rank source_correction = 3
rank material_change = 4
rank check_due = 5

-- `AttentionRule` and `AttentionPolicy`, of which the dispatcher reads these fields.
pub record AttentionRule : Type 0 where
  pub parameter_code : ℕ
  pub unit : ℕ

pub record AttentionPolicy : Type 0 where
  pub policy_id : ℕ
  pub rules : List AttentionRule
  pub policy_digest : ℕ

-- `DueCheck`; the key is the digest of the other fields.
pub record DueCheck : Type 0 where
  pub task_id : ℕ
  pub revision : ℕ
  pub next_check_at : ℕ
  pub key : ℕ

-- `AttentionResult`
pub record AttentionResult : Type 0 where
  pub eligible : Bool
  pub reasons : List Reason
  pub changed_parameters : List ℕ
  pub due_checks : List DueCheck
  pub policy_digest : ℕ
  pub basis_event_id : Option ℕ

-- The reasons stand in the order of `_REASONS`, each once.
unfoldable pub is_ordered : List Reason → Bool
is_ordered [] = true
is_ordered (_ ∷ []) = true
is_ordered (a ∷ b ∷ rest) = ltb (rank a) (rank b) && is_ordered (b ∷ rest)

unfoldable pub has_reason : Reason → List Reason → Bool
has_reason r [] = false
has_reason r (x ∷ xs) = rank r == rank x || has_reason r xs

abbrev iff : Bool → Bool → Bool
iff true b = b
iff false b = not b

unfoldable pub check_event : Texts → Option ℕ → Result (Unit {0})
check_event texts none = ok tt
check_event texts (some e) = raise_if (not (is_digest (texts.chars e))) value_error

module _ (texts : Texts) where
  -- `tuple(sorted(set(xs))) == xs`
  unfoldable pub is_sorted : List ℕ → Bool
  is_sorted [] = true
  is_sorted (_ ∷ []) = true
  is_sorted (a ∷ b ∷ rest) = text_lt (texts.chars a) (texts.chars b) && is_sorted (b ∷ rest)

  -- `AttentionResult.__post_init__`
  unfoldable pub check_attention : AttentionResult → Result (Unit {0})
  check_attention a =
      raise_if (not (is_ordered a.reasons)) value_error
      >> raise_if (not (all (λ p. is_parameter_code (texts.chars p)) a.changed_parameters))
          value_error
      >> raise_if (ltb 16 (length a.changed_parameters) || not (is_sorted a.changed_parameters))
          value_error
      >> raise_if
          (not (iff (has_reason material_change a.reasons) (not (is_nil a.changed_parameters))))
          value_error
      >> raise_if (ltb 3 (length a.due_checks)) value_error
      >> raise_if
          (not (
            is_distinct (map (λ (d : DueCheck). d.key) a.due_checks)
            && is_distinct (map (λ (d : DueCheck). d.task_id) a.due_checks)))
          value_error
      >> raise_if (not (iff (has_reason check_due a.reasons) (not (is_nil a.due_checks))))
          value_error
      >> raise_if (not (iff a.eligible (not (is_nil a.reasons)))) value_error
      >> raise_if (not (is_digest (texts.chars a.policy_digest))) value_error
      >> check_event texts a.basis_event_id

-- `_STATUSES` of a step.
pub data StepStatus : Type 0 where
  waiting_for_source quiet suppressed step_reserved held : StepStatus

-- `DispatchStep`; a reservation comes with the event of its context.
pub record DispatchStep : Type 0 where
  pub case_id : ℕ
  pub status : StepStatus
  pub event_id : Option ℕ
  pub attention : Option AttentionResult
  pub reservation : Option (Reservation × ℕ)
  pub held_attempt_id : Option ℕ

unfoldable pub is_eligible : Option AttentionResult → Bool
is_eligible none = false
is_eligible (some a) = a.eligible

-- A reservation is of the case and of the event of the step.
unfoldable pub is_of_step : ℕ → Option ℕ → Option (Reservation × ℕ) → Bool
is_of_step c (some e) (some (r, event)) = r.context.case_id == c && event == e
is_of_step c _ _ = false

-- Which fields go with which status.
unfoldable pub fits_step : DispatchStep → StepStatus → Bool
fits_step s waiting_for_source =
    not (is_some s.event_id)
    && not (is_some s.attention)
    && not (is_some s.reservation)
    && not (is_some s.held_attempt_id)
fits_step s quiet =
    is_some s.event_id
    && is_some s.attention
    && not (is_eligible s.attention)
    && not (is_some s.reservation)
    && not (is_some s.held_attempt_id)
fits_step s suppressed =
    is_some s.event_id
    && is_some s.attention
    && not (is_eligible s.attention)
    && not (is_some s.reservation)
    && not (is_some s.held_attempt_id)
fits_step s step_reserved =
    is_eligible s.attention
    && is_of_step s.case_id s.event_id s.reservation
    && not (is_some s.held_attempt_id)
fits_step s held =
    not (is_some s.reservation) && not (is_some s.attention) && is_some s.held_attempt_id

unfoldable pub check_attempt_id : Texts → Option ℕ → Result (Unit {0})
check_attempt_id texts none = ok tt
check_attempt_id texts (some a) = raise_if (not (is_attempt (texts.chars a))) value_error

-- `DispatchStep.__post_init__`
unfoldable pub check_step : Texts → DispatchStep → Result DispatchStep
check_step texts s =
    check_identifier texts s.case_id
    >> check_event texts s.event_id
    >> check_attempt_id texts s.held_attempt_id
    >> raise_if (not (fits_step s s.status)) value_error
    >> ok s
