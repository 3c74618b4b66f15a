-- ===== src/Delivery/Reserve.antt =====
-- `DeliveryStore.reserve` of current/delivery_store.py: an attempt is charged to the allowance and
-- saved before a model is invoked.
use watershed_memory.Base.{
  ℕ, suc, Bool, true, false, not, ◌&&◌, ◌||◌, Option, none, some, is_some, Result, ok, err,
  value_error, workflow_conflict, integrity_error, delivery_held, allowance_exceeded, ◌>>=◌, ◌>>◌,
  raise_if, List, [], ◌∷◌, ◌++◌, length, all, elem, ltb, ◌==◌, if◌then◌else◌,
}
use watershed_memory.Base.Table.{find}
use watershed_memory.Text.{Texts, is_digest}
use watershed_memory.Cases.Types.{check_identifier}
use watershed_memory.Cases.Records.{CaseDb}
use watershed_memory.Cases.Policies.{is_distinct}
use watershed_memory.Delivery.Types.{
  Mode, scripted_sdk, strands_current, reserved, committed, failed, stale, abandoned,
  InvocationProfile, DeliveryReceipt, is_attempt, eq_mode,
}
use watershed_memory.Delivery.Records.{
  DeliveryRequest, Codec, Allowance, AttemptRow, Journal, ContextQuery, Context, of_attempt,
  of_delivery, is_held, of_outbox, check_bytes, read_receipt,
}

-- `DeliveryReservation`
pub record Reservation : Type 0 where
  pub attempt_id : ℕ
  pub request_id : ℕ
  pub profile : InvocationProfile
  pub source_delivery : Bool
  pub context : Context
  pub reserved_at : ℕ

-- What `reserve` returns.
pub data Reserved : Type 0 where
  fresh : Reservation → Reserved
  replayed : DeliveryReceipt → Reserved

-- The UPDATE of `delivery_allowance`, which succeeds while the mode has attempts left.
unfoldable pub charge : Mode → Allowance → Result Allowance
charge scripted_sdk a =
    if ltb a.scripted_used a.scripted_limit
    then ok (record a { scripted_used = suc a.scripted_used })
    else err allowance_exceeded
charge strands_current a =
    if ltb a.provider_used a.provider_limit
    then ok (record a { provider_used = suc a.provider_used })
    else err allowance_exceeded

-- The checks on the reserved prior events.
unfoldable pub check_prior : Texts → ℕ → Option (List ℕ) → Result (Unit {0})
check_prior texts event none = ok tt
check_prior texts event (some ids) =
    raise_if (ltb 3 (length ids)) value_error
    >> raise_if (not (all (λ i. is_digest (texts.chars i)) ids)) value_error
    >> raise_if (elem event ids || not (is_distinct ids)) value_error

-- The event must still wait for its delivery by this very case.
unfoldable pub check_source : Bool → ℕ → ℕ → Context → CaseDb → Result (Unit {0})
check_source false c event context db = ok tt
check_source true c event context db =
    raise_if (not (context.source_case_id == c)) value_error
    >> raise_if (not (is_some (find (of_outbox event context.monitor_id) db.watch.ledger.outbox)))
        workflow_conflict

abbrev pub reserved_row : Codec → ℕ → ℕ → ℕ → DeliveryRequest → Context → ℕ → AttemptRow
reserved_row codec attempt c request input context now = record {
  attempt_id = attempt;
  case_id = c;
  monitor_id = context.monitor_id;
  event_id = input.event_id;
  request_id = request;
  input = input;
  input_hash = codec.sha (codec.request input);
  profile = input.profile;
  source_delivery = input.source_delivery;
  status = reserved;
  case_revision = context.case_revision;
  coverage_digest = context.policy_digest;
  context_digest = codec.sha context.json;
  prior_ids = context.prior_ids;
  review_refs = context.review_refs;
  evaluated_at = now;
  finished_at = none;
  execution_json = none;
  failure_json = none;
  work = [];
  reason = none;
  health_versions = if input.include_source_health then some context.health_versions else none;
}

-- INSERT INTO delivery_attempts, whose key is the attempt's id.
unfoldable pub insert_attempt : AttemptRow → Journal → Result Journal
insert_attempt row j =
    if is_some (find (of_attempt row.attempt_id) j.attempts)
    then err integrity_error
    else ok (record j { attempts = j.attempts ++ row ∷ [] })

module _ (texts : Texts) (codec : Codec) (load : CaseDb → ContextQuery → Result Context) where
  -- The checks of the arguments.
  unfoldable pub check_request : ℕ → ℕ → DeliveryRequest → Result (Unit {0})
  check_request c request input =
      check_identifier texts c
      >> check_identifier texts request
      >> raise_if (not (is_digest (texts.chars input.event_id))) value_error
      >> check_bytes texts codec (codec.profile input.profile) 2048
      >> check_prior texts input.event_id input.prior_event_ids
      >> check_bytes texts codec (codec.request input) 4096

  -- The answer to a request that was seen before.
  unfoldable pub answer_request :
      AttemptRow → DeliveryRequest → Journal → Result (Journal × Reserved)
  answer_request row input j =
      raise_if
        (not (
          row.input_hash == codec.sha (codec.request input)
          && codec.request row.input == codec.request input))
        workflow_conflict
      >> elim row.status [
        | committed ↦ read_receipt texts codec row >>= λ r. ok (j, replayed r)
        | reserved ↦ err delivery_held
        | failed ↦ err delivery_held
        | stale ↦ err delivery_held
        | abandoned ↦ err delivery_held
      ]

  -- `DeliveryReservation.__post_init__`
  unfoldable pub check_reservation : Reservation → Result (Unit {0})
  check_reservation r =
      raise_if (not (is_attempt (texts.chars r.attempt_id))) value_error
      >> check_identifier texts r.request_id
      >> raise_if (not (r.reserved_at == r.context.evaluated_at)) value_error

  -- The bound on the versions of the source's health that go with the attempt.
  unfoldable pub check_health : Bool → Context → Result (Unit {0})
  check_health false context = ok tt
  check_health true context = check_bytes texts codec (codec.versions context.health_versions) 512

  -- `_reserve` for a new request; `attempt` is the fresh id.
  unfoldable pub reserve_new :
      ℕ → ℕ → ℕ → DeliveryRequest → ℕ → Journal → Result (Journal × Reserved)
  reserve_new attempt c request input now j = do
    raise_if (is_some (find (is_held c) j.attempts)) delivery_held
    context ← load j.work (record {
      case_id = c;
      event_id = input.event_id;
      evaluated_at = now;
      include_source_health = input.include_source_health;
      prior_event_ids = input.prior_event_ids;
      review_refs = none;
      reserved_revision = none;
      source_version_ids = none;
    })
    raise_if (eq_mode input.profile.mode scripted_sdk && not context.simulated) value_error
    check_source input.source_delivery c input.event_id context j.work
    allowance ← charge input.profile.mode j.allowance
    check_bytes texts codec (codec.refs context.review_refs) 4096
    inserted ← insert_attempt (reserved_row codec attempt c request input context now) j
    check_health input.include_source_health context
    let reservation : Reservation = record {
      attempt_id = attempt;
      request_id = request;
      profile = input.profile;
      source_delivery = input.source_delivery;
      context = context;
      reserved_at = now;
    }
    check_reservation reservation
    ok (record inserted { allowance = allowance }, fresh reservation)

  -- `reserve`
  unfoldable pub reserve : ℕ → ℕ → ℕ → DeliveryRequest → ℕ → Journal → Result (Journal × Reserved)
  reserve attempt c request input now j =
      check_request c request input >> elim (find (of_delivery c request) j.attempts) [
        | some row ↦ answer_request row input j
        | none ↦ reserve_new attempt c request input now j
      ]
