-- ===== src/Dispatch/Admission.antt =====
-- current/dispatch_replay.py: which reviews are due, whether an event deserves a model, and the replay
-- of that decision from what was saved of it.
use watershed_memory.Base.{
  ℕ, Bool, true, false, not, ◌&&◌, ◌||◌, Option, none, some, Result, ok, value_error,
  workflow_conflict, ◌>>=◌, ◌>>◌, raise_if, List, [], ◌∷◌, ◌++◌, all, any, elem, ltb, leb, ◌==◌,
  if◌then◌else◌, eq_option,
}
use watershed_memory.Base.Table.{find}
use watershed_memory.Text.{Texts}
use watershed_memory.Cases.Types.{ReviewRecord}
use watershed_memory.Cases.Records.{CaseDb, is_active}
use watershed_memory.Delivery.Records.{Codec}
use watershed_memory.Dispatch.Types.{
  Reason, late_evidence, initial_review, rank, AttentionPolicy, DueCheck, AttentionResult,
  check_attention,
}
use watershed_memory.Dispatch.Records.{
  Interval, CurrentContext, Replay, Engine, Admission, DueRow, DispatchDb, of_due, check_json,
}

-- Whether the superseded event of the interval is among these.
abbrev supersedes_one : Option ℕ → List ℕ → Bool
supersedes_one none events = false
supersedes_one (some e) events = elem e events

unfoldable pub is_event : Option ℕ → Interval → Bool
is_event none p = false
is_event (some e) p = p.event_id == e

-- A numeric baseline and one of the source's health go together.
abbrev paired : Option CurrentContext → Option CurrentContext → Bool
paired none none = true
paired (some a) (some b) = true
paired _ _ = false

-- A baseline is of the case, of its policy and not later than the context.
unfoldable pub fits_baseline : CurrentContext → Option CurrentContext → Bool
fits_baseline context none = true
fits_baseline context (some b) =
    b.base.case_id == context.base.case_id
    && b.base.policy_digest == context.base.policy_digest
    && b.has_health
    && leb b.base.evaluated_at context.base.evaluated_at

-- The reasons other than INITIAL_REVIEW.
unfoldable pub not_initial : List Reason → List Reason
not_initial [] = []
not_initial (r ∷ rs) =
    let rest = not_initial rs in if rank r == rank initial_review then rest else r ∷ rest

-- Whether the numeric baseline moves on.
unfoldable pub moves_numeric : CurrentContext → Option CurrentContext → Bool
moves_numeric context none = true
moves_numeric context (some basis) =
    leb basis.current.interval_end context.current.interval_start
    || eq_option context.current.supersedes_event_id (some basis.current.event_id)

module _ (texts : Texts) (codec : Codec) (engine : Engine) where
  -- The check of a review that has one and is active.
  abbrev due_of : ReviewRecord → Option ℕ → List DueCheck
  due_of r none = []
  due_of r (some next) =
      if is_active r.status
      then record {
        task_id = r.task_id;
        revision = r.revision;
        next_check_at = next;
        key = engine.due_key r.task_id r.revision next;
      }
        ∷ []
      else []

  -- `due_identities`
  unfoldable pub due_identities : List ReviewRecord → List DueCheck
  due_identities [] = []
  due_identities (r ∷ rs) = due_of r r.next_check_at ++ due_identities rs

  -- The row of one check: it must be of the same check, and counts once it was handled.
  unfoldable pub handled_key : ℕ → DueCheck → Option DueRow → Result (List ℕ)
  handled_key now item none = ok []
  handled_key now item (some row) =
      raise_if
        (not (
          row.task_id == item.task_id
          && row.revision == item.revision
          && row.next_check_at == item.next_check_at))
        workflow_conflict
      >> ok (if leb row.handled_at now then item.key ∷ [] else [])

  -- `handled_keys`, over the due checks.
  unfoldable pub handled_keys : ℕ → ℕ → List DueRow → List DueCheck → Result (List ℕ)
  handled_keys c now due [] = ok []
  handled_keys c now due (item ∷ items) = do
    mine ← handled_key now item (find (of_due c item.key) due)
    rest ← handled_keys c now due items
    ok (mine ++ rest)

  -- Late evidence: an older interval or revision that no numeric comparison reaches.
  unfoldable pub is_late : CurrentContext → Option CurrentContext → Bool
  is_late context none = false
  is_late context (some basis) =
      let now = context.current in
      let linked =
        any (λ (e : ℕ × List ℕ). supersedes_one now.supersedes_event_id e.1)
          context.review_evidence in
      let ancestor = any (is_event now.supersedes_event_id) context.prior in
      let older = leb now.interval_end basis.current.interval_start in
      let superseded =
        now.interval_start == basis.current.interval_start
        && now.interval_end == basis.current.interval_end
        && ltb now.revision basis.current.revision in
      not (basis.current.event_id == now.event_id)
      && not (engine.comparable now basis.current)
      && (older || superseded)
      && not (older && linked && ancestor)

  -- The attention that late evidence gets.
  unfoldable pub late_attention :
      CurrentContext → AttentionPolicy → Option ℕ → List ℕ → Result AttentionResult
  late_attention context policy basis handled = do
    basic ← engine.evaluate context policy none none handled
    let attention : AttentionResult = record {
      eligible = true;
      reasons = late_evidence ∷ not_initial basic.reasons;
      changed_parameters = [];
      due_checks = basic.due_checks;
      policy_digest = policy.policy_digest;
      basis_event_id = basis;
    }
    check_attention texts attention
    ok attention

  abbrev event_of : Option CurrentContext → Option ℕ
  event_of none = none
  event_of (some c) = some c.current.event_id

  -- `evaluate_admission`
  unfoldable pub evaluate_admission :
      CurrentContext
      → AttentionPolicy
      → Option CurrentContext
      → Option CurrentContext
      → List ℕ
      → Result (AttentionResult × Bool)
  evaluate_admission context policy numeric health handled = do
    raise_if (not (paired numeric health)) value_error
    raise_if (not context.has_health) value_error
    raise_if (not (fits_baseline context numeric && fits_baseline context health)) value_error
    attention ←
        (if is_late context numeric
          then late_attention context policy (event_of numeric) handled
          else engine.evaluate context policy numeric health handled)
    ok (attention, moves_numeric context numeric)

  abbrev pub reference_of : Option CurrentContext → Result (Option ℕ)
  reference_of none = ok none
  reference_of (some c) = engine.reference c >>= λ text. ok (some text)

  -- `capture_admission`
  unfoldable pub capture_admission :
      CurrentContext → Option CurrentContext → Option CurrentContext → List ℕ → Bool → Result Replay
  capture_admission context numeric health handled source_delivery = do
    text ← engine.reference context
    numeric_text ← reference_of numeric
    health_text ← reference_of health
    let replay : Replay = record {
      context = text;
      numeric = numeric_text;
      health = health_text;
      handled_due_keys = handled;
      source_delivery = source_delivery;
    }
    check_json codec (engine.replay_json replay) 32768
    ok replay

  -- `_baseline`
  unfoldable pub restored : CaseDb → Option ℕ → Result (Option CurrentContext)
  restored db none = ok none
  restored db (some text) = engine.restore db text >>= λ c. ok (some c)

  -- `restore_admission`
  unfoldable pub restore_admission :
      DispatchDb → Admission → AttentionPolicy → Result (CurrentContext × AttentionResult × Bool)
  restore_admission db saved policy = do
    check_json codec (engine.replay_json saved.replay) 32768
    check_json codec (engine.attention_json saved.attention) 4096
    context ← engine.restore db.journal.work saved.replay.context
    numeric ← restored db.journal.work saved.replay.numeric
    health ← restored db.journal.work saved.replay.health
    known ←
        handled_keys context.base.case_id context.base.evaluated_at db.due
          (due_identities context.reviews)
    raise_if (not (all (λ k. elem k known) saved.replay.handled_due_keys)) workflow_conflict
    (attention, move) ←
        evaluate_admission context policy numeric health saved.replay.handled_due_keys
    raise_if (not (engine.attention_json attention == engine.attention_json saved.attention))
        workflow_conflict
    ok (context, attention, move)
