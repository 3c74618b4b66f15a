-- ===== src/Dispatch/Prepare.antt =====
-- `DispatchStore.prepare` of current/dispatch_store.py: the next event of the outbox is suppressed, or
-- reserved for a model; the first one makes the older events history.
use watershed_memory.Base.{
  ℕ, Bool, true, false, not, Option, none, some, is_some, Result, ok, err, value_error,
  workflow_conflict, ◌>>=◌, ◌>>◌, raise_if, or_raise, map, ltb, ◌==◌, if◌then◌else◌,
}
use watershed_memory.Base.Table.{find}
use watershed_memory.Text.{Texts}
use watershed_memory.Cases.Records.{CaseDb, case_row, check_time}
use watershed_memory.Delivery.Types.{InvocationProfile}
use watershed_memory.Delivery.Records.{DeliveryRequest, Codec, is_held}
use watershed_memory.Delivery.Reserve.{Reserved, fresh, replayed, reserve}
use watershed_memory.Dispatch.Types.{
  AttentionPolicy, AttentionResult, waiting_for_source, quiet, suppressed, step_reserved, held,
  DispatchStep, check_step,
}
use watershed_memory.Dispatch.Records.{
  Interval, CurrentContext, Replay, Engine, journal_load, Setting, DispatchDb,
}
use watershed_memory.Dispatch.Admission.{
  due_identities, handled_keys, evaluate_admission, capture_admission, restored,
}
use watershed_memory.Dispatch.Settings.{settings_of, dispatch_status}
use watershed_memory.Dispatch.Queue.{
  Place, add_admission, add_outcome, bootstrap, context_query, evidence_ids, last_event, next_event,
  one_suppressed, reserved_for, set_setting, step_of, suppressed_outcome, take_event,
}

module _ (texts : Texts) (codec : Codec) (engine : Engine) where
  -- The context, with the evidence behind accumulated attention where it is comparable.
  unfoldable pub widen :
      ℕ → ℕ → ℕ → CaseDb → CurrentContext → Option CurrentContext → Result CurrentContext
  widen c e now db context none = ok context
  widen c e now db context (some numeric) =
      if engine.comparable context.current numeric.current
      then engine.load db (context_query c e now (some (evidence_ids context numeric)))
      else ok context

  -- An event that does not deserve a model: one of the outbox is suppressed.
  unfoldable pub suppress :
      Setting → ℕ → Bool → ℕ → Replay → AttentionResult → DispatchDb → Result DispatchDb
  suppress s e false now replay attention db = ok db
  suppress s e true now replay attention db = do
    noted ← add_outcome (suppressed_outcome s e now replay attention) db
    taken ← take_event s.monitor_id e noted
    ok (set_setting s.case_id (one_suppressed now) taken)

  -- What `prepare` does with the answer of the journal; only a new reservation is accepted.
  unfoldable pub accept :
      Reserved
      → Setting
      → CurrentContext
      → ℕ
      → ℕ
      → Replay
      → AttentionResult
      → Bool
      → DispatchDb
      → Result (DispatchDb × DispatchStep)
  accept (replayed receipt) s context e now replay attention move db = err workflow_conflict
  accept (fresh r) s context e now replay attention move db = do
    raise_if (not (engine.same_context r.context context.base)) workflow_conflict
    admitted ←
        add_admission
          (record {
            attempt_id = r.attempt_id;
            case_id = s.case_id;
            replay = replay;
            attention = attention;
            move_numeric = move;
          })
          db
    step ← check_step texts (record {
      case_id = s.case_id;
      status = step_reserved;
      event_id = some e;
      attention = some attention;
      reservation = some (r, context.current.event_id);
      held_attempt_id = none;
    })
    ok (set_setting s.case_id (reserved_for r.attempt_id now) admitted, step)

  abbrev request_of : InvocationProfile → CurrentContext → ℕ → Bool → DeliveryRequest
  request_of profile context e source_delivery = record {
    event_id = e;
    profile = profile;
    source_delivery = source_delivery;
    include_source_health = true;
    prior_event_ids = some (map (λ (p : Interval). p.event_id) context.prior);
  }

  -- An event is reserved for a model when it is eligible, and suppressed otherwise.
  unfoldable pub settle_event :
      Bool
      → ℕ
      → ℕ
      → Setting
      → InvocationProfile
      → CurrentContext
      → ℕ
      → Bool
      → ℕ
      → Replay
      → AttentionResult
      → Bool
      → DispatchDb
      → Result (DispatchDb × DispatchStep)
  settle_event true attempt request s profile context e source_delivery now replay attention move
        db =
      do
        (journal, answer) ←
            reserve texts codec (journal_load engine) attempt s.case_id request
              (request_of profile context e source_delivery) now db.journal
        accept answer s context e now replay attention move (record db { journal = journal })
  settle_event false attempt request s profile context e source_delivery now replay attention move
        db =
      do
        done ← suppress s e source_delivery now replay attention db
        step ← check_step texts (record {
          case_id = s.case_id;
          status = if source_delivery then suppressed else quiet;
          event_id = some e;
          attention = some attention;
          reservation = none;
          held_attempt_id = none;
        })
        ok (done, step)

  -- The decision on a selected event.
  unfoldable pub decide :
      ℕ
      → ℕ
      → Setting
      → AttentionPolicy
      → InvocationProfile
      → Place
      → Bool
      → ℕ
      → CurrentContext
      → DispatchDb
      → Result (DispatchDb × DispatchStep)
  decide attempt request s policy profile event source_delivery now first db = do
    numeric ← restored texts codec engine db.journal.work s.numeric_context
    health ← restored texts codec engine db.journal.work s.health_context
    context ← widen s.case_id event.event_id now db.journal.work first numeric
    handled ←
        handled_keys texts codec engine context.base.case_id context.base.evaluated_at db.due
          (due_identities texts codec engine context.reviews)
    (attention, move) ← evaluate_admission texts codec engine context policy numeric health handled
    replay ← capture_admission texts codec engine context numeric health handled source_delivery
    settle_event attention.eligible attempt request s profile context event.event_id source_delivery
        now replay attention move db

  -- `prepare` for a selected event: the context is loaded, and the first event ends the history.
  unfoldable pub prepare_event :
      ℕ
      → ℕ
      → Setting
      → AttentionPolicy
      → InvocationProfile
      → Place
      → Bool
      → ℕ
      → DispatchDb
      → Result (DispatchDb × DispatchStep)
  prepare_event attempt request s policy profile event source_delivery now db = do
    context ← engine.load db.journal.work (context_query s.case_id event.event_id now none)
    started ← (if is_some s.initial_event_id then ok db else bootstrap s event now db)
    decide attempt request s policy profile event source_delivery now context started

  -- `prepare` when no attempt is held.
  unfoldable pub prepare_free :
      ℕ
      → ℕ
      → Setting
      → AttentionPolicy
      → InvocationProfile
      → ℕ
      → DispatchDb
      → Result (DispatchDb × DispatchStep)
  prepare_free attempt request s policy profile now db = elim (next_event s db.journal.work.watch) [
    | some event ↦ prepare_event attempt request s policy profile event true now db
    | none ↦ elim s.initial_event_id [
      | none ↦
          check_step texts (step_of s.case_id waiting_for_source none) >>= λ step. ok (db, step)
      | some initial ↦ do
        event ← or_raise (last_event s.monitor_id db.journal.work.watch) workflow_conflict
        prepare_event attempt request s policy profile event false now db
    ]
  ]

  abbrev differs : Option ℕ → ℕ → Bool
  differs none a = false
  differs (some b) a = not (b == a)

  -- `prepare`; `attempt` and `request` are the fresh ids of a reservation.
  unfoldable pub prepare : ℕ → ℕ → ℕ → ℕ → DispatchDb → Result (DispatchDb × DispatchStep)
  prepare attempt request c now db = do
    (s, policy, profile) ← settings_of texts codec engine db c
    status ← dispatch_status texts codec engine db s
    raise_if (ltb now s.updated_at) value_error
    case ← case_row db.journal.work c
    check_time case now
    elim (find (is_held c) db.journal.attempts) [
      | some row ↦
          raise_if (differs s.active_attempt_id row.attempt_id) workflow_conflict
          >> (check_step texts (record (step_of c held (some row.event_id)) {
            held_attempt_id = some row.attempt_id;
          })
              >>= λ step. ok (db, step))
      | none ↦
          raise_if (is_some s.active_attempt_id) workflow_conflict
          >> prepare_free attempt request s policy profile now db
    ]
