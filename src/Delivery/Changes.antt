-- ===== src/Delivery/Changes.antt =====
-- How an operation of current/delivery_store.py changes the journal: not at all, by settling one
-- unresolved attempt, or by charging a new one.
use watershed_memory.Base.{
  ℕ, ◌≡◌, refl, sym, Bool, true, false, not, ◌&&◌, none, some, is_some, Result, ok, ◌==◌, raise_if,
  >>=-eq-ok, >>-eq-ok, [], arith, if◌then◌else◌, ==_iff, value_error, workflow_conflict,
}
use mathlib.Core.Path.{subst}
use watershed_memory.Base.Table.{find, find_sound}
use watershed_memory.Base.Keys.{find_unique}
use watershed_memory.Text.{Texts}
use watershed_memory.Cases.Records.{Input, CaseDb}
use watershed_memory.Delivery.Types.{
  AttemptStatus, reserved, committed, failed, stale, abandoned, CurrentAssessment, CurrentExecution,
  DeliveryReceipt,
}
use watershed_memory.Delivery.Records.{
  check_bytes, Codec, Allowance, AttemptRow, Journal, ContextQuery, Context, of_attempt,
  of_delivery, is_unresolved, is_held, read_receipt, attempt_row, check_delivery_time,
  check_identity, finish_attempt,
}
use watershed_memory.Delivery.Reserve.{charge, insert_attempt}
use watershed_memory.Delivery.Commit.{
  mark_stale, mark_committed, replay_query, end_revision, deliver, apply_decisions, commit_work,
  commit_reserved, check_encoded, commit, settle,
}
use watershed_memory.Delivery.Balance.{IsBalanced}
use watershed_memory.Delivery.Decisions.{
  IsWorkSound, deliver-IsWorkSound, end_revision-IsWorkSound, apply_decisions-IsWorkSound,
}

-- The life of an attempt.
pub data Moves : AttemptStatus → AttemptStatus → Type 0 where
  stays : (s : AttemptStatus) → Moves s s
  succeeds : Moves reserved committed
  expires : Moves reserved stale
  breaks : Moves reserved failed
  gives_up : (s : AttemptStatus) → is_unresolved s ≡ true → Moves s abandoned

-- A change of one attempt, which keeps what was reserved.
pub record IsSettling (row : AttemptRow) (mark : AttemptRow → AttemptRow) : Type 0 where
  pub attempt : (r : AttemptRow) → (mark r).attempt_id ≡ r.attempt_id
  pub case : (r : AttemptRow) → (mark r).case_id ≡ r.case_id
  pub profile : (r : AttemptRow) → (mark r).profile ≡ r.profile
  pub input : (r : AttemptRow) → (mark r).input ≡ r.input
  pub unresolved : is_unresolved row.status ≡ true
  pub moves : Moves row.status (mark row).status

pub data Change (j : Journal) : Journal → Type 0 where
  unchanged : Change j j
  settles :
      (row : AttemptRow) (mark : AttemptRow → AttemptRow) (work : CaseDb)
      → find (of_attempt row.attempt_id) j.attempts ≡ some row
      → IsSettling row mark
      → (IsWorkSound j.work → IsWorkSound work)
      → Change j (finish_attempt row.attempt_id mark (record j { work = work }))
  charges :
      (row : AttemptRow) (a : Allowance) (inserted : Journal)
      → find (is_held row.case_id) j.attempts ≡ none
      → charge row.profile.mode j.allowance ≡ ok a
      → insert_attempt row j ≡ ok inserted
      → Change j (record inserted { allowance = a })

pub reserved-IsSettling :
    (row : AttemptRow) (mark : AttemptRow → AttemptRow)
    → row.status ≡ reserved
    → ((r : AttemptRow) → (mark r).attempt_id ≡ r.attempt_id)
    → ((r : AttemptRow) → (mark r).case_id ≡ r.case_id)
    → ((r : AttemptRow) → (mark r).profile ≡ r.profile)
    → ((r : AttemptRow) → (mark r).input ≡ r.input)
    → Moves reserved (mark row).status
    → IsSettling row mark
unfolding is_unresolved
reserved-IsSettling row mark e attempt case profile input moves = record {
  attempt = attempt;
  case = case;
  profile = profile;
  input = input;
  unresolved = rw e refl;
  moves = subst (λ s. Moves s (mark row).status) (sym e) moves;
}

pub attempt_row-find :
    (texts : Texts) (codec : Codec) (j : Journal) (a : ℕ) (row : AttemptRow)
    → attempt_row texts codec j a ≡ ok row
    → find (of_attempt row.attempt_id) j.attempts ≡ some row
unfolding attempt_row
attempt_row-find texts codec j a row h =
    let found : find (of_attempt a) j.attempts ≡ some row = ground arith in
    let done : row.attempt_id ≡ a =
      (==_iff row.attempt_id a).0 (find_sound (of_attempt a) j.attempts row found) in
    subst (λ i. find (of_attempt i) j.attempts ≡ some row) (sym done) found

pub of_delivery-find :
    (j : Journal) (c request : ℕ) (row : AttemptRow)
    → IsBalanced j
    → find (of_delivery c request) j.attempts ≡ some row
    → find (of_attempt row.attempt_id) j.attempts ≡ some row
of_delivery-find j c request row b h =
    find_unique (of_delivery c request) (of_attempt row.attempt_id) j.attempts row h (ground arith)
      (b.keys row.attempt_id)

module _ (texts : Texts) (digest : Input → ℕ) (codec : Codec)
    (load : CaseDb → ContextQuery → Result Context)
    (validate : Context → CurrentAssessment → Result (Unit {0})) where
  commit_work-Change :
      (tasks : ℕ → ℕ) (row : AttemptRow) (context : Context) (execution : CurrentExecution)
      (now : ℕ) (j j' : Journal)
      → commit_work texts digest codec load validate tasks row context execution now j ≡ ok j'
      → find (of_attempt row.attempt_id) j.attempts ≡ some row
      → row.status ≡ reserved
      → Change j j'
  unfolding commit_work
  commit_work-Change tasks row context execution now j j' h e open_row =
      let ((db1, work), e1, k1) =
        >>=-eq-ok
          (apply_decisions texts digest codec load validate tasks row.attempt_id context.case_id now
            0 context.case_revision [] execution.assessment.decisions j.work)
          _ h in
      let (db2, e2, k2) =
        >>=-eq-ok (deliver row.source_delivery row.monitor_id row.event_id db1) _ k1 in
      let k3 = >>-eq-ok (check_bytes texts codec (codec.work work) 20000) _ k2 in
      let mark = mark_committed (codec.execution execution) work now in
      let final = record j { work = end_revision context.case_id now db2 } in
      let done : finish_attempt row.attempt_id mark final ≡ j' = ground arith in
      subst (Change j) done (
        settles row mark (end_revision context.case_id now db2) e
          (reserved-IsSettling row mark open_row (λ r. refl) (λ r. refl) (λ r. refl) (λ r. refl)
            succeeds)
          (λ s. end_revision-IsWorkSound context.case_id now db2 (
            deliver-IsWorkSound row.source_delivery row.monitor_id row.event_id db1 db2 e2 (
              apply_decisions-IsWorkSound texts digest codec load validate tasks row.attempt_id
                context.case_id now 0 context.case_revision [] execution.assessment.decisions j.work
                db1 work e1 s))))

  committed_or_stale :
      (current : Bool) (tasks : ℕ → ℕ) (row : AttemptRow) (context : Context)
      (execution : CurrentExecution) (now : ℕ) (j j' : Journal)
      → (if current
          then commit_work texts digest codec load validate tasks row context execution now j
          else ok (finish_attempt row.attempt_id (mark_stale (codec.execution execution) now) j))
        ≡ ok j'
      → find (of_attempt row.attempt_id) j.attempts ≡ some row
      → row.status ≡ reserved
      → Change j j'
  committed_or_stale true tasks row context execution now j j' h e open_row =
      commit_work-Change tasks row context execution now j j' h e open_row
  committed_or_stale false tasks row context execution now j j' h e open_row =
      let mark = mark_stale (codec.execution execution) now in
      let done : finish_attempt row.attempt_id mark j ≡ j' = ground arith in
      subst (Change j) done (
        settles row mark j.work e
          (reserved-IsSettling row mark open_row (λ r. refl) (λ r. refl) (λ r. refl) (λ r. refl)
            expires)
          (λ s. s))

  commit_reserved-Change :
      (tasks : ℕ → ℕ) (row : AttemptRow) (execution : CurrentExecution) (now : ℕ) (j j' : Journal)
      (r : DeliveryReceipt)
      → commit_reserved texts digest codec load validate tasks row execution now j ≡ ok (j', r)
      → find (of_attempt row.attempt_id) j.attempts ≡ some row
      → row.status ≡ reserved
      → Change j j'
  unfolding commit_reserved
  commit_reserved-Change tasks row execution now j j' r h e open_row =
      let (case, e1, k1) = >>=-eq-ok (check_delivery_time j row now) _ h in
      let k2 =
        >>-eq-ok
          (raise_if (row.input.include_source_health && not (is_some row.health_versions))
            value_error)
          _ k1 in
      let (context, e3, k3) = >>=-eq-ok (load j.work (replay_query row)) _ k2 in
      let k4 =
        >>-eq-ok (raise_if (not (codec.sha context.json == row.context_digest)) workflow_conflict) _
          k3 in
      let k5 = >>-eq-ok (validate context execution.assessment) _ k4 in
      let (finished, e6, k6) =
        >>=-eq-ok
          (if case.revision == row.case_revision
            then commit_work texts digest codec load validate tasks row context execution now j
            else ok (finish_attempt row.attempt_id (mark_stale (codec.execution execution) now) j))
          _ k5 in
      let (final, e7, k7) = >>=-eq-ok (attempt_row texts codec finished row.attempt_id) _ k6 in
      let (receipt, e8, k8) = >>=-eq-ok (read_receipt texts codec final) _ k7 in
      let done : finished ≡ j' = ground arith in
      subst (Change j) done (
        committed_or_stale (case.revision == row.case_revision) tasks row context execution now j
          finished e6 e open_row)

  pub settle-Change :
      (row : AttemptRow) (mark : AttemptRow → AttemptRow) (now : ℕ) (j j' : Journal)
      (r : DeliveryReceipt)
      → settle texts digest codec load validate row mark now j ≡ ok (j', r)
      → find (of_attempt row.attempt_id) j.attempts ≡ some row
      → IsSettling row mark
      → Change j j'
  unfolding settle
  settle-Change row mark now j j' r h e settling =
      let (_, e1, k1) = >>=-eq-ok (check_delivery_time j row now) _ h in
      let finished = finish_attempt row.attempt_id mark j in
      let (final, e7, k7) = >>=-eq-ok (attempt_row texts codec finished row.attempt_id) _ k1 in
      let (receipt, e8, k8) = >>=-eq-ok (read_receipt texts codec final) _ k7 in
      let done : finished ≡ j' = ground arith in
      subst (Change j) done (settles row mark j.work e settling (λ s. s))

  pub by_commit :
      (k : AttemptStatus) (tasks : ℕ → ℕ) (attempt : ℕ) (execution : CurrentExecution) (now : ℕ)
      (j j' : Journal) (r : DeliveryReceipt) (row : AttemptRow)
      → row.status ≡ k
      → attempt_row texts codec j attempt ≡ ok row
      → commit texts digest codec load validate tasks attempt execution now j ≡ ok (j', r)
      → Change j j'
  unfolding commit
  by_commit reserved tasks attempt execution now j j' r row status e h =
      let k1 =
        >>-eq-ok (check_encoded texts digest codec load validate (codec.execution execution)) _ h in
      let k2 =
        >>-eq-ok
          (check_identity codec row execution.profile execution.assessment.case_id
            execution.assessment.case_revision execution.assessment.policy_digest
            execution.assessment.event_id)
          _ (rw e at k1) in
      commit_reserved-Change tasks row execution now j j' r (rw status at k2)
        (attempt_row-find texts codec j attempt row e) status
  by_commit committed tasks attempt execution now j j' r row status e h =
      subst (Change j) (ground arith) unchanged
  by_commit failed tasks attempt execution now j j' r row status e h = ground arith
  by_commit stale tasks attempt execution now j j' r row status e h = ground arith
  by_commit abandoned tasks attempt execution now j j' r row status e h = ground arith
