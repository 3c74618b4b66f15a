-- ===== src/Delivery/Answers.antt =====
-- What a second request meets after a first: a commit that is repeated, a case that is held, and a
-- case that is free again (current/delivery_store.py).
use watershed_memory.Base.{
  ℕ, ◌≡◌, refl, ap, ◌∙◌, Bool, true, false, not, ◌&&◌, Option, none, some, is_some, Result, ok,
  ◌==◌, raise_if, >>=-eq-ok, >>-eq-ok, List, [], arith, if◌then◌else◌, ==_iff, value_error,
  workflow_conflict, eq_option,
}
use mathlib.Core.Path.{subst}
use watershed_memory.Base.Table.{find, update, find_sound}
use watershed_memory.Text.{Texts}
use watershed_memory.Cases.Types.{ReviewRecord}
use watershed_memory.Cases.Records.{Input, CaseDb}
use watershed_memory.Delivery.Types.{
  AttemptStatus, reserved, committed, failed, stale, abandoned, CurrentAssessment, CurrentExecution,
  InvocationProfile, DeliveryReceipt,
}
use watershed_memory.Delivery.Records.{
  check_bytes, Codec, AttemptRow, Journal, ContextQuery, Context, of_attempt, read_receipt,
  attempt_row, check_delivery_time, check_identity, finish_attempt,
}
use watershed_memory.Delivery.Commit.{
  mark_stale, mark_committed, replay_query, deliver, apply_decisions, commit_work, commit_reserved,
  check_encoded, commit,
}
use watershed_memory.Base.Table.{find-update_self}
use watershed_memory.Delivery.Changes.{attempt_row-find}

stored_is :
    (stored : Option ℕ) (text : ℕ) → eq_option stored (some text) ≡ true → stored ≡ some text
stored_is none text h = ground arith
stored_is (some t) text h = ap some ((==_iff t text).0 h)

attempt_row_id :
    (texts : Texts) (codec : Codec) (j : Journal) (a : ℕ) (row : AttemptRow)
    → attempt_row texts codec j a ≡ ok row
    → row.attempt_id ≡ a
unfolding attempt_row
attempt_row_id texts codec j a row h =
    (==_iff row.attempt_id a).0 (find_sound (of_attempt a) j.attempts row (ground arith))

module _ (texts : Texts) (digest : Input → ℕ) (codec : Codec)
    (load : CaseDb → ContextQuery → Result Context)
    (validate : Context → CurrentAssessment → Result (Unit {0})) where
  -- What a commit that settled an attempt as COMMITTED leaves.
  record IsCommitted (row : AttemptRow) (execution : CurrentExecution) (j : Journal)
      (r : DeliveryReceipt) : Type 0 where
    final : AttemptRow
    found : attempt_row texts codec j row.attempt_id ≡ ok final
    read : read_receipt texts codec final ≡ ok r
    status : final.status ≡ committed
    stored : final.execution_json ≡ some (codec.execution execution)
    case : final.case_id ≡ row.case_id
    revision : final.case_revision ≡ row.case_revision
    policy : final.coverage_digest ≡ row.coverage_digest
    event : final.event_id ≡ row.event_id
    profile : final.profile ≡ row.profile

  committed_final :
      (row final : AttemptRow) (execution : CurrentExecution) (j : Journal) (r : DeliveryReceipt)
      (work : List ReviewRecord) (now : ℕ)
      → final ≡ mark_committed (codec.execution execution) work now row
      → final.status ≡ committed
      → attempt_row texts codec j row.attempt_id ≡ ok final
      → read_receipt texts codec final ≡ ok r
      → IsCommitted row execution j r
  committed_final row final execution j r work now e status found read = record {
    final = final;
    found = found;
    read = read;
    status = status;
    stored = ap (λ x. x.execution_json) e;
    case = ap (λ x. x.case_id) e;
    revision = ap (λ x. x.case_revision) e;
    policy = ap (λ x. x.coverage_digest) e;
    event = ap (λ x. x.event_id) e;
    profile = ap (λ x. x.profile) e;
  }

  read_receipt_status :
      (row : AttemptRow) (r : DeliveryReceipt)
      → read_receipt texts codec row ≡ ok r
      → row.status ≡ r.status
  unfolding read_receipt
  read_receipt_status row r h = ground arith

  settled_row :
      (row : AttemptRow) (mark : AttemptRow → AttemptRow) (j finished : Journal)
      (final : AttemptRow)
      → ((r : AttemptRow) → (mark r).attempt_id ≡ r.attempt_id)
      → finished.attempts ≡ update (of_attempt row.attempt_id) mark j.attempts
      → find (of_attempt row.attempt_id) j.attempts ≡ some row
      → attempt_row texts codec finished row.attempt_id ≡ ok final
      → final ≡ mark row
  unfolding attempt_row
  settled_row row mark j finished final id e known h = ground (
    arith,
    ap (λ rows. find (of_attempt row.attempt_id) rows) e,
    find-update_self (of_attempt row.attempt_id) mark j.attempts
        (λ r hit. ap (λ i. i == row.attempt_id) (id r) ∙ hit),
  )

  committed_row :
      (current : Bool) (tasks : ℕ → ℕ) (row : AttemptRow) (context : Context)
      (execution : CurrentExecution) (now : ℕ) (j finished : Journal) (final : AttemptRow)
      → (if current
          then commit_work texts digest codec load validate tasks row context execution now j
          else ok (finish_attempt row.attempt_id (mark_stale (codec.execution execution) now) j))
        ≡ ok finished
      → find (of_attempt row.attempt_id) j.attempts ≡ some row
      → attempt_row texts codec finished row.attempt_id ≡ ok final
      → final.status ≡ committed
      → (work : List ReviewRecord) × (final
          ≡ mark_committed (codec.execution execution) work now row)
  unfolding commit_work finish_attempt
  committed_row true tasks row context execution now j finished final h e known done =
      let ((db1, work), e1, k1) =
        >>=-eq-ok
          (apply_decisions texts digest codec load validate tasks row.attempt_id context.case_id now
            0 context.case_revision [] execution.assessment.decisions j.work)
          _ h in
      let (db2, e2, k2) =
        >>=-eq-ok (deliver row.source_delivery row.monitor_id row.event_id db1) _ k1 in
      let k3 = >>-eq-ok (check_bytes texts codec (codec.work work) 20000) _ k2 in
      (
        work,
        settled_row row (mark_committed (codec.execution execution) work now) j finished final
            (λ r. refl) (ground arith) e known,
      )
  committed_row false tasks row context execution now j finished final h e known done =
      let stale_final =
        settled_row row (mark_stale (codec.execution execution) now) j finished final (λ r. refl)
          (ground arith) e known in
      absurd (ground (arith, ap (λ r. r.status) stale_final))

  commit_reserved-IsCommitted :
      (tasks : ℕ → ℕ) (row : AttemptRow) (execution : CurrentExecution) (now : ℕ) (j j' : Journal)
      (r : DeliveryReceipt)
      → commit_reserved texts digest codec load validate tasks row execution now j ≡ ok (j', r)
      → find (of_attempt row.attempt_id) j.attempts ≡ some row
      → r.status ≡ committed
      → IsCommitted row execution j' r
  unfolding commit_reserved
  commit_reserved-IsCommitted tasks row execution now j j' r h e done =
      let (case, e1, k1) = >>=-eq-ok (check_delivery_time j row now) _ h in
      let k2 =
        >>-eq-ok
          (raise_if (row.input.include_source_health && not (is_some row.health_versions))
            value_error)
          _ k1 in
      let (context, e3, k3) = >>=-eq-ok (load j.work (replay_query row)) _ k2 in
      let k4 =
        >>-eq-ok (raise_if (not (codec.sha context.json == row.context_digest)) workflow_conflict) _
          k3 in
      let k5 = >>-eq-ok (validate context execution.assessment) _ k4 in
      let (finished, e6, k6) =
        >>=-eq-ok
          (if case.revision == row.case_revision
            then commit_work texts digest codec load validate tasks row context execution now j
            else ok (finish_attempt row.attempt_id (mark_stale (codec.execution execution) now) j))
          _ k5 in
      let (final, e7, k7) = >>=-eq-ok (attempt_row texts codec finished row.attempt_id) _ k6 in
      let (receipt, e8, k8) = >>=-eq-ok (read_receipt texts codec final) _ k7 in
      let journal : finished ≡ j' = ground arith in
      let answer : receipt ≡ r = ground arith in
      let status : final.status ≡ committed =
        read_receipt_status final receipt e8 ∙ ap (λ x. x.status) answer ∙ done in
      let (work, is_final) =
        committed_row (case.revision == row.case_revision) tasks row context execution now j
          finished final e6 e e7 status in
      committed_final row final execution j' r work now is_final status
        (subst (λ k. attempt_row texts codec k row.attempt_id ≡ ok final) journal e7)
        (subst (λ x. read_receipt texts codec final ≡ ok x) answer e8)

  -- The answer to a commit of an attempt that was committed with the same result.
  commit_replayed :
      (others : ℕ → ℕ) (attempt : ℕ) (execution : CurrentExecution) (later : ℕ) (j : Journal)
      (r : DeliveryReceipt) (final : AttemptRow)
      → check_encoded texts digest codec load validate (codec.execution execution) ≡ ok tt
      → attempt_row texts codec j attempt ≡ ok final
      → check_identity codec final execution.profile execution.assessment.case_id
          execution.assessment.case_revision execution.assessment.policy_digest
          execution.assessment.event_id
        ≡ ok tt
      → final.status ≡ committed
      → final.execution_json ≡ some (codec.execution execution)
      → read_receipt texts codec final ≡ ok r
      → commit texts digest codec load validate others attempt execution later j ≡ ok (j, r)
  unfolding commit
  commit_replayed others attempt execution later j r final encoded found identity status stored
        read =
      rw (encoded, found, identity, status, stored) (ground (arith, read))

  committed_identity :
      (row final : AttemptRow) (p : InvocationProfile) (c revision policy event : ℕ)
      → final.case_id ≡ row.case_id
      → final.case_revision ≡ row.case_revision
      → final.coverage_digest ≡ row.coverage_digest
      → final.event_id ≡ row.event_id
      → final.profile ≡ row.profile
      → check_identity codec row p c revision policy event ≡ ok tt
      → check_identity codec final p c revision policy event ≡ ok tt
  unfolding check_identity
  committed_identity row final p c revision policy event a b d e f h = rw (a, b, d, e, f) h

  commit_by :
      (k : AttemptStatus) (tasks : ℕ → ℕ) (attempt : ℕ) (execution : CurrentExecution) (now : ℕ)
      (j j' : Journal) (r : DeliveryReceipt) (row : AttemptRow)
      → row.status ≡ k
      → attempt_row texts codec j attempt ≡ ok row
      → commit texts digest codec load validate tasks attempt execution now j ≡ ok (j', r)
      → r.status ≡ committed
      → (others : ℕ → ℕ) (later : ℕ)
      → commit texts digest codec load validate others attempt execution later j' ≡ ok (j', r)
  unfolding commit
  commit_by reserved tasks attempt execution now j j' r row status e h done others later =
      let (_, encoded, k1) =
        >>=-eq-ok (check_encoded texts digest codec load validate (codec.execution execution)) _
          h in
      let (_, identity, k2) =
        >>=-eq-ok
          (check_identity codec row execution.profile execution.assessment.case_id
            execution.assessment.case_revision execution.assessment.policy_digest
            execution.assessment.event_id)
          _ (rw e at k1) in
      let known = attempt_row-find texts codec j attempt row e in
      let c =
        commit_reserved-IsCommitted tasks row execution now j j' r (rw status at k2) known done in
      let id = attempt_row_id texts codec j attempt row e in
      commit_replayed others attempt execution later j' r c.final encoded
        (subst (λ i. attempt_row texts codec j' i ≡ ok c.final) id c.found)
        (committed_identity row c.final execution.profile execution.assessment.case_id
          execution.assessment.case_revision execution.assessment.policy_digest
          execution.assessment.event_id c.case c.revision c.policy c.event c.profile identity)
        c.status c.stored c.read
  commit_by committed tasks attempt execution now j j' r row status e h done others later =
      let same : j ≡ j' = ground arith in
      let (_, encoded, k1) =
        >>=-eq-ok (check_encoded texts digest codec load validate (codec.execution execution)) _
          h in
      let (_, identity, k2) =
        >>=-eq-ok
          (check_identity codec row execution.profile execution.assessment.case_id
            execution.assessment.case_revision execution.assessment.policy_digest
            execution.assessment.event_id)
          _ (rw e at k1) in
      subst
        (λ k. commit texts digest codec load validate others attempt execution later k ≡ ok (k, r))
        same
        (commit_replayed others attempt execution later j r row encoded e identity status
          (stored_is row.execution_json (codec.execution execution) (ground arith)) (ground arith))
  commit_by failed tasks attempt execution now j j' r row status e h done others later =
      ground arith
  commit_by stale tasks attempt execution now j j' r row status e h done others later = ground arith
  commit_by abandoned tasks attempt execution now j j' r row status e h done others later =
      ground arith

  -- A commit that answered with a committed receipt, repeated with the same execution at any time,
  -- answers with the same receipt and leaves the journal as it is.
  pub commit_again :
      (tasks others : ℕ → ℕ) (attempt : ℕ) (execution : CurrentExecution) (now later : ℕ)
      (j j' : Journal) (r : DeliveryReceipt)
      → commit texts digest codec load validate tasks attempt execution now j ≡ ok (j', r)
      → r.status ≡ committed
      → commit texts digest codec load validate others attempt execution later j' ≡ ok (j', r)
  unfolding commit
  commit_again tasks others attempt execution now later j j' r h done =
      let k1 =
        >>-eq-ok (check_encoded texts digest codec load validate (codec.execution execution)) _ h in
      let (row, e, k2) = >>=-eq-ok (attempt_row texts codec j attempt) _ k1 in
      commit_by row.status tasks attempt execution now j j' r row refl e h done others later
