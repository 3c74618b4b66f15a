-- ===== src/Delivery/Operations.antt =====
-- Each operation of `DeliveryStore` is a change of the journal (current/delivery_store.py).
use watershed_memory.Base.{
  ℕ, ◌≤◌, ◌≡◌, refl, sym, ◌∙◌, true, not, ◌&&◌, some, is_some, Result, ok, raise_if, or_raise,
  >>=-eq-ok, >>-eq-ok, inl, inr, Option-cases, arith, value_error, key_error, delivery_held,
}
use mathlib.Core.Path.{subst}
use watershed_memory.Base.Table.{find, count}
use watershed_memory.Base.Keys.{find_unique}
use watershed_memory.Text.{Texts}
use watershed_memory.Cases.Types.{check_identifier, check_text}
use watershed_memory.Cases.Records.{Input, CaseDb}
use watershed_memory.Delivery.Types.{
  AttemptStatus, reserved, committed, failed, stale, abandoned, CurrentAssessment, CurrentExecution,
  CurrentFailure, DeliveryReceipt, eq_mode,
}
use watershed_memory.Delivery.Records.{
  check_bytes, DeliveryRequest, Codec, AttemptRow, Journal, ContextQuery, Context, of_attempt,
  of_delivery, is_unresolved, is_held, attempt_row, check_identity,
}
use watershed_memory.Delivery.Reserve.{
  Reserved, charge, check_source, check_request, answer_request, check_health, check_reservation,
  reserved_row, insert_attempt, reserve_new, reserve,
}
use watershed_memory.Delivery.Commit.{
  mark_failed, mark_abandoned, check_encoded, commit, settle, fail, abandon_row, abandon,
}
use watershed_memory.Delivery.Changes.{
  breaks, gives_up, Change, unchanged, charges, reserved-IsSettling, by_commit, settle-Change,
  attempt_row-find,
}

module _ (texts : Texts) (digest : Input → ℕ) (codec : Codec)
    (load : CaseDb → ContextQuery → Result Context)
    (validate : Context → CurrentAssessment → Result (Unit {0})) where
  pub commit-Change :
      (tasks : ℕ → ℕ) (attempt : ℕ) (execution : CurrentExecution) (now : ℕ) (j j' : Journal)
      (r : DeliveryReceipt)
      → commit texts digest codec load validate tasks attempt execution now j ≡ ok (j', r)
      → Change j j'
  unfolding commit
  commit-Change tasks attempt execution now j j' r h =
      let k1 =
        >>-eq-ok (check_encoded texts digest codec load validate (codec.execution execution)) _ h in
      let (row, e, k2) = >>=-eq-ok (attempt_row texts codec j attempt) _ k1 in
      by_commit texts digest codec load validate row.status tasks attempt execution now j j' r row
        refl e h

  by_fail :
      (k : AttemptStatus) (attempt : ℕ) (failure : CurrentFailure) (now : ℕ) (j j' : Journal)
      (r : DeliveryReceipt) (row : AttemptRow)
      → row.status ≡ k
      → attempt_row texts codec j attempt ≡ ok row
      → fail texts digest codec load validate attempt failure now j ≡ ok (j', r)
      → Change j j'
  unfolding fail
  by_fail reserved attempt failure now j j' r row status e h =
      let k1 =
        >>-eq-ok (check_encoded texts digest codec load validate (codec.failure failure)) _ h in
      let k2 =
        >>-eq-ok
          (check_identity codec row failure.profile failure.case_id failure.case_revision
            failure.policy_digest failure.event_id)
          _ (rw e at k1) in
      settle-Change texts digest codec load validate row (mark_failed (codec.failure failure) now)
        now j j' r (rw status at k2) (attempt_row-find texts codec j attempt row e)
        (reserved-IsSettling row (mark_failed (codec.failure failure) now) status (λ r. refl)
          (λ r. refl) (λ r. refl) (λ r. refl) breaks)
  by_fail failed attempt failure now j j' r row status e h =
      subst (Change j) (ground arith) unchanged
  by_fail committed attempt failure now j j' r row status e h = ground arith
  by_fail stale attempt failure now j j' r row status e h = ground arith
  by_fail abandoned attempt failure now j j' r row status e h = ground arith

  pub fail-Change :
      (attempt : ℕ) (failure : CurrentFailure) (now : ℕ) (j j' : Journal) (r : DeliveryReceipt)
      → fail texts digest codec load validate attempt failure now j ≡ ok (j', r)
      → Change j j'
  unfolding fail
  fail-Change attempt failure now j j' r h =
      let k1 =
        >>-eq-ok (check_encoded texts digest codec load validate (codec.failure failure)) _ h in
      let (row, e, k2) = >>=-eq-ok (attempt_row texts codec j attempt) _ k1 in
      by_fail row.status attempt failure now j j' r row refl e h

  abandoned_row :
      (row : AttemptRow) (c request reason now : ℕ) (j j' : Journal) (r : DeliveryReceipt)
      → settle texts digest codec load validate row (mark_abandoned reason now) now j ≡ ok (j', r)
      → ((a : ℕ) → count (of_attempt a) j.attempts ≤ 1)
      → find (of_delivery c request) j.attempts ≡ some row
      → is_unresolved row.status ≡ true
      → Change j j'
  abandoned_row row c request reason now j j' r h keys e open_row =
      settle-Change texts digest codec load validate row (mark_abandoned reason now) now j j' r h
        (find_unique (of_delivery c request) (of_attempt row.attempt_id) j.attempts row e
          (ground arith) (keys row.attempt_id))
        (record {
          attempt = λ r. refl;
          case = λ r. refl;
          profile = λ r. refl;
          input = λ r. refl;
          unresolved = open_row;
          moves = gives_up row.status open_row;
        })

  -- An unresolved attempt is settled by `abandon`.
  pub abandon_row-settle :
      (k : AttemptStatus) (row : AttemptRow) (reason now : ℕ) (j : Journal)
      → row.status ≡ k
      → is_unresolved k ≡ true
      → abandon_row texts digest codec load validate row reason now j
        ≡ settle texts digest codec load validate row (mark_abandoned reason now) now j
  unfolding abandon_row is_unresolved
  abandon_row-settle reserved row reason now j e u = ground arith
  abandon_row-settle failed row reason now j e u = ground arith
  abandon_row-settle stale row reason now j e u = ground arith
  abandon_row-settle committed row reason now j e u = ground arith
  abandon_row-settle abandoned row reason now j e u = ground arith

  by_abandon :
      (k : AttemptStatus) (c request reason now : ℕ) (j j' : Journal) (r : DeliveryReceipt)
      (row : AttemptRow)
      → row.status ≡ k
      → ((a : ℕ) → count (of_attempt a) j.attempts ≤ 1)
      → find (of_delivery c request) j.attempts ≡ some row
      → abandon_row texts digest codec load validate row reason now j ≡ ok (j', r)
      → Change j j'
  unfolding abandon_row is_unresolved
  by_abandon reserved c request reason now j j' r row status keys e h =
      abandoned_row row c request reason now j j' r
        (sym (abandon_row-settle reserved row reason now j status refl) ∙ h) keys e (rw status refl)
  by_abandon failed c request reason now j j' r row status keys e h =
      abandoned_row row c request reason now j j' r
        (sym (abandon_row-settle failed row reason now j status refl) ∙ h) keys e (rw status refl)
  by_abandon stale c request reason now j j' r row status keys e h =
      abandoned_row row c request reason now j j' r
        (sym (abandon_row-settle stale row reason now j status refl) ∙ h) keys e (rw status refl)
  by_abandon abandoned c request reason now j j' r row status keys e h =
      subst (Change j) (ground arith) unchanged
  by_abandon committed c request reason now j j' r row status keys e h = ground arith

  pub abandon-Change :
      (c request reason now : ℕ) (j j' : Journal) (r : DeliveryReceipt)
      → abandon texts digest codec load validate c request reason now j ≡ ok (j', r)
      → ((a : ℕ) → count (of_attempt a) j.attempts ≤ 1)
      → Change j j'
  unfolding abandon
  abandon-Change c request reason now j j' r h keys =
      let k1 = >>-eq-ok (check_identifier texts c) _ h in
      let k2 = >>-eq-ok (check_identifier texts request) _ k1 in
      let k3 = >>-eq-ok (check_text texts reason 8 700) _ k2 in
      let (row, e, k4) =
        >>=-eq-ok (or_raise (find (of_delivery c request) j.attempts) key_error) _ k3 in
      by_abandon row.status c request reason now j j' r row refl keys (ground arith) k4

  reserve_new-Change :
      (attempt c request : ℕ) (input : DeliveryRequest) (now : ℕ) (j j' : Journal) (r : Reserved)
      → reserve_new texts codec load attempt c request input now j ≡ ok (j', r)
      → Change j j'
  unfolding reserve_new
  reserve_new-Change attempt c request input now j j' r h =
      let k1 = >>-eq-ok (raise_if (is_some (find (is_held c) j.attempts)) delivery_held) _ h in
      let (context, e2, k2) = >>=-eq-ok (load j.work _) _ k1 in
      let k3 =
        >>-eq-ok (raise_if (eq_mode input.profile.mode _ && not context.simulated) value_error) _
          k2 in
      let k4 = >>-eq-ok (check_source input.source_delivery c input.event_id context j.work) _ k3 in
      let (allowance, e5, k5) = >>=-eq-ok (charge input.profile.mode j.allowance) _ k4 in
      let row = reserved_row codec attempt c request input context now in
      let k6 = >>-eq-ok (check_bytes texts codec (codec.refs context.review_refs) 4096) _ k5 in
      let (inserted, e6, k7) = >>=-eq-ok (insert_attempt row j) _ k6 in
      let k8 = >>-eq-ok (check_health texts codec load input.include_source_health context) _ k7 in
      let k9 = >>-eq-ok (check_reservation texts codec load _) _ k8 in
      let done : record inserted { allowance = allowance } ≡ j' = ground arith in
      subst (Change j) done (charges row allowance inserted (ground arith) e5 e6)

  pub reserve-Change :
      (attempt c request : ℕ) (input : DeliveryRequest) (now : ℕ) (j j' : Journal) (r : Reserved)
      → reserve texts codec load attempt c request input now j ≡ ok (j', r)
      → Change j j'
  unfolding reserve answer_request
  reserve-Change attempt c request input now j j' r h =
      let k1 = >>-eq-ok (check_request texts codec load c request input) _ h in
      elim (Option-cases (find (of_delivery c request) j.attempts)) [
        | inl new ↦ reserve_new-Change attempt c request input now j j' r (rw new at k1)
        | inr (row, seen) ↦ subst (Change j) (ground arith) unchanged
      ]
