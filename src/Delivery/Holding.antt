-- ===== src/Delivery/Holding.antt =====
-- When a case may be reserved: one unresolved attempt holds it, until it is committed or abandoned
-- (current/delivery_store.py).
use watershed_memory.Base.{
  ℕ, ◌≡◌, refl, sym, ◌∙◌, true, false, not, ◌&&◌, none, some, is_some, Result, ok, err, ◌==◌,
  raise_if, >>=-eq-ok, >>-eq-ok, [], ◌∷◌, ◌++◌, inl, inr, Option-cases, arith, value_error,
  delivery_held,
}
use mathlib.Core.Path.{subst}
use watershed_memory.Base.Table.{find, update, find_sound}
use watershed_memory.Base.Keys.{find_unique}
use watershed_memory.Text.{Texts}
use watershed_memory.Cases.Types.{check_identifier, check_text}
use watershed_memory.Cases.Records.{Input, CaseDb}
use watershed_memory.Delivery.Types.{CurrentAssessment, DeliveryReceipt, eq_mode}
use watershed_memory.Delivery.Records.{
  check_bytes, DeliveryRequest, Codec, AttemptRow, Journal, ContextQuery, Context, of_attempt,
  of_delivery, is_unresolved, is_held, read_receipt, attempt_row, check_delivery_time,
  finish_attempt,
}
use watershed_memory.Delivery.Reserve.{
  Reservation, fresh, charge, check_source, check_request, answer_request, check_health,
  check_reservation, reserved_row, insert_attempt, reserve_new, reserve,
}
use watershed_memory.Delivery.Commit.{mark_abandoned, settle, abandon}
use watershed_memory.Delivery.Balance.{IsBalanced}
use watershed_memory.Base.Table.{is_some-find-snoc}
use watershed_memory.Base.Keys.{count-update_leave, find_uncounted}
use watershed_memory.Delivery.Operations.{abandon_row-settle}
use watershed_memory.Delivery.Journals.{IsJournalSound}

-- The attempt that holds a case, once it is settled, leaves the case free.
held_once :
    (c : ℕ) (row : AttemptRow) (mark : AttemptRow → AttemptRow) (j : Journal)
    → IsBalanced j
    → find (of_attempt row.attempt_id) j.attempts ≡ some row
    → is_held c row ≡ true
    → is_held c (mark row) ≡ false
    → find (is_held c) (update (of_attempt row.attempt_id) mark j.attempts) ≡ none
held_once c row mark j b known held over =
    find_uncounted (is_held c) (update (of_attempt row.attempt_id) mark j.attempts) (
      omega (
        arith,
        b.held c,
        count-update_leave (is_held c) (of_attempt row.attempt_id) mark j.attempts row
            (b.keys row.attempt_id) known held over,
      ))

module _ (texts : Texts) (digest : Input → ℕ) (codec : Codec)
    (load : CaseDb → ContextQuery → Result Context)
    (validate : Context → CurrentAssessment → Result (Unit {0})) where
  abandoned_frees :
      (row : AttemptRow) (c request reason now : ℕ) (j j' : Journal) (r : DeliveryReceipt)
      → settle texts digest codec load validate row (mark_abandoned reason now) now j ≡ ok (j', r)
      → IsBalanced j
      → find (of_delivery c request) j.attempts ≡ some row
      → is_unresolved row.status ≡ true
      → find (is_held c) j'.attempts ≡ none
  unfolding settle finish_attempt is_unresolved
  abandoned_frees row c request reason now j j' r h b e open_row =
      let known =
        find_unique (of_delivery c request) (of_attempt row.attempt_id) j.attempts row e
          (ground arith) (b.keys row.attempt_id) in
      let mine : row.case_id == c ≡ true =
        ground (arith, find_sound (of_delivery c request) j.attempts row e) in
      let (case, e1, k1) = >>=-eq-ok (check_delivery_time j row now) _ h in
      let finished = finish_attempt row.attempt_id (mark_abandoned reason now) j in
      let (final, e2, k2) = >>=-eq-ok (attempt_row texts codec finished row.attempt_id) _ k1 in
      let (receipt, e3, k3) = >>=-eq-ok (read_receipt texts codec final) _ k2 in
      let done : finished ≡ j' = ground arith in
      subst (λ k. find (is_held c) k.attempts ≡ none) done
        (held_once c row (mark_abandoned reason now) j b known (rw (mine, open_row) refl)
          (rw mine refl))

  -- In a sound journal, once an unresolved attempt is abandoned no attempt holds its case.
  pub abandon_frees :
      (c request reason now : ℕ) (j j' : Journal) (r : DeliveryReceipt) (row : AttemptRow)
      → IsJournalSound j
      → find (of_delivery c request) j.attempts ≡ some row
      → is_unresolved row.status ≡ true
      → abandon texts digest codec load validate c request reason now j ≡ ok (j', r)
      → find (is_held c) j'.attempts ≡ none
  unfolding abandon
  abandon_frees c request reason now j j' r row s e open_row h =
      let k1 = >>-eq-ok (check_identifier texts c) _ h in
      let k2 = >>-eq-ok (check_identifier texts request) _ k1 in
      let k3 = >>-eq-ok (check_text texts reason 8 700) _ k2 in
      abandoned_frees row c request reason now j j' r
        (sym (
            abandon_row-settle texts digest codec load validate row.status row reason now j refl
              open_row)
          ∙ rw e at k3)
        s.balanced e open_row

  -- A new attempt holds its case, and no other request of the case is there.
  reserve_new_holds :
      (attempt c request : ℕ) (input : DeliveryRequest) (now : ℕ) (j j' : Journal) (r : Reservation)
      → reserve_new texts codec load attempt c request input now j ≡ ok (j', fresh r)
      → is_some (find (is_held c) j'.attempts) ≡ true
  unfolding reserve_new insert_attempt is_unresolved
  reserve_new_holds attempt c request input now j j' r h =
      let k1 = >>-eq-ok (raise_if (is_some (find (is_held c) j.attempts)) delivery_held) _ h in
      let (context, e2, k2) = >>=-eq-ok (load j.work _) _ k1 in
      let k3 =
        >>-eq-ok (raise_if (eq_mode input.profile.mode _ && not context.simulated) value_error) _
          k2 in
      let k4 = >>-eq-ok (check_source input.source_delivery c input.event_id context j.work) _ k3 in
      let (allowance, e5, k5) = >>=-eq-ok (charge input.profile.mode j.allowance) _ k4 in
      let row = reserved_row codec attempt c request input context now in
      let k6 = >>-eq-ok (check_bytes texts codec (codec.refs context.review_refs) 4096) _ k5 in
      let (inserted, e6, k7) = >>=-eq-ok (insert_attempt row j) _ k6 in
      let k8 = >>-eq-ok (check_health texts codec load input.include_source_health context) _ k7 in
      let k9 = >>-eq-ok (check_reservation texts codec load _) _ k8 in
      let rows : j'.attempts ≡ j.attempts ++ row ∷ [] = ground arith in
      rw rows (is_some-find-snoc (is_held c) j.attempts row (ground arith))

  -- After a new reservation, any other request of the case that passes its checks and was not seen
  -- before is refused as held, whatever its event and time.
  pub reserve_holds :
      (attempt c request : ℕ) (input : DeliveryRequest) (now : ℕ) (j j' : Journal) (r : Reservation)
      (other again : ℕ) (next : DeliveryRequest) (later : ℕ)
      → reserve texts codec load attempt c request input now j ≡ ok (j', fresh r)
      → check_request texts codec load c again next ≡ ok tt
      → find (of_delivery c again) j'.attempts ≡ none
      → reserve texts codec load other c again next later j' ≡ err delivery_held
  unfolding reserve answer_request reserve_new
  reserve_holds attempt c request input now j j' r other again next later h checked new =
      let k1 = >>-eq-ok (check_request texts codec load c request input) _ h in
      elim (Option-cases (find (of_delivery c request) j.attempts)) [
        | inl unseen ↦
            let held = reserve_new_holds attempt c request input now j j' r (rw unseen at k1) in
            rw (checked, new, held) refl
        | inr (row, seen) ↦ absurd (ground arith)
      ]
