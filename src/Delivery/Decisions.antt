-- ===== src/Delivery/Decisions.antt =====
-- The decisions of a commit keep the reviews and the watch sound (current/delivery_store.py).
use watershed_memory.Base.{
  ℕ, suc, ◌≡◌, refl, Bool, true, false, Option, Result, ok, or_raise, >>=-eq-ok, >>-eq-ok, List, [],
  ◌∷◌, arith, value_error,
}
use mathlib.Core.Path.{subst}
use watershed_memory.Text.{Texts}
use watershed_memory.Watch.Store.Soundness.{IsSound}
use watershed_memory.Cases.Types.{ReviewRecord, check_draft, check_link}
use watershed_memory.Cases.Records.{Input, CaseDb}
use watershed_memory.Cases.Store.{stage_review, link_evidence}
use watershed_memory.Cases.Store.Indexes.{IsUnique}
use watershed_memory.Cases.Store.Uniqueness.{stage_review-IsUnique, link_evidence-IsUnique}
use watershed_memory.Cases.Store.Isolation.{stage_review_watch, link_evidence_watch}
use watershed_memory.Delivery.Types.{
  Disposition, no_follow_up, propose_review, continue_existing_review, ReviewDecision,
  CurrentAssessment,
}
use watershed_memory.Delivery.Records.{Codec, ContextQuery, Context, acknowledge}
use watershed_memory.Delivery.Commit.{end_revision, deliver, apply_decision, apply_decisions}
use watershed_memory.Delivery.Outbox.{acknowledge-IsSound}

-- The case database: one active review of a case and kind, and a sound watch.
pub record IsWorkSound (db : CaseDb) : Type 0 where
  pub unique : IsUnique db.reviews
  pub watched : IsSound db.watch

pub deliver-IsWorkSound :
    (source : Bool) (m event : ℕ) (db db' : CaseDb)
    → deliver source m event db ≡ ok db'
    → IsWorkSound db
    → IsWorkSound db'
unfolding deliver
deliver-IsWorkSound false m event db db' h s = subst IsWorkSound (ground arith) s
deliver-IsWorkSound true m event db db' h s =
    let (watch, e, k) = >>=-eq-ok (acknowledge m event db.watch) _ h in
    let same : record db { watch = watch } ≡ db' = ground arith in
    subst IsWorkSound same (record {
      unique = s.unique;
      watched = acknowledge-IsSound m event db.watch watch e s.watched;
    })

pub end_revision-IsWorkSound :
    (c now : ℕ) (db : CaseDb) → IsWorkSound db → IsWorkSound (end_revision c now db)
end_revision-IsWorkSound c now db s = record { unique = s.unique; watched = s.watched }

module _ (texts : Texts) (digest : Input → ℕ) (codec : Codec)
    (load : CaseDb → ContextQuery → Result Context)
    (validate : Context → CurrentAssessment → Result (Unit {0})) where
  decision_of :
      (k : Disposition) (task c : ℕ) (d : ReviewDecision) (request revision now : ℕ)
      (db db' : CaseDb) (saved : Option ReviewRecord)
      → d.disposition ≡ k
      → apply_decision texts digest codec load validate task c d request revision now db
        ≡ ok (db', saved)
      → IsWorkSound db
      → IsWorkSound db'
  unfolding apply_decision
  decision_of no_follow_up task c d request revision now db db' saved e h s =
      subst IsWorkSound (ground arith) s
  decision_of propose_review task c d request revision now db db' saved e h s =
      let g = rw e at h in
      let (kind, e1, k1) = >>=-eq-ok (or_raise d.kind value_error) _ g in
      let (title, e2, k2) = >>=-eq-ok (or_raise d.title value_error) _ k1 in
      let k3 = >>-eq-ok (check_draft texts _) _ k2 in
      let ((db1, value), e4, k4) =
        >>=-eq-ok (stage_review texts digest task c _ request revision now db) _ k3 in
      let same : db1 ≡ db' = ground arith in
      subst IsWorkSound same (record {
        unique =
            stage_review-IsUnique texts digest task c _ request revision now db db1 value e4
              s.unique;
        watched =
            rw (stage_review_watch texts digest task c _ request revision now db db1 value e4)
              s.watched;
      })
  decision_of continue_existing_review task c d request revision now db db' saved e h s =
      let g = rw e at h in
      let (target, e1, k1) = >>=-eq-ok (or_raise d.target_task_id value_error) _ g in
      let k2 = >>-eq-ok (check_link texts _) _ k1 in
      let ((db1, value), e4, k4) =
        >>=-eq-ok (link_evidence texts digest c _ request revision now db) _ k2 in
      let same : db1 ≡ db' = ground arith in
      subst IsWorkSound same (record {
        unique =
            link_evidence-IsUnique texts digest c _ request revision now db db1 value e4 s.unique;
        watched =
            rw (link_evidence_watch texts digest c _ request revision now db db1 value e4)
              s.watched;
      })

  pub apply_decisions-IsWorkSound :
      (tasks : ℕ → ℕ) (attempt c now index revision : ℕ) (work : List ReviewRecord)
      (ds : List ReviewDecision) (db db' : CaseDb) (done : List ReviewRecord)
      → apply_decisions texts digest codec load validate tasks attempt c now index revision work ds
          db
        ≡ ok (db', done)
      → IsWorkSound db
      → IsWorkSound db'
  unfolding apply_decisions
  apply_decisions-IsWorkSound tasks attempt c now index revision work [] db db' done h s =
      subst IsWorkSound (ground arith) s
  apply_decisions-IsWorkSound tasks attempt c now index revision work (d ∷ rest) db db' done h s =
      let ((db1, saved), e, k) =
        >>=-eq-ok
          (apply_decision texts digest codec load validate (tasks index) c d
            (codec.numbered attempt index) revision now db)
          _ h in
      apply_decisions-IsWorkSound tasks attempt c now (suc index) _ _ rest db1 db' done k (
        decision_of d.disposition (tasks index) c d (codec.numbered attempt index) revision now db
          db1 saved refl e s)
