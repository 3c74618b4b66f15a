-- ===== src/Delivery/Outbox.antt =====
-- `_acknowledge` of current/delivery_store.py keeps the counters of the watch equal to its tables.
use mathlib.Core.Option
use watershed_memory.Base.{
  ℕ, ◌+◌, ◌≡◌, sym, false, Option, none, some, ok, ◌==◌, inl, inr, Bool-cases, Option-cases, arith,
  ==_iff,
}
use mathlib.Core.Path.{subst}
use watershed_memory.Base.Table.{find, update, count, count-update, find-update_other, find_sound}
use watershed_memory.Base.Keys.{find-update_within, count-update_drop}
use watershed_memory.Watch.Records.{MonitorRow}
use watershed_memory.Watch.Tables.{Db}
use watershed_memory.Watch.Events.Sealing.{pending_of_monitor}
use watershed_memory.Watch.Store.{of_id}
use watershed_memory.Watch.Store.Soundness.{column, Tallies, IsSound}
use watershed_memory.Delivery.Records.{of_outbox, delivered, one_less, has_pending, acknowledge}

module _ (m event : ℕ) (db : Db) (once : count (of_outbox event m) db.ledger.outbox ≡ 1) where
  -- The monitor's queue is one event shorter.
  outbox_mine :
      count (pending_of_monitor m) (update (of_outbox event m) delivered db.ledger.outbox) + 1
      ≡ count (pending_of_monitor m) db.ledger.outbox
  outbox_mine = omega (
    arith,
    once,
    count-update_drop (pending_of_monitor m) (of_outbox event m) delivered db.ledger.outbox
        (λ r h. ground arith) (λ r h. ground arith),
  )

  -- No other monitor's queue changes.
  outbox_other :
      (k : ℕ)
      → (k == m) ≡ false
      → count (pending_of_monitor k) (update (of_outbox event m) delivered db.ledger.outbox)
        ≡ count (pending_of_monitor k) db.ledger.outbox
  outbox_other k other =
      count-update (pending_of_monitor k) (of_outbox event m) delivered db.ledger.outbox
        (λ r h. ground arith)

  monitor_tally :
      (row : Option MonitorRow)
      → find (of_id m) db.monitors ≡ row
      → column (λ r. r.pending_count) row ≡ count (pending_of_monitor m) db.ledger.outbox
      → find (of_id m) (update (has_pending m) one_less db.monitors) ≡ Option.map one_less row
  monitor_tally none e t = absurd (omega (arith, t, outbox_mine))
  monitor_tally (some row) e t =
      find-update_within (of_id m) (has_pending m) one_less db.monitors row e
        (ground (arith, find_sound (of_id m) db.monitors row e, t, outbox_mine))
        (λ r h. ground arith) (λ r h. ground arith)

  pub acknowledged : Db
  acknowledged = record db {
    monitors = update (has_pending m) one_less db.monitors;
    ledger = record (db.ledger) { outbox = update (of_outbox event m) delivered db.ledger.outbox };
  }

  mine_Tallies :
      Tallies m (find (of_id m) db.monitors) db.ledger
      → Tallies m (find (of_id m) acknowledged.monitors) acknowledged.ledger
  unfolding acknowledged
  mine_Tallies t = elim (Option-cases (find (of_id m) db.monitors)) [
    | inl absent ↦
        rw (monitor_tally none absent (ground (arith, t))) (ground (arith, t, outbox_mine))
    | inr (row, known) ↦
        rw (monitor_tally (some row) known (ground (arith, t))) (ground (arith, t, outbox_mine))
  ]

  other_Tallies :
      (k : ℕ)
      → (k == m) ≡ false
      → Tallies k (find (of_id k) db.monitors) db.ledger
      → Tallies k (find (of_id k) acknowledged.monitors) acknowledged.ledger
  unfolding acknowledged
  other_Tallies k other t =
      rw
        (
          find-update_other (of_id k) (has_pending m) one_less db.monitors (λ r h. ground arith)
              (λ r h. ground arith),
          outbox_other k other,
        )
        t

-- Acknowledging an event keeps the database of the watch sound.
pub acknowledge-IsSound :
    (m event : ℕ) (db db' : Db) → acknowledge m event db ≡ ok db' → IsSound db → IsSound db'
unfolding acknowledge acknowledged
acknowledge-IsSound m event db db' h s =
    let once : count (of_outbox event m) db.ledger.outbox ≡ 1 = ground arith in
    let same : acknowledged m event db once ≡ db' = ground arith in
    subst IsSound same (record {
      tallied = λ k. elim (Bool-cases (k == m)) [
        | inl mine ↦
            subst
              (λ i.
                Tallies i (find (of_id i) (acknowledged m event db once).monitors)
                  (acknowledged m event db once).ledger)
              (sym ((==_iff k m).0 mine)) (mine_Tallies m event db once (s.tallied m))
        | inr other ↦ other_Tallies m event db once k other (s.tallied k)
      ];
      consistent = record {
        counted_up = s.consistent.counted_up;
        numbered = s.consistent.numbered;
        linked = s.consistent.linked;
      };
      revised = s.revised;
    })
