-- ===== src/Watch/Ingest/Counting.antt =====
-- What one observation, and then a batch, adds to the evidence tables (watch/store_ingest.py).
use watershed_memory.Base.{
  ℕ, suc, ◌+◌, ◌≡◌, Bool, true, false, Option, none, some, List, [], ◌∷◌, ◌++◌, ok, >>=-eq-ok, ◌==◌,
  if◌then◌else◌, arith,
}
use watershed_memory.Base.Table.{count, count-append}
use watershed_memory.Text.{Texts}
use watershed_memory.Watch.Records.{MonitorConfig}
use watershed_memory.Watch.Tables.{Observation, Version, Current, Ledger}
use watershed_memory.Watch.Ingest.{
  Measurement, mark_dirty, Progress, refresh, new_version, put_current, store_version, current_of,
  apply_item, ingest_item, ingest_items,
}

-- Only the dirty table changes.
pub mark_dirty_tables :
    (config : MonitorConfig) (t : ℕ) (db : Ledger) {db' : Ledger}
    → mark_dirty config t db ≡ ok db'
    → (db'.versions ≡ db.versions)
      × (db'.currents ≡ db.currents)
      × (db'.events ≡ db.events)
      × (db'.outbox ≡ db.outbox)
unfolding mark_dirty
mark_dirty_tables config t db h = ground arith

abbrev pub of_monitor : ℕ → Version → Bool
of_monitor m v = v.monitor_id == m

-- What `stored` rows a monitor gained, if it is the monitor of the batch.
abbrev pub gained : MonitorConfig → ℕ → ℕ → ℕ
gained config m n = if config.monitor_id == m then n else 0

module _ (texts : Texts) (sha : Measurement → ℕ) (config : MonitorConfig) (poll_id : ℕ) where
  -- Storing a version appends it, points the current row at it, and counts it once.
  pub store_version_tables :
      (item : Observation) (known : Bool) (p q : Progress)
      → store_version texts sha config poll_id item known p ≡ ok q
      → let v = new_version texts sha config poll_id item p.ledger in
        (q.ledger.versions ≡ p.ledger.versions ++ v ∷ [])
        × (q.ledger.currents
            ≡ put_current texts sha config poll_id item v.version_id p.ledger.currents)
        × (q.new_count ≡ (if known then p.new_count else suc p.new_count))
        × (q.corrected ≡ (if known then suc p.corrected else p.corrected))
  unfolding store_version mark_dirty
  store_version_tables item known p q h = ground arith

  pub refresh_versions :
      (item : Observation) (c : Current) (db : Ledger)
      → (refresh texts sha config poll_id item c db).versions ≡ db.versions
  unfolding refresh
  refresh_versions item c db = ground arith

  -- Balanced form: versions gained by a monitor against the two counters.
  abbrev pub Counted : ℕ → Progress → Progress → Type 0
  Counted m p q =
      count (of_monitor m) q.ledger.versions + gained config m (p.new_count + p.corrected)
      ≡ count (of_monitor m) p.ledger.versions + gained config m (q.new_count + q.corrected)

  store_version-Counted :
      (m : ℕ) (item : Observation) (known : Bool) (p q : Progress)
      → store_version texts sha config poll_id item known p ≡ ok q
      → Counted m p q
  unfolding count new_version
  store_version-Counted m item known p q h = ground (
    arith,
    count-append (of_monitor m) p.ledger.versions
        (new_version texts sha config poll_id item p.ledger ∷ []),
    store_version_tables item known p q h,
  )

  apply_item-Counted :
      (m : ℕ) (item : Observation) (found : Option (Current × Version)) (p q : Progress)
      → apply_item texts sha config poll_id item found p ≡ ok q
      → Counted m p q
  unfolding apply_item
  apply_item-Counted m item none p q h = store_version-Counted m item false p q h
  apply_item-Counted m item (some (c, v)) p q h =
      ground (arith, store_version-Counted m item true p q, refresh_versions item c p.ledger)

  pub ingest_items-Counted :
      (m : ℕ) (items : List Observation) (p q : Progress)
      → ingest_items texts sha config poll_id items p ≡ ok q
      → Counted m p q
  unfolding ingest_items ingest_item
  ingest_items-Counted m [] p q h = ground arith
  ingest_items-Counted m (item ∷ rest) p q h =
      let (r, e, k) = >>=-eq-ok (ingest_item texts sha config poll_id item p) _ h in
      omega (
        arith,
        apply_item-Counted m item (current_of texts sha config poll_id item p.ledger) p r e,
        ingest_items-Counted m rest r q k,
      )

  -- Ingesting adds no event: sealing does.
  abbrev pub KeepsEvents : Ledger → Ledger → Type 0
  KeepsEvents db db' = (db'.events ≡ db.events) × (db'.outbox ≡ db.outbox)

  apply_item-KeepsEvents :
      (item : Observation) (found : Option (Current × Version)) (p q : Progress)
      → apply_item texts sha config poll_id item found p ≡ ok q
      → KeepsEvents p.ledger q.ledger
  unfolding apply_item store_version mark_dirty refresh
  apply_item-KeepsEvents item none p q h = ground arith
  apply_item-KeepsEvents item (some (c, v)) p q h = ground arith

  pub ingest_items-KeepsEvents :
      (items : List Observation) (p q : Progress)
      → ingest_items texts sha config poll_id items p ≡ ok q
      → KeepsEvents p.ledger q.ledger
  unfolding ingest_items ingest_item
  ingest_items-KeepsEvents [] p q h = ground arith
  ingest_items-KeepsEvents (item ∷ rest) p q h =
      let (r, e, k) = >>=-eq-ok (ingest_item texts sha config poll_id item p) _ h in
      ground (
        arith,
        apply_item-KeepsEvents item (current_of texts sha config poll_id item p.ledger) p r e,
        ingest_items-KeepsEvents rest r q k,
      )
