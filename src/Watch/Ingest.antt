-- ===== src/Watch/Ingest.antt =====
-- watch/store_ingest.py and `mark_dirty` of watch/store_events.py: one attributed batch is applied
-- to the evidence tables inside the caller's transaction.
pub mod Counting
pub mod Consistency
pub mod Idempotence
pub mod Observations
use watershed_memory.Base.{
  ℕ, suc, ◌+◌, max, ◌≡◌, Bool, true, false, ◌&&◌, ◌||◌, Option, none, some, List, [], ◌∷◌, ◌++◌,
  Result, ok, err, source_error, data_conflict, ◌>>=◌, raise_if, ltb, leb, ◌==◌, length, is_some,
  if◌then◌else◌,
}
use watershed_memory.Base.Table.{find, update}
use watershed_memory.Base.Int.{ℤ}
use watershed_memory.Text.{Texts, text_lt}
use watershed_memory.Time.{microseconds, floor_to, plus_seconds}
use watershed_memory.Watch.Records.{MonitorConfig}
use watershed_memory.Watch.Tables.{
  Approval, Observation, SourceBatch, Cursor, Receipt, Version, Current, Dirty, Ledger,
}

-- What `Observation.semantic_hash` digests; publication metadata is left out.
pub record Measurement : Type 0 where
  pub station_id : ℕ
  pub series_id : ℕ
  pub parameter_code : ℕ
  pub statistic_id : Option ℕ
  pub observed_at : ℕ
  pub value : Option ℤ
  pub unit : ℕ
  pub approval_status : Approval
  pub qualifier : Option ℕ

unfoldable pub measurement : Observation → Measurement
measurement o = record {
  station_id = o.station_id;
  series_id = o.series_id;
  parameter_code = o.parameter_code;
  statistic_id = o.statistic_id;
  observed_at = o.observed_at;
  value = o.value;
  unit = o.unit;
  approval_status = o.approval_status;
  qualifier = o.qualifier;
}

-- The primary key (monitor_id, series_id, observed_at) of `observations_current`.
abbrev pub is_current : ℕ → ℕ → ℕ → Current → Bool
is_current m s t c = c.monitor_id == m && (c.series_id == s && c.observed_at == t)

abbrev pub is_version : ℕ → Version → Bool
is_version v row = row.version_id == v

-- `INSERT OR IGNORE INTO dirty_intervals`, whose key is (monitor_id, interval_start).
abbrev pub is_dirty : ℕ → ℕ → Dirty → Bool
is_dirty m s d = d.monitor_id == m && d.interval_start == s

unfoldable pub mark_dirty : MonitorConfig → ℕ → Ledger → Result Ledger
mark_dirty config observed db = do
  start ← floor_to (microseconds config.interval_seconds) observed
  end_at ← plus_seconds start config.interval_seconds
  ok (
      if is_some (find (is_dirty config.monitor_id start) db.dirty) then db else record db {
        dirty =
            db.dirty
            ++ record {
              monitor_id = config.monitor_id;
              interval_start = start;
              interval_end = end_at;
            }
              ∷ [];
      })

-- The tables and the two counters of the loop in `ingest`.
pub record Progress : Type 0 where
  pub ledger : Ledger
  pub new_count : ℕ
  pub corrected : ℕ

-- A row number of SQLite: one more than the number of rows, since none is ever deleted.
abbrev pub next_id {ℓ} : {A : Type ℓ} → List A → ℕ
next_id rows = suc (length rows)

module _ (texts : Texts) (sha : Measurement → ℕ) (config : MonitorConfig) (poll_id : ℕ) where
  abbrev item_key : Observation → Current → Bool
  item_key item = is_current config.monitor_id item.series_id item.observed_at

  -- `(modified, provider_id) > (last_seen_modified_at, last_seen_provider_id)`
  unfoldable pub newer_publication : Observation → Current → Bool
  newer_publication item c =
      ltb c.last_seen_modified_at item.source_modified_at
      || c.last_seen_modified_at == item.source_modified_at
        && text_lt (texts.chars c.last_seen_provider_id) (texts.chars item.provider_id)

  -- The branch for an unchanged measurement: only the publication metadata may move on.
  unfoldable pub refresh : Observation → Current → Ledger → Ledger
  refresh item c db =
      if newer_publication item c
      then record db {
        currents =
            update (item_key item)
              (λ r. record r {
                last_seen_modified_at = item.source_modified_at;
                last_seen_provider_id = item.provider_id;
                last_seen_poll_id = poll_id;
              })
              db.currents;
      }
      else db

  unfoldable pub new_version : Observation → Ledger → Version
  new_version item db = record {
    version_id = next_id db.versions;
    monitor_id = config.monitor_id;
    series_id = item.series_id;
    observed_at = item.observed_at;
    semantic_hash = sha (measurement item);
    value = item.value;
    unit = item.unit;
    approval_status = item.approval_status;
    qualifier = item.qualifier;
    source_modified_at = item.source_modified_at;
    provider_id = item.provider_id;
    poll_id = poll_id;
  }

  -- `INSERT INTO observations_current … ON CONFLICT … DO UPDATE`
  unfoldable pub put_current : Observation → ℕ → List Current → List Current
  put_current item version rows =
      if is_some (find (item_key item) rows)
      then update (item_key item)
          (λ r. record r {
            version_id = version;
            last_seen_modified_at = item.source_modified_at;
            last_seen_provider_id = item.provider_id;
            last_seen_poll_id = poll_id;
          })
          rows
      else rows
        ++ record {
          monitor_id = config.monitor_id;
          series_id = item.series_id;
          observed_at = item.observed_at;
          version_id = version;
          last_seen_modified_at = item.source_modified_at;
          last_seen_provider_id = item.provider_id;
          last_seen_poll_id = poll_id;
        }
          ∷ []

  -- `UPDATE series_cursors SET cursor=MAX(cursor,?)`
  unfoldable pub raise_cursor : Observation → List Cursor → List Cursor
  raise_cursor item =
      update (λ c. c.monitor_id == config.monitor_id && c.series_id == item.series_id)
        (λ c. record c { cursor = max c.cursor item.observed_at })

  -- A new version of a measurement, the first one (`known` false) or a correction.
  unfoldable pub store_version : Observation → Bool → Progress → Result Progress
  unfolding new_version put_current raise_cursor
  store_version item known p = do
    let version = new_version item p.ledger
    db ← mark_dirty config item.observed_at (record (p.ledger) {
      versions = p.ledger.versions ++ version ∷ [];
      currents = put_current item version.version_id p.ledger.currents;
      cursors = raise_cursor item p.ledger.cursors;
    })
    ok (record {
      ledger = db;
      new_count = if known then p.new_count else suc p.new_count;
      corrected = if known then suc p.corrected else p.corrected;
    })

  -- The measurement that the current row points at, by the JOIN on `version_id`.
  unfoldable pub current_of : Observation → Ledger → Option (Current × Version)
  current_of item db = elim (find (item_key item) db.currents) [
    | none ↦ none
    | some c ↦ elim (find (is_version c.version_id) db.versions) [
      | none ↦ none
      | some v ↦ some (c, v)
    ]
  ]

  -- What is done with an observation whose current row is `found`.
  unfoldable pub apply_item : Observation → Option (Current × Version) → Progress → Result Progress
  apply_item item none p = store_version item false p
  apply_item item (some (c, v)) p =
      if v.semantic_hash == sha (measurement item)
      then ok (record p { ledger = refresh item c p.ledger })
      else if leb item.source_modified_at c.last_seen_modified_at
      then err (source_error data_conflict none)
      else store_version item true p

  unfoldable pub ingest_item : Observation → Progress → Result Progress
  ingest_item item p = apply_item item (current_of item p.ledger) p

  unfoldable pub ingest_items : List Observation → Progress → Result Progress
  ingest_items [] p = ok p
  ingest_items (item ∷ rest) p = ingest_item item p >>= ingest_items rest

-- `ingest`
unfoldable pub ingest :
    Texts → (Measurement → ℕ) → MonitorConfig → SourceBatch → Ledger → Result Progress
ingest texts sha config batch db =
    let poll_id = next_id db.receipts in
    let receipt : Receipt = record {
      poll_id = poll_id;
      monitor_id = config.monitor_id;
      retrieved_at = batch.retrieved_at;
      start = batch.start;
      end = batch.end;
      pages = batch.pages;
    } in
    ingest_items texts sha config poll_id batch.observations (record {
      ledger = record db { receipts = db.receipts ++ receipt ∷ [] };
      new_count = 0;
      corrected = 0;
    })
