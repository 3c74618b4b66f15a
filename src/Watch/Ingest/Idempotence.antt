-- ===== src/Watch/Ingest/Idempotence.antt =====
-- Taking in the same observation again changes nothing, and publication times never move back
-- (the two branches of watch/store_ingest.py that find a current row).
use watershed_memory.Base.{
  ℕ, ◌≡◌, refl, Bool, true, false, some, List, [], ◌∷◌, ok, ◌==◌, length, arith, inl, inr,
  Bool-cases, Option-cases,
}
use watershed_memory.Base.Table.{find, find-append_none, find-update_self}
use watershed_memory.Text.{Texts, text_lt}
use watershed_memory.Watch.Records.{MonitorConfig}
use watershed_memory.Watch.Tables.{Observation, Version, Current, Ledger}
use watershed_memory.Watch.Ingest.{
  Measurement, measurement, is_current, is_version, Progress, newer_publication, refresh,
  new_version, put_current, store_version, current_of, apply_item, ingest_item,
}
use watershed_memory.Watch.Ingest.Counting.{store_version_tables}
use watershed_memory.Watch.Ingest.Consistency.{IsConsistent, find_above}

text_lt_irrefl : (s : List ℕ) → text_lt s s ≡ false
unfolding text_lt
text_lt_irrefl [] = refl
text_lt_irrefl (c ∷ s) = ground (arith, text_lt_irrefl s)

module _ (texts : Texts) (sha : Measurement → ℕ) (config : MonitorConfig) (poll_id : ℕ) where
  -- What the tables hold for an observation that has been taken in: its measurement, with
  -- publication metadata that are not older.
  abbrev pub IsTakenIn : Observation → Ledger → Type 0
  IsTakenIn item db =
      (c : Current) × (v : Version) × (current_of texts sha config poll_id item db ≡ some (c, v))
      × (v.semantic_hash ≡ sha (measurement item))
      × (newer_publication texts sha config poll_id item c ≡ false)

  abbrev stamp : Observation → ℕ → Current → Current
  stamp item k r = record r {
    version_id = k;
    last_seen_modified_at = item.source_modified_at;
    last_seen_provider_id = item.provider_id;
    last_seen_poll_id = poll_id;
  }

  abbrev restamp : Observation → Current → Current
  restamp item r = record r {
    last_seen_modified_at = item.source_modified_at;
    last_seen_provider_id = item.provider_id;
    last_seen_poll_id = poll_id;
  }

  abbrev added : Observation → ℕ → Current
  added item k = record {
    monitor_id = config.monitor_id;
    series_id = item.series_id;
    observed_at = item.observed_at;
    version_id = k;
    last_seen_modified_at = item.source_modified_at;
    last_seen_provider_id = item.provider_id;
    last_seen_poll_id = poll_id;
  }

  not_newer :
      (item : Observation) (c : Current)
      → c.last_seen_modified_at ≡ item.source_modified_at
      → c.last_seen_provider_id ≡ item.provider_id
      → newer_publication texts sha config poll_id item c ≡ false
  unfolding newer_publication
  not_newer item c e f = rw f (ground (arith, text_lt_irrefl (texts.chars item.provider_id)))

  find-put_current :
      (item : Observation) (k : ℕ) (rows : List Current)
      → (c : Current) × (find
            (is_current config.monitor_id item.series_id item.observed_at)
            (put_current texts sha config poll_id item k rows)
          ≡ some c)
        × (c.version_id ≡ k)
        × (newer_publication texts sha config poll_id item c ≡ false)
  unfolding put_current find
  find-put_current item k rows =
      elim (Option-cases
        (find (is_current config.monitor_id item.series_id item.observed_at) rows)) [
          | inl unknown ↦ (
            added item k,
            ground (
              arith,
              find-append_none (is_current config.monitor_id item.series_id item.observed_at) rows
                  (added item k ∷ []) unknown,
            ),
            refl,
            not_newer item (added item k) refl refl,
          )
          | inr (c, known) ↦ (
            stamp item k c,
            ground (
              arith,
              find-update_self (is_current config.monitor_id item.series_id item.observed_at)
                  (stamp item k) rows (λ a h. h),
            ),
            refl,
            not_newer item (stamp item k c) refl refl,
          )
        ]

  current_of_found :
      (item : Observation) (db : Ledger) (c : Current) (v : Version)
      → find (is_current config.monitor_id item.series_id item.observed_at) db.currents ≡ some c
      → find (is_version c.version_id) db.versions ≡ some v
      → current_of texts sha config poll_id item db ≡ some (c, v)
  unfolding current_of
  current_of_found item db c v found stored = ground arith

  store_version-IsTakenIn :
      (item : Observation) (known : Bool) (p q : Progress)
      → store_version texts sha config poll_id item known p ≡ ok q
      → IsConsistent p.ledger
      → IsTakenIn item q.ledger
  unfolding new_version current_of find
  store_version-IsTakenIn item known p q h i =
      let v : Version = new_version texts sha config poll_id item p.ledger in
      let (vs, cs, _, _) = store_version_tables texts sha config poll_id item known p q h in
      let (c, found, points, older) = find-put_current item v.version_id p.ledger.currents in
      (
        c,
        v,
        current_of_found item q.ledger c v (rw cs found) (
            rw vs (
              ground (
                arith,
                find-append_none (is_version c.version_id) p.ledger.versions (v ∷ []),
                find_above (length p.ledger.versions) c.version_id p.ledger.versions i.numbered,
              ))),
        refl,
        older,
      )

  refresh-IsTakenIn :
      (item : Observation) (c : Current) (v : Version) (db : Ledger)
      → current_of texts sha config poll_id item db ≡ some (c, v)
      → v.semantic_hash ≡ sha (measurement item)
      → IsTakenIn item (refresh texts sha config poll_id item c db)
  unfolding refresh current_of
  refresh-IsTakenIn item c v db found same =
      elim (Bool-cases (newer_publication texts sha config poll_id item c)) [
        | inr older ↦ rw older (c, v, found, same, older)
        | inl newer ↦ rw newer (
          stamp item c.version_id c,
          v,
          ground (
            arith,
            find-update_self (is_current config.monitor_id item.series_id item.observed_at)
                (restamp item) db.currents (λ a h. h),
          ),
          same,
          not_newer item (stamp item c.version_id c) refl refl,
        )
      ]

  apply_item-IsTakenIn :
      (item : Observation) (p q : Progress)
      → ingest_item texts sha config poll_id item p ≡ ok q
      → IsConsistent p.ledger
      → IsTakenIn item q.ledger
  unfolding ingest_item apply_item
  apply_item-IsTakenIn item p q h i =
      elim (Option-cases (current_of texts sha config poll_id item p.ledger)) [
        | inl unknown ↦ store_version-IsTakenIn item false p q (rw unknown at h) i
        | inr ((c, v), known) ↦ elim (Bool-cases (v.semantic_hash == sha (measurement item))) [
          | inl same ↦
              let e : record p { ledger = refresh texts sha config poll_id item c p.ledger } ≡ q =
                ground arith in
              rw (← e) (refresh-IsTakenIn item c v p.ledger known (ground arith))
          | inr differs ↦ store_version-IsTakenIn item true p q (ground arith) i
        ]
      ]

  -- Neither the search for a current row nor the order of publications depends on the poll.
  current_of_any_poll :
      (later : ℕ) (item : Observation) (db : Ledger)
      → current_of texts sha config later item db ≡ current_of texts sha config poll_id item db
  unfolding current_of
  current_of_any_poll later item db = refl

  newer_publication_any_poll :
      (later : ℕ) (item : Observation) (c : Current)
      → newer_publication texts sha config later item c
        ≡ newer_publication texts sha config poll_id item c
  unfolding newer_publication
  newer_publication_any_poll later item c = refl

  -- Where versions are numbered and current rows point at them, an observation that was taken in
  -- by one poll is taken in again by any other poll without any change of the tables or the
  -- counters.
  pub ingest_item_idem :
      (later : ℕ) (item : Observation) (p q : Progress)
      → IsConsistent p.ledger
      → ingest_item texts sha config poll_id item p ≡ ok q
      → ingest_item texts sha config later item q ≡ ok q
  unfolding ingest_item apply_item refresh
  ingest_item_idem later item p q i h =
      let (c, v, found, same, older) = apply_item-IsTakenIn item p q h i in
      let seen = newer_publication_any_poll later item c in
      rw (current_of_any_poll later item q.ledger, found) (ground arith)
