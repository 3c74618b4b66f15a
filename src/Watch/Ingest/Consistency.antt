-- ===== src/Watch/Ingest/Consistency.antt =====
-- Version numbers stay unused beyond the table, and current rows point at stored versions
-- (the keys of `observation_versions` and `observations_current` under watch/store_ingest.py).
use watershed_memory.Base.{
  ℕ, suc, ◌+◌, ◌≤◌, ◌≡◌, refl, Bool, true, false, Option, none, some, List, [], ◌∷◌, ◌<◌, All-mono,
  ◌++◌, ok, >>=-eq-ok, ◌==◌, ==_refl, length, length-append, ascending, ascending_snoc, is_some,
  arith, inl, inr, Bool-cases, All, All-append,
}
use watershed_memory.Base.Table.{find, is_some-find-append, is_some-find-snoc, All-update}
use watershed_memory.Text.{Texts}
use watershed_memory.Watch.Records.{MonitorConfig}
use watershed_memory.Watch.Tables.{Observation, Version, Current, Ledger}
use watershed_memory.Watch.Ingest.{
  Measurement, measurement, is_current, is_version, Progress, newer_publication, refresh,
  new_version, put_current, store_version, current_of, apply_item, ingest_item, ingest_items,
}
use watershed_memory.Watch.Ingest.Counting.{store_version_tables}

-- Version numbers do not pass the number of versions, so the next one is unused.
abbrev pub Numbered : ℕ → List Version → Type 0
Numbered n = All (λ v. v.version_id ≤ n)

-- The foreign key of `observations_current`: every current row points at a stored version.
abbrev pub Points : List Version → Current → Type 0
Points versions c = is_some (find (is_version c.version_id) versions) ≡ true

abbrev pub version_ids : List Version → List ℕ
version_ids [] = []
version_ids (v ∷ vs) = v.version_id ∷ version_ids vs

version_ids-append :
    (xs ys : List Version) → version_ids (xs ++ ys) ≡ version_ids xs ++ version_ids ys
version_ids-append [] ys = refl
version_ids-append (x ∷ xs) ys = ground (arith, version_ids-append xs ys)

-- The version numbers are 1, 2, 3, … in the order of the table, which bounds them, and current rows
-- point at stored versions.
pub record IsConsistent (db : Ledger) : Type 0 where
  pub counted_up : version_ids db.versions ≡ ascending 0 (length db.versions)
  pub numbered : Numbered (length db.versions) db.versions
  pub linked : All (Points db.versions) db.currents

pub find_above :
    (n k : ℕ) (xs : List Version) → Numbered n xs → n < k → find (is_version k) xs ≡ none
unfolding find
find_above n k [] h l = refl
find_above n k (x ∷ xs) h l = ground (arith, find_above n k xs h.1 l)

Numbered-append :
    (xs : List Version) (v : Version)
    → v.version_id ≡ suc (length xs)
    → Numbered (length xs) xs
    → Numbered (length (xs ++ v ∷ [])) (xs ++ v ∷ [])
Numbered-append xs v e h = rw length-append (
    All-append (λ (w : Version). w.version_id ≤ length xs + 1) xs (v ∷ [])
      (All-mono (λ (w : Version). w.version_id ≤ length xs)
        (λ (w : Version). w.version_id ≤ length xs + 1) xs (λ w k. omega arith) h)
      (omega arith, tt))

module _ (texts : Texts) (sha : Measurement → ℕ) (config : MonitorConfig) (poll_id : ℕ) where
  put_current-Points :
      (item : Observation) (k : ℕ) (vs : List Version) (rows : List Current)
      → is_some (find (is_version k) vs) ≡ true
      → All (Points vs) rows
      → All (Points vs) (put_current texts sha config poll_id item k rows)
  unfolding put_current
  put_current-Points item k vs rows new old =
      elim (Bool-cases
        (is_some (find (is_current config.monitor_id item.series_id item.observed_at) rows))) [
          | inl known ↦ rw known (All-update (Points vs) _ _ rows (λ c _. new) old)
          | inr unknown ↦ rw unknown (All-append (Points vs) rows _ old (new, tt))
        ]

  store_version-IsConsistent :
      (item : Observation) (known : Bool) (p q : Progress)
      → store_version texts sha config poll_id item known p ≡ ok q
      → IsConsistent p.ledger
      → IsConsistent q.ledger
  unfolding new_version
  store_version-IsConsistent item known p q h i =
      let v : Version = new_version texts sha config poll_id item p.ledger in
      let (vs, cs, _, _) = store_version_tables texts sha config poll_id item known p q h in
      record {
        counted_up = ground (
          arith,
          vs,
          i.counted_up,
          version_ids-append p.ledger.versions (v ∷ []),
          length-append p.ledger.versions (v ∷ []),
          ascending_snoc 0 (length p.ledger.versions),
        );
        numbered = rw vs (Numbered-append p.ledger.versions v refl i.numbered);
        linked =
            rw (vs, cs)
              (put_current-Points item v.version_id (p.ledger.versions ++ v ∷ []) p.ledger.currents
                (is_some-find-snoc (is_version v.version_id) p.ledger.versions v
                  (==_refl v.version_id))
                (All-mono (Points p.ledger.versions) (Points (p.ledger.versions ++ v ∷ []))
                  p.ledger.currents
                  (λ c k.
                    is_some-find-append (is_version c.version_id) p.ledger.versions (v ∷ []) k)
                  i.linked));
      }

  refresh-IsConsistent :
      (item : Observation) (c : Current) (db : Ledger)
      → IsConsistent db
      → IsConsistent (refresh texts sha config poll_id item c db)
  unfolding refresh
  refresh-IsConsistent item c db i =
      elim (Bool-cases (newer_publication texts sha config poll_id item c)) [
        | inl newer ↦ rw newer (record {
          counted_up = i.counted_up;
          numbered = i.numbered;
          linked = All-update (Points db.versions) _ _ db.currents (λ r k. k) i.linked;
        })
        | inr older ↦ rw older i
      ]

  pub apply_item-IsConsistent :
      (item : Observation) (found : Option (Current × Version)) (p q : Progress)
      → apply_item texts sha config poll_id item found p ≡ ok q
      → IsConsistent p.ledger
      → IsConsistent q.ledger
  unfolding apply_item
  apply_item-IsConsistent item none p q h i = store_version-IsConsistent item false p q h i
  apply_item-IsConsistent item (some (c, v)) p q h i =
      elim (Bool-cases (v.semantic_hash == sha (measurement item))) [
        | inl same ↦
            let e : record p { ledger = refresh texts sha config poll_id item c p.ledger } ≡ q =
              ground arith in
            rw (← e) (refresh-IsConsistent item c p.ledger i)
        | inr differs ↦ store_version-IsConsistent item true p q (ground arith) i
      ]

  pub ingest_items-IsConsistent :
      (items : List Observation) (p q : Progress)
      → ingest_items texts sha config poll_id items p ≡ ok q
      → IsConsistent p.ledger
      → IsConsistent q.ledger
  unfolding ingest_items ingest_item
  ingest_items-IsConsistent [] p q h i = let e : p ≡ q = ground arith in rw (← e) i
  ingest_items-IsConsistent (item ∷ rest) p q h i =
      let (r, e, k) = >>=-eq-ok (ingest_item texts sha config poll_id item p) _ h in
      ingest_items-IsConsistent rest r q k
        (apply_item-IsConsistent item (current_of texts sha config poll_id item p.ledger) p r e i)
