-- ===== src/Watch/Ingest/Observations.antt =====
-- One current row for each observation that was new (watch/store_ingest.py): a correction or a
-- repetition changes a row that is there.
use mathlib.Core.Path.{subst}
use watershed_memory.Base.{
  ℕ, ◌+◌, ◌≡◌, refl, Bool, true, false, none, some, List, [], ◌∷◌, ok, >>=-eq-ok, ◌==◌, is_some,
  arith, inl, inr, Bool-cases, Option-cases, All,
}
use watershed_memory.Base.Table.{find, count, count-append, count-update}
use watershed_memory.Text.{Texts}
use watershed_memory.Watch.Records.{MonitorConfig}
use watershed_memory.Watch.Tables.{Observation, Version, Current}
use watershed_memory.Watch.Ingest.{
  Measurement, measurement, is_current, Progress, newer_publication, refresh, put_current,
  current_of, apply_item, ingest_item, ingest_items,
}
use watershed_memory.Watch.Ingest.Counting.{gained, store_version_tables}
use watershed_memory.Watch.Ingest.Consistency.{IsConsistent, Points, apply_item-IsConsistent}

abbrev pub current_of_monitor : ℕ → Current → Bool
current_of_monitor m c = c.monitor_id == m

All-find {ℓ κ} :
    {A : Type ℓ} (P : A → Type κ) (p : A → Bool) (xs : List A) (a : A)
    → find p xs ≡ some a
    → All P xs
    → P a
unfolding find
All-find P p [] a h k = cc
All-find P p (x ∷ xs) a h k = elim (Bool-cases (p x)) [
  | inl yes_x ↦ let e : x ≡ a = ground arith in subst P e k.0
  | inr no_x ↦ All-find P p xs a (ground arith) k.1
]

module _ (texts : Texts) (sha : Measurement → ℕ) (config : MonitorConfig) (poll_id : ℕ) where
  -- Where current rows point at versions, an observation without a current measurement has no row.
  absent_row :
      (item : Observation) (p : Progress)
      → IsConsistent p.ledger
      → current_of texts sha config poll_id item p.ledger ≡ none
      → find (is_current config.monitor_id item.series_id item.observed_at) p.ledger.currents ≡ none
  unfolding current_of
  absent_row item p i h =
      elim (Option-cases
        (find (is_current config.monitor_id item.series_id item.observed_at) p.ledger.currents)) [
          | inl unknown ↦ unknown
          | inr (c, known) ↦
              let points =
                All-find (Points p.ledger.versions) _ p.ledger.currents c known i.linked in
              ground arith
        ]

  present_row :
      (item : Observation) (p : Progress) (c : Current) (v : Version)
      → current_of texts sha config poll_id item p.ledger ≡ some (c, v)
      → is_some
          (find (is_current config.monitor_id item.series_id item.observed_at) p.ledger.currents)
        ≡ true
  unfolding current_of
  present_row item p c v h =
      elim (Option-cases
        (find (is_current config.monitor_id item.series_id item.observed_at) p.ledger.currents)) [
          | inl unknown ↦ ground arith
          | inr (r, known) ↦ ground arith
        ]

  count-put_current_new :
      (m : ℕ) (item : Observation) (k : ℕ) (rows : List Current)
      → find (is_current config.monitor_id item.series_id item.observed_at) rows ≡ none
      → count (current_of_monitor m) (put_current texts sha config poll_id item k rows)
        ≡ count (current_of_monitor m) rows + gained config m 1
  unfolding put_current count
  count-put_current_new m item k rows h = rw (h, count-append) (ground arith)

  count-put_current_known :
      (m : ℕ) (item : Observation) (k : ℕ) (rows : List Current)
      → is_some (find (is_current config.monitor_id item.series_id item.observed_at) rows) ≡ true
      → count (current_of_monitor m) (put_current texts sha config poll_id item k rows)
        ≡ count (current_of_monitor m) rows
  unfolding put_current
  count-put_current_known m item k rows h =
      rw h (count-update (current_of_monitor m) _ _ rows (λ a e. refl))

  count-refresh :
      (m : ℕ) (item : Observation) (c : Current) (p : Progress)
      → count (current_of_monitor m) (refresh texts sha config poll_id item c p.ledger).currents
        ≡ count (current_of_monitor m) p.ledger.currents
  unfolding refresh
  count-refresh m item c p = elim (Bool-cases (newer_publication texts sha config poll_id item c)) [
    | inl newer ↦ rw newer (count-update (current_of_monitor m) _ _ p.ledger.currents (λ a e. refl))
    | inr older ↦ rw older
  ]

  -- Balanced form: current rows gained by a monitor against the counter of new observations.
  abbrev pub Observed : ℕ → Progress → Progress → Type 0
  Observed m p q =
      count (current_of_monitor m) q.ledger.currents + gained config m p.new_count
      ≡ count (current_of_monitor m) p.ledger.currents + gained config m q.new_count

  ingest_item-Observed :
      (m : ℕ) (item : Observation) (p q : Progress)
      → IsConsistent p.ledger
      → ingest_item texts sha config poll_id item p ≡ ok q
      → Observed m p q
  unfolding ingest_item apply_item
  ingest_item-Observed m item p q i h =
      elim (Option-cases (current_of texts sha config poll_id item p.ledger)) [
        | inl unknown ↦
            let (_, cs, new, _) =
              store_version_tables texts sha config poll_id item false p q (rw unknown at h) in
            rw
              (
                cs,
                new,
                count-put_current_new m item _ p.ledger.currents (absent_row item p i unknown),
              )
              (ground arith)
        | inr ((c, v), known) ↦ elim (Bool-cases (v.semantic_hash == sha (measurement item))) [
          | inl same ↦
              let e : record p { ledger = refresh texts sha config poll_id item c p.ledger } ≡ q =
                ground arith in
              rw (← e, count-refresh m item c p)
          | inr differs ↦
              let (_, cs, new, _) =
                store_version_tables texts sha config poll_id item true p q (ground arith) in
              rw (
                cs,
                new,
                count-put_current_known m item _ p.ledger.currents (present_row item p c v known),
              )
        ]
      ]

  pub ingest_items-Observed :
      (m : ℕ) (items : List Observation) (p q : Progress)
      → IsConsistent p.ledger
      → ingest_items texts sha config poll_id items p ≡ ok q
      → Observed m p q
  unfolding ingest_items ingest_item
  ingest_items-Observed m [] p q i h = ground arith
  ingest_items-Observed m (item ∷ rest) p q i h =
      let (r, e, k) = >>=-eq-ok (ingest_item texts sha config poll_id item p) _ h in
      let j =
        apply_item-IsConsistent texts sha config poll_id item
          (current_of texts sha config poll_id item p.ledger) p r e i in
      omega (arith, ingest_item-Observed m item p r i e, ingest_items-Observed m rest r q j k)
