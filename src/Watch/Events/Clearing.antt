-- ===== src/Watch/Events/Clearing.antt =====
-- `seal_events` clears every dirty interval of the monitor that has ended (watch/store_events.py).
use mathlib.Core.Path.{subst}
use watershed_memory.Base.{
  ℕ, ◌≡◌, refl, sym, Bool, true, false, ◌&&◌, ◌||◌, none, List, [], ◌∷◌, ok, >>=-eq-ok, ◌==◌, any,
  ltb, arith, inl, inr, Bool-cases, All, All-mono,
}
use watershed_memory.Base.Table.{find, select, delete}
use watershed_memory.Text.{Texts}
use watershed_memory.Watch.Records.{MonitorConfig}
use watershed_memory.Watch.Tables.{Dirty, Ledger}
use watershed_memory.Watch.Payloads.{Digests, insert_sorted, sort}
use watershed_memory.Watch.Events.{seal_interval, seal_all, is_due, seal_events, clear_dirty}
use watershed_memory.Watch.Events.Sealing.{seal_interval_split, Sealed-dirty}

module _ {ℓ} {A : Type ℓ} (p : A → Bool) (before : A → A → Bool) where
  any-insert_sorted : (x : A) (xs : List A) → any p (insert_sorted before x xs) ≡ (p x || any p xs)
  unfolding insert_sorted
  any-insert_sorted x [] = refl
  any-insert_sorted x (y ∷ ys) = ground (arith, any-insert_sorted x ys)

  any-sort : (xs : List A) → any p (sort before xs) ≡ any p xs
  unfolding sort
  any-sort [] = refl
  any-sort (x ∷ xs) = ground (arith, any-sort xs, any-insert_sorted x (sort before xs))

-- `key d x`: clearing the mark `d` deletes the row `x`. The rows that satisfy `due` are all deleted
-- when each has its key among the marks.
module _ {ℓ} {A : Type ℓ} (due : A → Bool) (key : A → A → Bool) where
  abbrev IsCovered : List A → A → Type 0
  IsCovered ds x = due x ≡ true → any (λ d. key d x) ds ≡ true

  clear_all : List A → List A → List A
  clear_all [] xs = xs
  clear_all (d ∷ ds) xs = clear_all ds (delete (key d) xs)

  IsCovered-delete :
      (d : A) (ds xs : List A)
      → All (IsCovered (d ∷ ds)) xs
      → All (IsCovered ds) (delete (key d) xs)
  unfolding delete
  IsCovered-delete d ds [] h = tt
  IsCovered-delete d ds (x ∷ xs) h = elim (Bool-cases (key d x)) [
    | inl hit ↦ rw hit (IsCovered-delete d ds xs h.1)
    | inr miss ↦ rw miss ((λ e. rw miss at (h.0 e)), IsCovered-delete d ds xs h.1)
  ]

  find-clear_all : (ds xs : List A) → All (IsCovered ds) xs → find due (clear_all ds xs) ≡ none
  unfolding clear_all find
  find-clear_all [] [] h = refl
  find-clear_all [] (x ∷ xs) h = ground (arith, h.0, find-clear_all [] xs h.1)
  find-clear_all (d ∷ ds) xs h = find-clear_all ds (delete (key d) xs) (IsCovered-delete d ds xs h)

  select_hit : (x : A) (xs : List A) → due x ≡ true → select due (x ∷ xs) ≡ x ∷ select due xs
  unfolding select
  select_hit x xs h = ground arith

  select_miss : (x : A) (xs : List A) → due x ≡ false → select due (x ∷ xs) ≡ select due xs
  unfolding select
  select_miss x xs h = ground arith

  select-IsCovered :
      ((x : A) → due x ≡ true → key x x ≡ true) → (xs : List A) → All (IsCovered (select due xs)) xs
  select-IsCovered self [] = tt
  select-IsCovered self (x ∷ xs) = elim (Bool-cases (due x)) [
    | inl hit ↦
        subst (λ ds. All (IsCovered ds) (x ∷ xs)) (sym (select_hit x xs hit))
          (
            (λ e. ground (arith, self x hit)),
            All-mono (IsCovered (select due xs)) (IsCovered (x ∷ select due xs)) xs
                (λ y k e. ground (arith, k e)) (select-IsCovered self xs),
          )
    | inr miss ↦
        subst (λ ds. All (IsCovered ds) (x ∷ xs)) (sym (select_miss x xs miss))
          ((λ e. cc), select-IsCovered self xs)
  ]

module _ (texts : Texts) (digests : Digests) (config : MonitorConfig) where
  abbrev same_mark : Dirty → Dirty → Bool
  same_mark d e = e.monitor_id == config.monitor_id && e.interval_start == d.interval_start

  seal_interval_dirty :
      (d : Dirty) (db db' : Ledger) (ids : List ℕ)
      → seal_interval texts digests config d db ≡ ok (db', ids)
      → db'.dirty ≡ delete (same_mark d) db.dirty
  unfolding clear_dirty
  seal_interval_dirty d db db' ids h =
      let (mid, sealed, e) = seal_interval_split texts digests config d db db' ids h in
      rw (e, Sealed-dirty texts digests config d db mid ids sealed)

  seal_all_dirty :
      (due : Dirty → Bool) (ds : List Dirty) (db db' : Ledger) (ids : List ℕ)
      → seal_all texts digests config ds db ≡ ok (db', ids)
      → db'.dirty ≡ clear_all due same_mark ds db.dirty
  unfolding seal_all clear_all
  seal_all_dirty due [] db db' ids h = ground arith
  seal_all_dirty due (d ∷ ds) db db' ids h =
      let ((mid, new), e, k) = >>=-eq-ok (seal_interval texts digests config d db) _ h in
      let ((last, rest), e', k') = >>=-eq-ok (seal_all texts digests config ds mid) _ k in
      let same : last ≡ db' = ground arith in
      rw (← same, ← seal_interval_dirty d db mid new e) (seal_all_dirty due ds mid last rest e')

  IsCovered-sort :
      (through : ℕ) (before : Dirty → Dirty → Bool) (ds : List Dirty) (x : Dirty)
      → IsCovered (is_due texts digests config through) same_mark ds x
      → IsCovered (is_due texts digests config through) same_mark (sort before ds) x
  IsCovered-sort through before ds x h e = rw (any-sort (λ d. same_mark d x) before ds) (h e)

  -- After sealing no dirty interval of the monitor that has ended is left.
  pub seal_events_clears :
      (through : ℕ) (db db' : Ledger) (ids : List ℕ)
      → seal_events texts digests config through db ≡ ok (db', ids)
      → find (is_due texts digests config through) db'.dirty ≡ none
  unfolding seal_events
  seal_events_clears through db db' ids h =
      let due : Dirty → Bool = is_due texts digests config through in
      let before : Dirty → Dirty → Bool = λ a b. ltb a.interval_start b.interval_start in
      rw (seal_all_dirty due (sort before (select due db.dirty)) db db' ids h) (
        find-clear_all due same_mark (sort before (select due db.dirty)) db.dirty (
          All-mono (IsCovered due same_mark (select due db.dirty))
            (IsCovered due same_mark (sort before (select due db.dirty))) db.dirty
            (IsCovered-sort through before (select due db.dirty))
            (select-IsCovered due same_mark (λ x e. ground arith) db.dirty)))
