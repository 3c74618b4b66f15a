-- ===== src/Dispatch/Accounts.antt =====
-- The accounts of the dispatcher: an event of a case has one outcome at most, and the counters of a
-- case are the outcomes of its kinds (current/dispatch_store.py, current/dispatch_schema.py).
use mathlib.Core.Option
use watershed_memory.Base.{
  ℕ, ◌+◌, ◌≤◌, ◌≡◌, refl, sym, ap, ◌∙◌, Bool, true, false, ◌&&◌, Option, none, some, is_some, ok,
  >>=-eq-ok, List, [], ◌∷◌, ◌++◌, length, ◌==◌, if◌then◌else◌, inl, inr, Bool-cases, ==_iff, arith,
}
use mathlib.Core.Path.{subst}
use watershed_memory.Base.Table.{
  find, update, count, count-append, count-none, find-update_self, find-update_other,
}
use watershed_memory.Base.Keys.{count-snoc_le}
use watershed_memory.Delivery.Records.{acknowledge}
use watershed_memory.Delivery.Outbox.{acknowledge-IsSound}
use watershed_memory.Delivery.Journals.{IsJournalSound}
use watershed_memory.Dispatch.Records.{
  Setting, OutcomeKind, history, skipped, assessed, Outcome, DispatchDb, of_setting, of_outcome,
}
use watershed_memory.Dispatch.Queue.{
  Place, add_outcome, take_event, history_outcome, pass_over, set_setting,
}

unfoldable pub eq_outcome : OutcomeKind → OutcomeKind → Bool
eq_outcome history history = true
eq_outcome skipped skipped = true
eq_outcome assessed assessed = true
eq_outcome _ _ = false

abbrev pub is_kind : ℕ → OutcomeKind → Outcome → Bool
is_kind c k o = o.case_id == c && eq_outcome o.kind k

abbrev pub setting_count : (Setting → ℕ) → Option Setting → ℕ
setting_count f none = 0
setting_count f (some s) = f s

abbrev pub has_started : Option Setting → Bool
has_started none = false
has_started (some s) = is_some s.initial_event_id

-- The counters of a case against the outcomes; before the first event there is no history.
pub record Accounts (c : ℕ) (s : Option Setting) (outcomes : List Outcome) : Type 0 where
  pub skips : setting_count (λ s. s.suppressed_count) s ≡ count (is_kind c skipped) outcomes
  pub past : setting_count (λ s. s.history_count) s ≡ count (is_kind c history) outcomes
  pub blank : has_started s ≡ false → count (is_kind c history) outcomes ≡ 0

pub record IsDispatchSound (db : DispatchDb) : Type 0 where
  pub journal : IsJournalSound db.journal
  pub once : (c e : ℕ) → count (of_outcome c e) db.outcomes ≤ 1
  pub accounts : (c : ℕ) → Accounts c (find (of_setting c) db.settings) db.outcomes

-- Outcomes of one case were added, so many of each kind, and the journal is as sound as it was.
pub record Growth (c0 : ℕ) (n : OutcomeKind → ℕ) (db db' : DispatchDb) : Type 0 where
  pub settings : db'.settings ≡ db.settings
  pub once :
      ((c e : ℕ) → count (of_outcome c e) db.outcomes ≤ 1)
      → (c e : ℕ) → count (of_outcome c e) db'.outcomes ≤ 1
  pub counted :
      (c : ℕ) (k : OutcomeKind)
      → count (is_kind c k) db'.outcomes
        ≡ count (is_kind c k) db.outcomes + (if c == c0 then n k else 0)
  pub journal : IsJournalSound db.journal → IsJournalSound db'.journal

pub Growth-trans :
    (c0 : ℕ) (n m : OutcomeKind → ℕ) (a b c : DispatchDb)
    → Growth c0 n a b
    → Growth c0 m b c
    → Growth c0 (λ k. n k + m k) a c
Growth-trans c0 n m a b c g h = record {
  settings = h.settings ∙ g.settings;
  once = λ o. h.once (g.once o);
  counted = λ x k. ground (arith, g.counted x k, h.counted x k);
  journal = λ j. h.journal (g.journal j);
}

abbrev one_of : OutcomeKind → OutcomeKind → ℕ
one_of k j = if eq_outcome k j then 1 else 0

no_other :
    (c e : ℕ) (o : Outcome) (rows : List Outcome)
    → of_outcome c e o ≡ true
    → find (of_outcome o.case_id o.event_id) rows ≡ none
    → count (of_outcome c e) rows ≡ 0
no_other c e o rows hit new =
    let case : o.case_id ≡ c = (==_iff o.case_id c).0 (ground arith) in
    let event : o.event_id ≡ e = (==_iff o.event_id e).0 (ground arith) in
    count-none (of_outcome c e) rows (
      subst (λ x. find (of_outcome c x) rows ≡ none) event
        (subst (λ x. find (of_outcome x o.event_id) rows ≡ none) case new))

one_more :
    (c : ℕ) (k : OutcomeKind) (o : Outcome) (rows : List Outcome)
    → count (is_kind c k) rows + count (is_kind c k) (o ∷ [])
      ≡ count (is_kind c k) rows + (if c == o.case_id then one_of o.kind k else 0)
unfolding count
one_more c k o rows = ground arith

pub add_outcome-Growth :
    (o : Outcome) (db db' : DispatchDb)
    → add_outcome o db ≡ ok db'
    → Growth o.case_id (one_of o.kind) db db'
unfolding add_outcome
add_outcome-Growth o db db' h =
    let new : find (of_outcome o.case_id o.event_id) db.outcomes ≡ none = ground arith in
    let rows : db'.outcomes ≡ db.outcomes ++ o ∷ [] = ground arith in
    let same : db'.journal ≡ db.journal = ground arith in
    record {
      settings = ground arith;
      once = λ u c e. rw rows (
          count-snoc_le (of_outcome c e) db.outcomes o 1 (u c e)
            (λ hit. ground (arith, no_other c e o db.outcomes hit new)));
      counted = λ c k.
          rw (rows, count-append (is_kind c k) db.outcomes (o ∷ [])) (one_more c k o db.outcomes);
      journal = λ j. subst IsJournalSound (sym same) j;
    }

pub take_event-Growth :
    (c m e : ℕ) (db db' : DispatchDb) → take_event m e db ≡ ok db' → Growth c (λ k. 0) db db'
unfolding take_event
take_event-Growth c m e db db' h =
    let (watch, acked, k) = >>=-eq-ok (acknowledge m e db.journal.work.watch) _ h in
    let journal = record (db.journal) { work = record (db.journal.work) { watch = watch } } in
    let done : record db { journal = journal } ≡ db' = ground arith in
    subst (Growth c (λ k. 0) db) done (record {
      settings = refl;
      once = λ u. u;
      counted = λ c k. ground arith;
      journal = λ j. record {
        balanced = record {
          charged = j.balanced.charged;
          capped = j.balanced.capped;
          keys = j.balanced.keys;
          held = j.balanced.held;
        };
        sound = record {
          unique = j.sound.unique;
          watched = acknowledge-IsSound m e db.journal.work.watch watch acked j.sound.watched;
        };
      };
    })

abbrev pub passed : ℕ → OutcomeKind → ℕ
passed n k = if eq_outcome history k then n else 0

pub pass_over-Growth :
    (s : Setting) (now : ℕ) (ps : List Place) (db db' : DispatchDb)
    → pass_over s now ps db ≡ ok db'
    → Growth s.case_id (passed (length ps)) db db'
unfolding pass_over
pass_over-Growth s now [] db db' h =
    let done : db ≡ db' = ground arith in
    subst (Growth s.case_id (passed 0) db) done
      (record { settings = refl; once = λ u. u; counted = λ c k. ground arith; journal = λ j. j })
pass_over-Growth s now (p ∷ ps) db db' h =
    let (noted, e1, k1) = >>=-eq-ok (add_outcome (history_outcome s p.event_id now) db) _ h in
    let (taken, e2, k2) = >>=-eq-ok (take_event s.monitor_id p.event_id noted) _ k1 in
    let g =
      Growth-trans s.case_id (one_of history) (λ k. 0) db noted taken
        (add_outcome-Growth (history_outcome s p.event_id now) db noted e1)
        (take_event-Growth s.case_id s.monitor_id p.event_id noted taken e2) in
    let r = pass_over-Growth s now ps taken db' k2 in
    record {
      settings = r.settings ∙ g.settings;
      once = λ u. r.once (g.once u);
      counted = λ c k. ground (arith, g.counted c k, r.counted c k);
      journal = λ j. r.journal (g.journal j);
    }

-- An updated setting is found updated.
pub set_setting-find :
    (c0 : ℕ) (f : Setting → Setting) (s : Setting) (db db1 : DispatchDb)
    → db1.settings ≡ db.settings
    → find (of_setting c0) db.settings ≡ some s
    → ((t : Setting) → (f t).case_id ≡ t.case_id)
    → find (of_setting c0) (set_setting c0 f db1).settings ≡ some (f s)
unfolding set_setting
set_setting-find c0 f s db db1 rows known keeps =
    find-update_self (of_setting c0) f db1.settings (λ t hit. ap (λ i. i == c0) (keeps t) ∙ hit)
    ∙ ap (λ rows. Option.map f (find (of_setting c0) rows)) rows
    ∙ ap (Option.map f) known

-- A setting is updated to the counters of the outcomes that were added.
pub set_setting-IsDispatchSound :
    (c0 : ℕ) (n : OutcomeKind → ℕ) (f : Setting → Setting) (s : Setting) (db db1 : DispatchDb)
    → Growth c0 n db db1
    → find (of_setting c0) db.settings ≡ some s
    → ((t : Setting) → (f t).case_id ≡ t.case_id)
    → Accounts c0 (some (f s)) db1.outcomes
    → IsDispatchSound db
    → IsDispatchSound (set_setting c0 f db1)
unfolding set_setting
set_setting-IsDispatchSound c0 n f s db db1 g known keeps mine d = record {
  journal = g.journal d.journal;
  once = g.once d.once;
  accounts = λ c. elim (Bool-cases (c == c0)) [
    | inl same ↦
        subst
          (λ x.
            Accounts x (find (of_setting x) (update (of_setting c0) f db1.settings)) db1.outcomes)
          (sym ((==_iff c c0).0 same))
          (subst (λ o. Accounts c0 o db1.outcomes)
            (sym (set_setting-find c0 f s db db1 g.settings known keeps)) mine)
    | inr other ↦ subst (λ o. Accounts c o db1.outcomes) (sym (left c other)) (grown c other)
  ];
}
  where
    left :
        (c : ℕ)
        → (c == c0) ≡ false
        → find (of_setting c) (update (of_setting c0) f db1.settings)
          ≡ find (of_setting c) db.settings
    left c other =
        find-update_other (of_setting c) (of_setting c0) f db1.settings (λ t hit. ground arith)
          (λ t hit. ap (λ i. i == c) (keeps t) ∙ apart t hit other)
        ∙ ap (λ rows. find (of_setting c) rows) g.settings
      where
        apart :
            (t : Setting) → of_setting c0 t ≡ true → (c == c0) ≡ false → (t.case_id == c) ≡ false
        apart t hit other = ground arith

    grown : (c : ℕ) → (c == c0) ≡ false → Accounts c (find (of_setting c) db.settings) db1.outcomes
    grown c other =
        let a = d.accounts c in
        record {
          skips = ground (arith, a.skips, g.counted c skipped);
          past = ground (arith, a.past, g.counted c history);
          blank = λ b. ground (arith, a.blank b, g.counted c history);
        }
