-- ===== src/Delivery/Balance.antt =====
-- The books of the journal: every charged invocation is an attempt, and a case has one unresolved
-- attempt at most (current/delivery_store.py, and the keys of current/delivery_schema.py).
use watershed_memory.Base.{
  ℕ, ◌+◌, ◌≤◌, ◌≡◌, sym, ap, ◌∙◌, Bool, true, none, some, ok, ◌==◌, List, [], ◌∷◌, ◌++◌, arith,
  if◌then◌else◌, ==_iff,
}
use mathlib.Core.Path.{subst}
use watershed_memory.Base.Table.{
  find, count, count-append, count-update, count-update_le, count-none,
}
use watershed_memory.Base.Keys.{count-snoc_le}
use watershed_memory.Delivery.Types.{Mode, scripted_sdk, strands_current, eq_mode}
use watershed_memory.Delivery.Records.{
  Allowance, AttemptRow, Journal, of_attempt, is_unresolved, is_held, finish_attempt,
}
use watershed_memory.Delivery.Reserve.{charge, insert_attempt}

-- An attempt that was charged to a mode.
unfoldable pub is_of_mode : Mode → AttemptRow → Bool
unfolding eq_mode
is_of_mode m row = eq_mode row.profile.mode m

abbrev pub used : Mode → Allowance → ℕ
used scripted_sdk a = a.scripted_used
used strands_current a = a.provider_used

abbrev pub limit_of : Mode → Allowance → ℕ
limit_of scripted_sdk a = a.scripted_limit
limit_of strands_current a = a.provider_limit

pub record IsBalanced (j : Journal) : Type 0 where
  pub charged : (m : Mode) → used m j.allowance ≡ count (is_of_mode m) j.attempts
  pub capped : (m : Mode) → used m j.allowance ≤ limit_of m j.allowance
  pub keys : (a : ℕ) → count (of_attempt a) j.attempts ≤ 1
  pub held : (c : ℕ) → count (is_held c) j.attempts ≤ 1

charge-used :
    (m k : Mode) (a b : Allowance)
    → charge m a ≡ ok b
    → used k a ≤ limit_of k a
    → (used k b ≡ used k a + (if eq_mode m k then 1 else 0)) × (used k b ≤ limit_of k b)
unfolding charge eq_mode
charge-used scripted_sdk scripted_sdk a b h c = (ground arith, ground arith)
charge-used scripted_sdk strands_current a b h c = (ground arith, ground arith)
charge-used strands_current scripted_sdk a b h c = (ground arith, ground arith)
charge-used strands_current strands_current a b h c = (ground arith, ground arith)

count-snoc_mode :
    (m : Mode) (rows : List AttemptRow) (row : AttemptRow)
    → count (is_of_mode m) (rows ++ row ∷ [])
      ≡ count (is_of_mode m) rows + (if eq_mode row.profile.mode m then 1 else 0)
unfolding count is_of_mode
count-snoc_mode m rows row = rw (count-append (is_of_mode m) rows (row ∷ [])) (ground arith)

-- A charged attempt of a case without an unresolved one keeps the books.
pub insert_attempt-IsBalanced :
    (row : AttemptRow) (j k : Journal) (a : Allowance)
    → find (is_held row.case_id) j.attempts ≡ none
    → charge row.profile.mode j.allowance ≡ ok a
    → insert_attempt row j ≡ ok k
    → IsBalanced j
    → IsBalanced (record k { allowance = a })
unfolding insert_attempt
insert_attempt-IsBalanced row j k a free paid h b =
    let fresh : find (of_attempt row.attempt_id) j.attempts ≡ none = ground arith in
    let same : k.attempts ≡ j.attempts ++ row ∷ [] = ground arith in
    record {
      charged = λ m. rw same (
          omega (
            arith,
            b.charged m,
            charge-used row.profile.mode m j.allowance a paid (b.capped m),
            count-snoc_mode m j.attempts row,
          ));
      capped = λ m. (charge-used row.profile.mode m j.allowance a paid (b.capped m)).1;
      keys = λ t. rw same (
          count-snoc_le (of_attempt t) j.attempts row 1 (b.keys t) (λ hit. ground (
            arith,
            subst (λ s. count (of_attempt s) j.attempts ≡ 0) ((==_iff row.attempt_id t).0 hit)
                (count-none (of_attempt row.attempt_id) j.attempts fresh),
          )));
      held = λ c. rw same (
          count-snoc_le (is_held c) j.attempts row 1 (b.held c) (λ hit. ground (
            arith,
            subst (λ s. count (is_held s) j.attempts ≡ 0) (row_case c row hit)
                (count-none (is_held row.case_id) j.attempts free),
          )));
    }
  where
    row_case : (c : ℕ) (row : AttemptRow) → is_held c row ≡ true → row.case_id ≡ c
    row_case c row hit = ground arith

-- Settling an unresolved attempt, in whichever way, keeps the books.
pub finish_attempt-IsBalanced :
    (f : AttemptRow → AttemptRow) (row : AttemptRow) (j : Journal)
    → ((r : AttemptRow) → (f r).attempt_id ≡ r.attempt_id)
    → ((r : AttemptRow) → (f r).case_id ≡ r.case_id)
    → ((r : AttemptRow) → (f r).profile ≡ r.profile)
    → find (of_attempt row.attempt_id) j.attempts ≡ some row
    → is_unresolved row.status ≡ true
    → IsBalanced j
    → IsBalanced (finish_attempt row.attempt_id f j)
unfolding finish_attempt is_of_mode
finish_attempt-IsBalanced f row j id case profile e open_row b = record {
  charged = λ m.
      b.charged m
      ∙ sym (
          count-update (is_of_mode m) (of_attempt row.attempt_id) f j.attempts
            (λ r h. ap (λ p. eq_mode p.mode m) (profile r)));
  capped = b.capped;
  keys = λ t. ground (
    arith,
    b.keys t,
    count-update (of_attempt t) (of_attempt row.attempt_id) f j.attempts
        (λ r h. ap (λ i. i == t) (id r)),
  );
  held = λ c. ground (
    arith,
    b.held c,
    count-update_le (is_held c) (of_attempt row.attempt_id) f j.attempts row (b.keys row.attempt_id)
        e (λ h. ground (arith, case row)),
  );
}
