-- ===== src/Budget.antt =====
-- The allowance of live turns: budget.py and persistent_budget.py. A call of `plan` is one
-- transition; the lock and the transaction BEGIN IMMEDIATE make the transitions of concurrent
-- callers a sequence. The planner is an argument that gives or raises what it likes.
pub mod Allowance
use watershed_memory.Base.{
  ℕ, suc, ◌+◌, Bool, not, ◌&&◌, ◌||◌, Option, none, some, Result, ok, err, value_error,
  budget_exhausted, ◌>>◌, raise_if, List, [], ◌∷◌, ltb, leb, ◌==◌, if◌then◌else◌, arith, ◌++◌,
}
use watershed_memory.Base.{length, all, true, false}
use watershed_memory.Base.Table.{find, update}
use watershed_memory.Text.{Texts, is_alphanumeric}

-- `BoundedPlanner`: the limit and the attempts.
pub record Bounded : Type 0 where
  pub limit : ℕ
  pub attempts : ℕ

-- `BoundedPlanner.__init__`
unfoldable pub bounded : ℕ → Result Bounded
bounded limit =
    raise_if (not (leb 1 limit && leb limit 12)) value_error
    >> ok (record { limit = limit; attempts = 0 })

-- A row of `live_budgets`.
pub record BudgetRow : Type 0 where
  pub scope : ℕ
  pub configured_limit : ℕ
  pub attempts : ℕ

abbrev pub of_scope : ℕ → BudgetRow → Bool
of_scope scope row = row.scope == scope

-- `[A-Za-z0-9][A-Za-z0-9_-]{0,63}`
unfoldable pub is_scope : List ℕ → Bool
is_scope [] = false
is_scope (c ∷ cs) =
    is_alphanumeric c
    && all (λ d. is_alphanumeric d || d == b'_' || d == b'-') cs
    && leb (length cs) 63

-- `_validate_row`
unfoldable pub validate_row : ℕ → BudgetRow → Result (Unit {0})
validate_row limit row =
    raise_if (not (row.configured_limit == limit) || not (leb row.attempts row.configured_limit))
      value_error

-- `_ensure`: a row of the scope exists and fits, or is inserted.
unfoldable pub ensure : ℕ → ℕ → List BudgetRow → Result (List BudgetRow)
ensure scope limit rows = elim (find (of_scope scope) rows) [
  | none ↦ ok (rows ++ record { scope = scope; configured_limit = limit; attempts = 0 } ∷ [])
  | some row ↦ validate_row limit row >> ok rows
]

-- `PersistentBudgetPlanner.__init__`
unfoldable pub open_budget : Texts → ℕ → ℕ → List BudgetRow → Result (List BudgetRow)
open_budget texts scope limit rows =
    raise_if (not (is_scope (texts.chars scope))) value_error
    >> raise_if (not (leb 1 limit && leb limit 12)) value_error
    >> ensure scope limit rows

-- `attempts`
unfoldable pub attempts_of : ℕ → ℕ → List BudgetRow → Result ℕ
attempts_of scope limit rows = elim (find (of_scope scope) rows) [
  | none ↦ err value_error
  | some row ↦ validate_row limit row >> ok row.attempts
]

abbrev pub count_attempt : BudgetRow → BudgetRow
count_attempt row = record row { attempts = suc row.attempts }

-- The transaction of `PersistentBudgetPlanner.plan`.
unfoldable pub reserve : ℕ → ℕ → List BudgetRow → Result (List BudgetRow)
reserve scope limit rows = elim (find (of_scope scope) rows) [
  | none ↦ err value_error
  | some row ↦
      validate_row limit row
      >> raise_if (leb row.configured_limit row.attempts) budget_exhausted
      >> ok (update (of_scope scope) count_attempt rows)
]

module _ {ℓ κ} {State : Type ℓ} {Plan : Type κ} (planner : State → Result Plan) where
  -- `BoundedPlanner.plan`: the attempt is counted before the planner is called.
  unfoldable pub plan : State → Bounded → Bounded × Result Plan
  plan state b =
      if leb b.limit b.attempts
      then (b, err budget_exhausted)
      else (record b { attempts = suc b.attempts }, planner state)

  abbrev call_reserved :
      State → List BudgetRow → Result (List BudgetRow) → List BudgetRow × Result Plan
  call_reserved state rows (ok rows') = (rows', planner state)
  call_reserved state rows (err fault) = (rows, err fault)

  -- `PersistentBudgetPlanner.plan`
  unfoldable pub persistent_plan : ℕ → ℕ → State → List BudgetRow → List BudgetRow × Result Plan
  persistent_plan scope limit state rows = call_reserved state rows (reserve scope limit rows)

  -- A sequence of turns, from whichever callers.
  unfoldable pub plans : List State → Bounded → Bounded × List (Result Plan)
  plans [] b = (b, [])
  plans (s ∷ ss) b = let (b', r) = plan s b in let (last, rs) = plans ss b' in (last, r ∷ rs)

  unfoldable pub persistent_plans :
      ℕ → ℕ → List State → List BudgetRow → List BudgetRow × List (Result Plan)
  persistent_plans scope limit [] rows = (rows, [])
  persistent_plans scope limit (s ∷ ss) rows =
      let (rows', r) = persistent_plan scope limit s rows in
      let (last, rs) = persistent_plans scope limit ss rows' in (last, r ∷ rs)
