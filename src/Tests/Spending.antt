-- ===== src/Tests/Spending.antt =====
-- The theorems of the allowance on a planner that always fails.
use watershed_memory.Base.{
  ℕ, ◌+◌, ◌≡◌, refl, min, length, none, Result, ok, err, value_error, List, [], ◌∷◌, arith,
}
use watershed_memory.Base.Table.{find}
use watershed_memory.Budget.{
  Bounded, BudgetRow, of_scope, ensure, attempts_of, plans, persistent_plans,
}
use watershed_memory.Budget.Allowance.{
  plans_spend, persistent_plans_spend, persistent_plans_restart,
}

-- A planner that raises whatever it is asked.
abbrev failing : ℕ → Result ℕ
failing s = err value_error

abbrev turns : List ℕ
turns = 1 ∷ 2 ∷ 3 ∷ []

abbrev fresh : Bounded
fresh = record { limit = 2; attempts = 0 }

plans_spend_example :
    ((plans failing turns fresh).0.attempts ≡ min (0 + length turns) 2)
    × ((plans failing turns fresh).0.limit ≡ 2)
plans_spend_example = plans_spend failing turns fresh (omega arith)

abbrev opened : List BudgetRow
opened = record { scope = 7; configured_limit = 2; attempts = 0 } ∷ []

missing_test : find (of_scope 7) [] ≡ none
unfolding find
missing_test = refl

ensure_test : ensure 7 2 [] ≡ ok opened
unfolding ensure find
ensure_test = refl

persistent_plans_spend_example :
    attempts_of 7 2 (persistent_plans failing 7 2 turns opened).0 ≡ ok (min (length turns) 2)
persistent_plans_spend_example =
    persistent_plans_spend failing 7 2 turns [] opened missing_test ensure_test

persistent_plans_restart_example :
    (reopened : List BudgetRow) × (ensure 7 2 (persistent_plans failing 7 2 (1 ∷ []) opened).0
      ≡ ok reopened)
    × (attempts_of 7 2 (persistent_plans failing 7 2 turns reopened).0
        ≡ ok (min (length {A = ℕ} (1 ∷ []) + length turns) 2))
persistent_plans_restart_example =
    persistent_plans_restart failing 7 2 (1 ∷ []) turns [] opened missing_test ensure_test
