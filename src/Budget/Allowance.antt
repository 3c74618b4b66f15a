-- ===== src/Budget/Allowance.antt =====
-- How many turns budget.py and persistent_budget.py let through.
use watershed_memory.Base.{
  ℕ, suc, ◌+◌, ◌≤◌, ◌≡◌, refl, min, ◌∙◌, ap, Bool, true, false, none, some, Result, ok, err,
  budget_exhausted, List, [], ◌∷◌, ◌++◌, leb, arith, length, inl, inr, Bool-cases,
}
use mathlib.Core.Option
use mathlib.Core.Path.{subst}
use watershed_memory.Base.Table.{find, update, find-append_none, find-update_self}
use watershed_memory.Budget.{
  Bounded, BudgetRow, of_scope, validate_row, ensure, attempts_of, count_attempt, reserve, plan,
  plans, persistent_plan, persistent_plans,
}

-- Whether a call was refused for want of allowance.
abbrev pub is_refused {ℓ} : {A : Type ℓ} → Result A → Bool
is_refused (err budget_exhausted) = true
is_refused _ = false

module _ {ℓ κ} {State : Type ℓ} {Plan : Type κ} (planner : State → Result Plan) where
  -- From attempts within the limit, over any sequence of turns the attempts of the planner in
  -- memory grow by one for each turn, up to the limit, which stays.
  pub plans_spend :
      (turns : List State) (b : Bounded)
      → b.attempts ≤ b.limit
      → ((plans planner turns b).0.attempts ≡ min (b.attempts + length turns) b.limit)
        × ((plans planner turns b).0.limit ≡ b.limit)
  unfolding plans plan
  plans_spend [] b h = (ground arith, refl)
  plans_spend (s ∷ ss) b h = elim (Bool-cases (leb b.limit b.attempts)) [
    | inl full ↦ ground (arith, plans_spend ss b h)
    | inr more ↦ ground (arith, plans_spend ss (record b { attempts = suc b.attempts }))
  ]

  -- The row of a scope with a given number of attempts.
  pub Holds : ℕ → ℕ → ℕ → List BudgetRow → Type 0
  Holds scope limit n rows =
      find (of_scope scope) rows
      ≡ some (record { scope = scope; configured_limit = limit; attempts = n })

  ensure-Holds :
      (scope limit : ℕ) (rows rows' : List BudgetRow)
      → find (of_scope scope) rows ≡ none
      → ensure scope limit rows ≡ ok rows'
      → Holds scope limit 0 rows'
  unfolding ensure Holds find
  ensure-Holds scope limit rows rows' fresh h =
      let e : rows'
          ≡ rows ++ record { scope = scope; configured_limit = limit; attempts = 0 } ∷ [] =
        ground arith in
      rw e (find-append_none (of_scope scope) rows _ fresh ∙ ground arith)

  attempts_of-Holds :
      (scope limit n : ℕ) (rows : List BudgetRow)
      → n ≤ limit
      → Holds scope limit n rows
      → attempts_of scope limit rows ≡ ok n
  unfolding attempts_of validate_row Holds
  attempts_of-Holds scope limit n rows h e = ground arith

  -- Opening the store again changes nothing.
  ensure-again :
      (scope limit n : ℕ) (rows : List BudgetRow)
      → n ≤ limit
      → Holds scope limit n rows
      → ensure scope limit rows ≡ ok rows
  unfolding ensure validate_row Holds
  ensure-again scope limit n rows h e = ground arith

  reserve-full :
      (scope limit : ℕ) (rows : List BudgetRow)
      → Holds scope limit limit rows
      → reserve scope limit rows ≡ err budget_exhausted
  unfolding reserve validate_row Holds
  reserve-full scope limit rows e = ground arith

  reserve-more :
      (scope limit n : ℕ) (rows : List BudgetRow)
      → suc n ≤ limit
      → Holds scope limit n rows
      → reserve scope limit rows ≡ ok (update (of_scope scope) count_attempt rows)
  unfolding reserve validate_row Holds
  reserve-more scope limit n rows h e = ground arith

  count_attempt-Holds :
      (scope limit n : ℕ) (rows : List BudgetRow)
      → Holds scope limit n rows
      → Holds scope limit (suc n) (update (of_scope scope) count_attempt rows)
  unfolding Holds
  count_attempt-Holds scope limit n rows e =
      find-update_self (of_scope scope) count_attempt rows (λ a k. k)
      ∙ ap (Option.map count_attempt) e

  persistent_plan-Holds :
      (scope limit n : ℕ) (s : State) (rows : List BudgetRow)
      → n ≤ limit
      → Holds scope limit n rows
      → Holds scope limit (min (suc n) limit) (persistent_plan planner scope limit s rows).0
  unfolding persistent_plan
  persistent_plan-Holds scope limit n s rows h e = elim (Bool-cases (leb limit n)) [
    | inl full ↦
        let same : n ≡ limit = ground arith in
        let held : Holds scope limit limit rows = subst (λ k. Holds scope limit k rows) same e in
        let again : limit ≡ min (suc n) limit = ground arith in
        rw (reserve-full scope limit rows held) (subst (λ k. Holds scope limit k rows) again held)
    | inr more ↦
        let more_left : suc n ≤ limit = ground arith in
        let again : suc n ≡ min (suc n) limit = ground arith in
        rw (reserve-more scope limit n rows more_left e) (
          subst (λ k. Holds scope limit k (update (of_scope scope) count_attempt rows)) again
            (count_attempt-Holds scope limit n rows e))
  ]

  persistent_plans-Holds :
      (scope limit n : ℕ) (turns : List State) (rows : List BudgetRow)
      → n ≤ limit
      → Holds scope limit n rows
      → Holds scope limit
          (min (n + length turns) limit)
          (persistent_plans planner scope limit turns rows).0
  unfolding persistent_plans
  persistent_plans-Holds scope limit n [] rows h e =
      let again : n ≡ min (n + 0) limit = omega arith in
      subst (λ k. Holds scope limit k rows) again e
  persistent_plans-Holds scope limit n (s ∷ ss) rows h e =
      let step = persistent_plan-Holds scope limit n s rows h e in
      let again : min (min (suc n) limit + length ss) limit ≡ min (n + suc (length ss)) limit =
        omega arith in
      subst (λ k. Holds scope limit k (persistent_plans planner scope limit (s ∷ ss) rows).0) again
        (persistent_plans-Holds scope limit (min (suc n) limit) ss _ (omega arith) step)

  -- The row after a sequence of turns that begins with a new scope.
  fresh-Holds :
      (scope limit : ℕ) (turns : List State) (rows rows' : List BudgetRow)
      → find (of_scope scope) rows ≡ none
      → ensure scope limit rows ≡ ok rows'
      → Holds scope limit
          (min (length turns) limit)
          (persistent_plans planner scope limit turns rows').0
  fresh-Holds scope limit turns rows rows' fresh h =
      let again : min (0 + length turns) limit ≡ min (length turns) limit = omega arith in
      subst (λ k. Holds scope limit k (persistent_plans planner scope limit turns rows').0) again
        (persistent_plans-Holds scope limit 0 turns rows' (omega arith)
          (ensure-Holds scope limit rows rows' fresh h))

  -- From a new scope the attempts read back after any sequence of turns are the number of turns,
  -- up to the limit, whatever the planner returned or raised.
  pub persistent_plans_spend :
      (scope limit : ℕ) (turns : List State) (rows rows' : List BudgetRow)
      → find (of_scope scope) rows ≡ none
      → ensure scope limit rows ≡ ok rows'
      → attempts_of scope limit (persistent_plans planner scope limit turns rows').0
        ≡ ok (min (length turns) limit)
  persistent_plans_spend scope limit turns rows rows' fresh h =
      attempts_of-Holds scope limit (min (length turns) limit) _ (omega arith)
        (fresh-Holds scope limit turns rows rows' fresh h)

  -- From a new scope, the turns before and after a restart share one allowance: reopening succeeds
  -- and the attempts read back are the number of all turns, up to the limit.
  pub persistent_plans_restart :
      (scope limit : ℕ) (first second : List State) (rows opened : List BudgetRow)
      → find (of_scope scope) rows ≡ none
      → ensure scope limit rows ≡ ok opened
      → (reopened : List BudgetRow) × (ensure scope limit
            (persistent_plans planner scope limit first opened).0
          ≡ ok reopened)
        × (attempts_of scope limit (persistent_plans planner scope limit second reopened).0
            ≡ ok (min (length first + length second) limit))
  persistent_plans_restart scope limit first second rows opened fresh h =
      let held = fresh-Holds scope limit first rows opened fresh h in
      let used = min (length first) limit in
      let last = (persistent_plans planner scope limit first opened).0 in
      let after = persistent_plans-Holds scope limit used second last (omega arith) held in
      let again : min (used + length second) limit ≡ min (length first + length second) limit =
        omega arith in
      (
        last,
        ensure-again scope limit used last (omega arith) held,
        subst
            (λ k.
              attempts_of scope limit (persistent_plans planner scope limit second last).0 ≡ ok k)
            again
            (attempts_of-Holds scope limit (min (used + length second) limit) _ (omega arith)
              after),
      )
