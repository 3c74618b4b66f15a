-- ===== src/Watch/Runner/Loop.antt =====
-- `WatchRunner.run` of watch/runner.py. What the loop reads of its surroundings is a list of rounds:
-- whether it was asked to stop, whether the deadline has passed, the fresh token and the clocks of
-- its tick. Waiting for the next poll only takes time, so it shows in the next round alone; after
-- the last round the deadline has passed.
use watershed_memory.Base.{
  ℕ, ◌≤◌, ◌≡◌, Bool, true, false, ◌&&◌, ◌||◌, Result, ok, err, value_error, List, [], ◌∷◌, ◌++◌,
  ◌+◌, length, length-append, leb, if◌then◌else◌, arith, inl, inr, Bool-cases,
}
use watershed_memory.Text.{Texts}
use watershed_memory.Watch.Records.{MonitorConfig, PollLease}
use watershed_memory.Watch.Tables.{SourceBatch, Db}
use watershed_memory.Watch.Ingest.{Measurement}
use watershed_memory.Watch.Payloads.{Digests}
use watershed_memory.Watch.Runner.{Outcome, not_due, lease_was_lost, TickResult, Clocks, tick}

pub record Round : Type 0 where
  pub stopped : Bool
  pub expired : Bool
  pub token : ℕ
  pub clocks : Clocks

-- The database after the loop, and the results that it returned or what it raised.
abbrev pub Runs : Type 0
Runs = Db × Result (List TickResult)

abbrev is_not_due : Outcome → Bool
is_not_due not_due = true
is_not_due _ = false

abbrev is_lost : Outcome → Bool
is_lost lease_was_lost = true
is_lost _ = false

-- The results with that of a tick, unless it was not due.
unfoldable pub collect : TickResult → List TickResult → List TickResult
collect result results = if is_not_due result.outcome then results else results ++ result ∷ []

-- What a round does with its tick: raise, end, or go on.
unfoldable pub settle_round :
    ℕ → List TickResult → (List TickResult → Db → Runs) → Db → Result TickResult → Runs
settle_round max_polls results continue db (err fault) = (db, err fault)
settle_round max_polls results continue db (ok result) =
    if is_lost result.outcome || leb max_polls (length (collect result results))
    then (db, ok (collect result results))
    else continue (collect result results) db

collect-length :
    (result : TickResult) (results : List TickResult)
    → length (collect result results) ≤ length results + 1
unfolding collect
collect-length result results = elim (Bool-cases (is_not_due result.outcome)) [
  | inl skipped ↦ rw skipped (omega arith)
  | inr kept ↦ rw (kept, length-append results (result ∷ [])) (omega arith)
]

module _ (texts : Texts) (sha : Measurement → ℕ) (digests : Digests)
    (validate : SourceBatch → MonitorConfig → PollLease → ℕ → Result (Unit {0}))
    (fetch : ℕ → ℕ → ℕ → Result SourceBatch) where
  -- The outer loop.
  unfoldable pub poll_rounds : ℕ → ℕ → List Round → List TickResult → Db → Runs
  poll_rounds m max_polls [] results db = (db, ok results)
  poll_rounds m max_polls (r ∷ rest) results db =
      if leb max_polls (length results) || r.stopped || r.expired
      then (db, ok results)
      else let after = tick texts sha digests validate fetch r.token m r.clocks db in
        settle_round max_polls results (poll_rounds m max_polls rest) after.0 after.1

  -- `run`; `max_seconds` is checked for its bounds and otherwise lies in the rounds; it is a
  -- whole number of seconds here.
  unfoldable pub run : ℕ → ℕ → ℕ → List Round → Db → Runs
  run m max_polls max_seconds rounds db =
      if leb 1 max_polls && leb max_polls 100 && leb 1 max_seconds && leb max_seconds 21600
      then poll_rounds m max_polls rounds [] db
      else (db, err value_error)

  settle_round_bounded :
      (max_polls : ℕ) (results : List TickResult) (continue : List TickResult → Db → Runs) (db : Db)
      (r : Result TickResult) (rs : List TickResult)
      → length results + 1 ≤ max_polls
      → ((qs rs : List TickResult)
          → length qs ≤ max_polls
          → (continue qs db).1 ≡ ok rs
          → length rs ≤ max_polls)
      → (settle_round max_polls results continue db r).1 ≡ ok rs
      → length rs ≤ max_polls
  unfolding settle_round
  settle_round_bounded max_polls results continue db (err fault) rs b k h = cc
  settle_round_bounded max_polls results continue db (ok result) rs b k h =
      let short = collect-length result results in
      elim (Bool-cases
        (is_lost result.outcome || leb max_polls (length (collect result results)))) [
          | inl ends ↦ ground arith
          | inr more ↦ k (collect result results) rs (omega arith) (ground arith)
        ]

  poll_rounds_bounded :
      (m max_polls : ℕ) (rounds : List Round) (results : List TickResult) (db : Db)
      (rs : List TickResult)
      → length results ≤ max_polls
      → (poll_rounds m max_polls rounds results db).1 ≡ ok rs
      → length rs ≤ max_polls
  unfolding poll_rounds
  poll_rounds_bounded m max_polls [] results db rs b h = ground arith
  poll_rounds_bounded m max_polls (r ∷ rest) results db rs b h =
      elim (Bool-cases (leb max_polls (length results) || r.stopped || r.expired)) [
        | inl ends ↦ ground arith
        | inr more ↦
            let after = tick texts sha digests validate fetch r.token m r.clocks db in
            settle_round_bounded max_polls results (poll_rounds m max_polls rest) after.0 after.1 rs
              (ground arith) (λ qs ss c e. poll_rounds_bounded m max_polls rest qs after.0 ss c e)
              (ground arith)
      ]

  -- The loop of the runner, when it returns, gives at most the number of results that it was asked
  -- for.
  pub run_bounded :
      (m max_polls max_seconds : ℕ) (rounds : List Round) (db : Db) (rs : List TickResult)
      → (run m max_polls max_seconds rounds db).1 ≡ ok rs
      → length rs ≤ max_polls
  unfolding run
  run_bounded m max_polls max_seconds rounds db rs h =
      elim (Bool-cases
        (leb 1 max_polls && leb max_polls 100 && leb 1 max_seconds && leb max_seconds 21600)) [
          | inl fine ↦ poll_rounds_bounded m max_polls rounds [] db rs (omega arith) (ground arith)
          | inr wrong ↦ ground arith
        ]
