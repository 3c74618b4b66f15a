-- ===== src/Dispatch/Reachability.antt =====
-- Every database that calls of the dispatcher and of the stores under it can produce is sound, whatever
-- the order of the calls, their times and their callers (current/dispatch_store.py).
use watershed_memory.Base.{ℕ, ◌≡◌, sym, Result, ok, [], arith}
use mathlib.Core.Path.{subst}
use watershed_memory.Base.Table.{find, count}
use watershed_memory.Text.{Texts}
use watershed_memory.Watch.Records.{MonitorConfig, PollLease}
use watershed_memory.Watch.Tables.{SourceBatch}
use watershed_memory.Watch.Ingest.{Measurement}
use watershed_memory.Watch.Payloads.{Digests}
use watershed_memory.Cases.Types.{CoveragePolicy}
use watershed_memory.Cases.Records.{Input}
use watershed_memory.Delivery.Types.{
  InvocationProfile, CurrentAssessment, CurrentExecution, CurrentFailure, DeliveryReceipt,
}
use watershed_memory.Delivery.Records.{Codec, Journal, Context}
use watershed_memory.Delivery.Journals.{IsJournalSound}
use watershed_memory.Delivery.Reachability.{
  JournalStep, JournalReach, JournalReach-IsJournalSound, JournalStep-IsJournalSound,
}
use watershed_memory.Dispatch.Types.{AttentionPolicy, DispatchStep}
use watershed_memory.Dispatch.Records.{Engine, journal_load, DispatchDb}
use watershed_memory.Dispatch.Settings.{activate}
use watershed_memory.Dispatch.Prepare.{prepare}
use watershed_memory.Dispatch.Finish.{finish, fail_dispatch}
use watershed_memory.Dispatch.Accounts.{IsDispatchSound}
use watershed_memory.Dispatch.Calls.{prepare-IsDispatchSound}
use watershed_memory.Dispatch.Results.{
  activate-IsDispatchSound, finish-IsDispatchSound, fail_dispatch-IsDispatchSound,
}

-- The tables that `ensure_schema` creates beside a journal.
abbrev pub new_dispatch : Journal → DispatchDb
new_dispatch j = record { journal = j; settings = []; admissions = []; outcomes = []; due = [] }

new_dispatch-IsDispatchSound : (j : Journal) → IsJournalSound j → IsDispatchSound (new_dispatch j)
unfolding find count
new_dispatch-IsDispatchSound j s = record {
  journal = s;
  once = λ c e. omega arith;
  accounts = λ c. record { skips = omega arith; past = omega arith; blank = λ b. omega arith };
}

module _ (texts : Texts) (sha : Measurement → ℕ) (digests : Digests)
    (check_batch : SourceBatch → MonitorConfig → PollLease → ℕ → Result (Unit {0}))
    (policy : CoveragePolicy → ℕ) (digest : Input → ℕ) (codec : Codec) (engine : Engine)
    (validate : Context → CurrentAssessment → Result (Unit {0})) where
  -- A call that commits: of the dispatcher, or of a store under it.
  pub data DispatchCall (db db' : DispatchDb) : Type 0 where
    below :
        (j : Journal)
        → JournalStep texts sha digests check_batch policy digest codec
            (journal_load engine)
            validate
            db.journal
            j
        → db' ≡ record db { journal = j }
        → DispatchCall db db'
    activates :
        (c : ℕ) (rules : AttentionPolicy) (profile : InvocationProfile) (now : ℕ)
        → activate texts codec engine c rules profile now db ≡ ok db'
        → DispatchCall db db'
    prepares :
        (attempt request c now : ℕ) (step : DispatchStep)
        → prepare texts codec engine attempt request c now db ≡ ok (db', step)
        → DispatchCall db db'
    finishes :
        (tasks : ℕ → ℕ) (attempt : ℕ) (execution : CurrentExecution) (now : ℕ) (r : DeliveryReceipt)
        → finish texts digest codec engine validate tasks attempt execution now db ≡ ok (db', r)
        → DispatchCall db db'
    gives_up_on :
        (attempt : ℕ) (failure : CurrentFailure) (now : ℕ) (r : DeliveryReceipt)
        → fail_dispatch texts digest codec engine validate attempt failure now db ≡ ok (db', r)
        → DispatchCall db db'

  DispatchCall-IsDispatchSound :
      (db db' : DispatchDb) → DispatchCall db db' → IsDispatchSound db → IsDispatchSound db'
  DispatchCall-IsDispatchSound db db' (below j step e) d = subst IsDispatchSound (sym e) (record {
    journal =
        JournalStep-IsJournalSound texts sha digests check_batch policy digest codec
          (journal_load engine) validate db.journal j step d.journal;
    once = d.once;
    accounts = d.accounts;
  })
  DispatchCall-IsDispatchSound db db' (activates c rules profile now h) d =
      activate-IsDispatchSound texts digest codec engine validate c rules profile now db db' h d
  DispatchCall-IsDispatchSound db db' (prepares attempt request c now step h) d =
      prepare-IsDispatchSound texts digest codec engine validate attempt request c now db db' step h
        d
  DispatchCall-IsDispatchSound db db' (finishes tasks attempt execution now r h) d =
      finish-IsDispatchSound texts digest codec engine validate tasks attempt execution now db db' r
        h d
  DispatchCall-IsDispatchSound db db' (gives_up_on attempt failure now r h) d =
      fail_dispatch-IsDispatchSound texts digest codec engine validate attempt failure now db db' r
        h d

  pub data DispatchReach : DispatchDb → Type 0 where
    installed :
        {j : Journal}
        → JournalReach texts sha digests check_batch policy digest codec
            (journal_load engine)
            validate
            j
        → DispatchReach (new_dispatch j)
    called : {db db' : DispatchDb} → DispatchReach db → DispatchCall db db' → DispatchReach db'

  -- Whatever calls of the dispatcher, the journal, the work ledger and the watch committed, an
  -- event of a case has one outcome at most, the counters of suppressed events and of history are
  -- the outcomes of those kinds, and the journal under them is sound.
  pub DispatchReach-IsDispatchSound : (db : DispatchDb) → DispatchReach db → IsDispatchSound db
  DispatchReach-IsDispatchSound db (installed r) = new_dispatch-IsDispatchSound _ (
      JournalReach-IsJournalSound texts sha digests check_batch policy digest codec
        (journal_load engine) validate _ r)
  DispatchReach-IsDispatchSound db (called r call) =
      DispatchCall-IsDispatchSound _ db call (DispatchReach-IsDispatchSound _ r)
