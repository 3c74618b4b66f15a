-- ===== src/Delivery/Reachability.antt =====
-- Every database that calls of the three stores can produce from an empty one is sound, whatever the
-- order of the calls, their times and their callers: watch/store.py, current/case_store.py and
-- current/delivery_store.py work on one file.
use watershed_memory.Base.{ℕ, ◌≡◌, ◌≤◌, sym, Option, some, Result, ok, [], arith}
use mathlib.Core.Path.{subst}
use watershed_memory.Base.Table.{find, count}
use watershed_memory.Text.{Texts}
use watershed_memory.Watch.Records.{MonitorConfig, PollLease}
use watershed_memory.Watch.Tables.{SourceBatch, Db}
use watershed_memory.Watch.Ingest.{Measurement}
use watershed_memory.Watch.Payloads.{Digests}
use watershed_memory.Watch.Store.Reachability.{empty, empty-IsSound, Step, Step-IsSound}
use watershed_memory.Cases.Types.{
  CoveragePolicy, CaseConfig, ReviewDraft, EvidenceLink, HumanAction, ReviewRecord,
}
use watershed_memory.Cases.Records.{Input, CaseDb}
use watershed_memory.Cases.Registration.{register_case}
use watershed_memory.Cases.Store.{stage_review, link_evidence, act}
use watershed_memory.Cases.Store.Indexes.{IsUnique}
use watershed_memory.Cases.Store.Uniqueness.{
  stage_review-IsUnique, link_evidence-IsUnique, act-IsUnique,
}
use watershed_memory.Cases.Store.Isolation.{
  stage_review_watch, link_evidence_watch, act_watch, register_case_writes,
}
use watershed_memory.Delivery.Types.{
  InvocationAllowance, CurrentAssessment, CurrentExecution, CurrentFailure, DeliveryReceipt,
}
use watershed_memory.Delivery.Records.{
  DeliveryRequest, Codec, AttemptRow, Journal, ContextQuery, Context, of_attempt,
}
use watershed_memory.Delivery.Opening.{create_journal, verify_journal}
use watershed_memory.Delivery.Reserve.{Reserved, reserve}
use watershed_memory.Delivery.Commit.{commit, fail, abandon}
use watershed_memory.Delivery.Decisions.{IsWorkSound}
use watershed_memory.Delivery.Changes.{Change, unchanged}
use watershed_memory.Delivery.Journals.{
  IsJournalSound, HasMoved, Change-IsJournalSound, Change-HasMoved, has_stayed,
  create_journal-IsJournalSound, verify_journal-same,
}
use watershed_memory.Delivery.Operations.{
  reserve-Change, commit-Change, fail-Change, abandon-Change,
}

abbrev pub no_cases : CaseDb
no_cases = record {
  watch = empty;
  cases = [];
  reviews = [];
  revisions = [];
  evidence = [];
  receipts = [];
}

no_cases-IsWorkSound : IsWorkSound no_cases
unfolding count
no_cases-IsWorkSound = record {
  unique = record { tasks = λ t. omega arith; kinds = λ c k. omega arith };
  watched = empty-IsSound;
}

module _ (texts : Texts) (sha : Measurement → ℕ) (digests : Digests)
    (check_batch : SourceBatch → MonitorConfig → PollLease → ℕ → Result (Unit {0}))
    (policy : CoveragePolicy → ℕ) (digest : Input → ℕ) (codec : Codec)
    (load : CaseDb → ContextQuery → Result Context)
    (validate : Context → CurrentAssessment → Result (Unit {0})) where
  -- A call of the watch or of the work ledger that commits.
  pub data WorkStep (db db' : CaseDb) : Type 0 where
    watches :
        (watch : Db)
        → Step texts sha digests check_batch db.watch watch
        → db' ≡ record db { watch = watch }
        → WorkStep db db'
    registers :
        (config : CaseConfig) (now : ℕ)
        → register_case policy config now db ≡ ok db'
        → WorkStep db db'
    stages :
        (task c : ℕ) (draft : ReviewDraft) (request expected now : ℕ) (value : ReviewRecord)
        → stage_review texts digest task c draft request expected now db ≡ ok (db', value)
        → WorkStep db db'
    links :
        (c : ℕ) (link : EvidenceLink) (request expected now : ℕ) (value : ReviewRecord)
        → link_evidence texts digest c link request expected now db ≡ ok (db', value)
        → WorkStep db db'
    acts :
        (c : ℕ) (action : HumanAction) (request now : ℕ) (value : ReviewRecord)
        → act texts digest c action request now db ≡ ok (db', value)
        → WorkStep db db'

  WorkStep-IsWorkSound : (db db' : CaseDb) → WorkStep db db' → IsWorkSound db → IsWorkSound db'
  WorkStep-IsWorkSound db db' (watches watch step e) s = subst IsWorkSound (sym e) (record {
    unique = s.unique;
    watched = Step-IsSound texts sha digests check_batch db.watch watch step s.watched;
  })
  WorkStep-IsWorkSound db db' (registers config now h) s =
      let (watch, reviews) = register_case_writes policy config now db db' h in
      record { unique = subst IsUnique (sym reviews) s.unique; watched = rw watch s.watched }
  WorkStep-IsWorkSound db db' (stages task c draft request expected now value h) s = record {
    unique =
        stage_review-IsUnique texts digest task c draft request expected now db db' value h
          s.unique;
    watched =
        rw (stage_review_watch texts digest task c draft request expected now db db' value h)
          s.watched;
  }
  WorkStep-IsWorkSound db db' (links c link request expected now value h) s = record {
    unique =
        link_evidence-IsUnique texts digest c link request expected now db db' value h s.unique;
    watched =
        rw (link_evidence_watch texts digest c link request expected now db db' value h) s.watched;
  }
  WorkStep-IsWorkSound db db' (acts c action request now value h) s = record {
    unique = act-IsUnique texts digest c action request now db db' value h s.unique;
    watched = rw (act_watch texts digest c action request now db db' value h) s.watched;
  }

  -- A call of the journal that commits. A call that raises is rolled back.
  pub data Call (j j' : Journal) : Type 0 where
    reopens :
        (allowance : Option InvocationAllowance) → verify_journal allowance j ≡ ok j' → Call j j'
    reserves :
        (attempt c request : ℕ) (input : DeliveryRequest) (now : ℕ) (r : Reserved)
        → reserve texts codec load attempt c request input now j ≡ ok (j', r)
        → Call j j'
    commits :
        (tasks : ℕ → ℕ) (attempt : ℕ) (execution : CurrentExecution) (now : ℕ) (r : DeliveryReceipt)
        → commit texts digest codec load validate tasks attempt execution now j ≡ ok (j', r)
        → Call j j'
    fails :
        (attempt : ℕ) (failure : CurrentFailure) (now : ℕ) (r : DeliveryReceipt)
        → fail texts digest codec load validate attempt failure now j ≡ ok (j', r)
        → Call j j'
    abandons :
        (c request reason now : ℕ) (r : DeliveryReceipt)
        → abandon texts digest codec load validate c request reason now j ≡ ok (j', r)
        → Call j j'

  Call-Change :
      (j j' : Journal) → Call j j' → ((a : ℕ) → count (of_attempt a) j.attempts ≤ 1) → Change j j'
  Call-Change j j' (reopens allowance h) keys =
      subst (Change j) (verify_journal-same allowance j j' h) unchanged
  Call-Change j j' (reserves attempt c request input now r h) keys =
      reserve-Change texts digest codec load validate attempt c request input now j j' r h
  Call-Change j j' (commits tasks attempt execution now r h) keys =
      commit-Change texts digest codec load validate tasks attempt execution now j j' r h
  Call-Change j j' (fails attempt failure now r h) keys =
      fail-Change texts digest codec load validate attempt failure now j j' r h
  Call-Change j j' (abandons c request reason now r h) keys =
      abandon-Change texts digest codec load validate c request reason now j j' r h keys

  -- A call of any of the stores.
  pub data JournalStep (j j' : Journal) : Type 0 where
    works : (db : CaseDb) → WorkStep j.work db → j' ≡ record j { work = db } → JournalStep j j'
    changes : Call j j' → JournalStep j j'

  pub JournalStep-IsJournalSound :
      (j j' : Journal) → JournalStep j j' → IsJournalSound j → IsJournalSound j'
  JournalStep-IsJournalSound j j' (works db step e) s = subst IsJournalSound (sym e) (record {
    balanced = record {
      charged = s.balanced.charged;
      capped = s.balanced.capped;
      keys = s.balanced.keys;
      held = s.balanced.held;
    };
    sound = WorkStep-IsWorkSound j.work db step s.sound;
  })
  JournalStep-IsJournalSound j j' (changes call) s =
      Change-IsJournalSound j j' (Call-Change j j' call s.balanced.keys) s

  -- What calls lead to from an empty database: the watch and the work ledger first, then the opening
  -- of the journal, then calls of all three in any order.
  pub data WorkReach : CaseDb → Type 0 where
    start : WorkReach no_cases
    next : {db db' : CaseDb} → WorkReach db → WorkStep db db' → WorkReach db'

  pub data JournalReach : Journal → Type 0 where
    opened :
        {db : CaseDb} {j : Journal} (allowance : Option InvocationAllowance)
        → WorkReach db
        → create_journal allowance db ≡ ok j
        → JournalReach j
    later : {j j' : Journal} → JournalReach j → JournalStep j j' → JournalReach j'

  pub WorkReach-IsWorkSound : (db : CaseDb) → WorkReach db → IsWorkSound db
  WorkReach-IsWorkSound db start = no_cases-IsWorkSound
  WorkReach-IsWorkSound db (next r step) =
      WorkStep-IsWorkSound _ db step (WorkReach-IsWorkSound _ r)

  -- Whatever calls of the watch, the work ledger and the journal committed on one file since it
  -- was empty: the attempts charged to each mode are the counter of its allowance and no more than
  -- its limit, attempt ids are unique, a case has one unresolved attempt at most, and the reviews
  -- and the watch are sound.
  pub JournalReach-IsJournalSound : (j : Journal) → JournalReach j → IsJournalSound j
  JournalReach-IsJournalSound j (opened allowance r h) =
      create_journal-IsJournalSound allowance _ j h (WorkReach-IsWorkSound _ r)
  JournalReach-IsJournalSound j (later r step) =
      JournalStep-IsJournalSound _ j step (JournalReach-IsJournalSound _ r)

  -- Whatever call commits after such a history, every attempt is still there with its case, its
  -- request and its profile, and its status stays or moves from reserved to committed, stale or
  -- failed, or from an unresolved status to abandoned.
  pub JournalStep-HasMoved :
      (j j' : Journal) (row : AttemptRow)
      → JournalReach j
      → JournalStep j j'
      → find (of_attempt row.attempt_id) j.attempts ≡ some row
      → HasMoved row j'
  JournalStep-HasMoved j j' row r (works db step e) known =
      has_stayed row j'
        (subst (λ k. find (of_attempt row.attempt_id) k.attempts ≡ some row) (sym e) known)
  JournalStep-HasMoved j j' row r (changes call) known =
      let keys = (JournalReach-IsJournalSound j r).balanced.keys in
      Change-HasMoved j j' row (Call-Change j j' call keys) known
