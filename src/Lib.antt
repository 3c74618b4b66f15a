-- ===== src/Lib.antt =====
-- Watershed Memory: a model of its durable core and the theorems about it.
--
-- The program watches a river through the observations that the USGS publishes. A watch polls the
-- source under a lease, keeps every published version of an observation, and seals each finished
-- interval into a numbered event with a row in an outbox. A work ledger beside it holds the cases:
-- reviews that are proposed from events, the evidence linked to them and the actions of people. A
-- journal reserves each call of a model against an allowance, and commits what the model decided to
-- the work ledger and the outbox in one transaction. A dispatcher takes the events of the outbox in
-- order and decides which of them deserve a model. A planner of live turns has an allowance too.
--
-- Files and sources:
--   Base, Text, Time     results, SQL tables as lists, texts, and Python's datetimes
--   Watch/Records, Watch/Tables, Watch/Config
--                        watch/store_schema.py, watch/observations.py and the checks of a monitor's
--                        configuration in watch/store.py and watch/usgs.py
--   Watch/Validation     watch/store_validation.py, `validate_batch`
--   Watch/Ingest         watch/store_ingest.py, `ingest`
--   Watch/Payloads, Watch/Events
--                        watch/store_events.py, `mark_dirty`, `_payload` and `seal_events`
--   Watch/Store          watch/store.py: `register`, `acquire_poll`, `commit_poll`, `fail_poll`
--                        and, in Watch/Store/Views, `status`
--   Watch/Runner         watch/runner.py, `tick`, and `run` in Watch/Runner/Loop
--   Cases/Types, Cases/Records, Cases/Registration, Cases/Store
--                        current/case_types.py, current/case_records.py, current/case_store.py and
--                        the tables of current/case_schema.py; Cases/Readers has the readers of
--                        the store and Cases/Policies the checks of current/fact_types.py
--   Delivery/Types, Delivery/Records, Delivery/Opening
--                        current/delivery_types.py, the tables of current/delivery_schema.py and its
--                        `ensure_schema`, the decisions of current/assessment_types.py and the results
--                        of current/strands.py
--   Delivery/Reserve, Delivery/Commit
--                        current/delivery_store.py: `_reserve`, `_commit`, `fail`, `abandon`, `get` and
--                        `allowance`; a commit calls the operations of the work ledger and acknowledges
--                        an event of the watch
--   Delivery/Decisions, Delivery/Changes, Delivery/Operations, Delivery/Journals,
--   Delivery/Reachability
--                        every operation as a change of one attempt, and the histories of calls of the
--                        three stores on one file
--   Dispatch             current/dispatch_types.py and the results of current/attention.py (Types), the
--                        tables of current/dispatch_schema.py (Records), current/dispatch_replay.py
--                        (Admission), and current/dispatch_store.py: `activate` and `status` (Settings),
--                        `prepare` (Queue, Prepare), `finish` and `fail` (Finish). The dispatcher takes events
--                        from the outbox of the watch and reserves and commits through the journal
--   Dispatch/Accounts, Dispatch/Soundness, Dispatch/Calls, Dispatch/Additions, Dispatch/Results,
--   Dispatch/Reachability, Dispatch/Replay
--                        what each call adds to the outcomes, the histories of calls of all stores,
--                        and the replay of a saved admission
--   Budget               budget.py and persistent_budget.py
--   Tests                concrete inputs, runs of the definitions and instances of the theorems
--   All of these sources lie in watershed_memory/. Below each module, the files named for what they
--   prove hold the lemmas.
--
-- How the code corresponds to the model: a database is a record of lists of rows in insertion order,
-- and an operation is a function from the database to a result. Each operation of the program runs
-- in one transaction of SQLite, so an exception is an error without a new database, and calls that
-- run at the same time are a sequence of steps (Watch/Store/Reachability). A text that the program
-- only compares is a number; where it looks inside, `Texts` gives the code points. An instant is its
-- number of microseconds since datetime.min, and the arithmetic of datetimes raises beyond the year
-- 9999 as Python's does. A finite decimal is an integer scaled by a power of ten.
--
-- Parameters stand for what is not in the repository: the SHA-256 of an encoded value, the length of
-- an encoded payload, str.isprintable, the URL parser that the authority of a page rests on, the
-- clock, fresh tokens and ids, the JSON encoders, the answer of the source and the planner. Two
-- functions of the program are parameters of the journal as well, `_load_context` of
-- current/context.py and `validate_assessment` of current/tools.py: the journal only asks whether
-- they raise, and takes from the context what it names. The dispatcher has its own parameters in the
-- record `Engine`: the loading, the equality and the references
-- of contexts, `compare_intervals` of
-- current/facts.py and `evaluate_attention` of current/attention.py. The theorems hold for every choice
-- of them. No definition uses fuel: every loop of the code runs over a finite list, that of the
-- runner over the rounds that its clock and its stop event admit.
--
-- Not modelled: requests to the USGS and the parsing of its answers, the waiting in the loop of the
-- runner, the length checks of JSON columns (texts are bounded before they are encoded), integers
-- beyond SQLite's 64 bits, the field stores, what is in a context, the rules of attention, the planning tools, the adapters
-- to model services, the HTTP surfaces and the deployment.
pub mod Base
pub mod Time
pub mod Text
pub mod Watch
pub mod Cases
pub mod Delivery
pub mod Dispatch
pub mod Budget
pub mod Tests
