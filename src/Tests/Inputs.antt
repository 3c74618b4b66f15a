-- ===== src/Tests/Inputs.antt =====
-- Concrete texts, a monitor, a batch and the databases that the calls of a first poll lead to.
use watershed_memory.Base.{
  ℕ, ◌+◌, true, none, some, Result, ok, err, List, [], ◌∷◌, ◌==◌, if◌then◌else◌, length,
}
use watershed_memory.Base.Int.{pos}
use watershed_memory.Text.{Texts}
use watershed_memory.Time.{epoch, microseconds}
use watershed_memory.Watch.Records.{SeriesSpec, MonitorConfig, PollLease}
use watershed_memory.Watch.Tables.{approved, Observation, SourceBatch, Ledger, Db}
use watershed_memory.Watch.Ingest.{Measurement}
use watershed_memory.Watch.Payloads.{Digests}
use watershed_memory.Watch.Store.{register, acquire_poll, commit_poll}
use watershed_memory.Watch.Store.Reachability.{empty}
use watershed_memory.Watch.Validation.{validate_batch}
use watershed_memory.Cases.Types.{
  CoveragePolicy, CaseConfig, observation_review, proposed, dismissed, dismiss, ReviewDraft,
  EvidenceLink, HumanAction, ReviewRecord,
}
use watershed_memory.Cases.Records.{Command, stage, add_link, act_on, Input, CaseDb}
use watershed_memory.Cases.Registration.{register_case}
use watershed_memory.Cases.Store.{stage_review, link_evidence, act}

abbrev sixteen : List ℕ
sixteen = 97 ∷ 97 ∷ 97 ∷ 97 ∷ 97 ∷ 97 ∷ 97 ∷ 97 ∷ 97 ∷ 97 ∷ 97 ∷ 97 ∷ 97 ∷ 97 ∷ 97 ∷ 97 ∷ []

abbrev append : List ℕ → List ℕ → List ℕ
append [] ys = ys
append (x ∷ xs) ys = x ∷ append xs ys

abbrev attempt : List ℕ
attempt = b'a' ∷ b't' ∷ b't' ∷ b'e' ∷ b'm' ∷ b'p' ∷ b't' ∷ b'-' ∷ []

-- The text 2 is 'USGS-1', the texts 1 and 64 are a digest, the text 16 is sixteen letters, the text
-- 70 is an attempt's id, and any other one letter.
abbrev pub chars_of : ℕ → List ℕ
chars_of n =
    if n == 2
    then b'U' ∷ b'S' ∷ b'G' ∷ b'S' ∷ b'-' ∷ b'1' ∷ []
    else if n == 64
    then append sixteen (append sixteen (append sixteen sixteen))
    else if n == 16
    then sixteen
    else if n == 1
    then append sixteen (append sixteen (append sixteen sixteen))
    else if n == 70
    then append attempt (append sixteen sixteen)
    else b'A' ∷ []

abbrev pub texts : Texts
texts = record { chars = chars_of; printable = λ c. true }

abbrev pub sha : Measurement → ℕ
sha m = m.observed_at

abbrev pub digests : Digests
digests = record { members = length; event = λ i. i.revision; payload_bytes = λ p. 100 }

abbrev pub spec : SeriesSpec
spec = record { series_id = 5; parameter_code = 6; unit = 7; statistic_id = none }

abbrev pub config : MonitorConfig
config = record {
  monitor_id = 1;
  station_id = 2;
  case_id = 3;
  start_at = epoch;
  series = spec ∷ [];
  policy_version = 4;
  interval_seconds = 3600;
  poll_seconds = 900;
  overlap_seconds = 1800;
  lease_seconds = 120;
}

-- So many seconds after the start of the monitor.
abbrev pub at : ℕ → ℕ
at seconds = epoch + microseconds seconds

abbrev pub observation : Observation
observation = record {
  station_id = 2;
  series_id = 5;
  parameter_code = 6;
  statistic_id = none;
  observed_at = at 10;
  value = some (pos 12);
  unit = 7;
  approval_status = approved;
  qualifier = none;
  source_modified_at = at 20;
  provider_id = 9;
}

abbrev pub batch : SourceBatch
batch = record {
  station_id = 2;
  start = at 0;
  end = at 4000;
  retrieved_at = at 4000;
  observations = observation ∷ [];
  pages = record { url = 8; sha256 = 64; byte_count = 1000; retrieved_at = at 4000 } ∷ [];
}

abbrev pub lease : PollLease
lease = record {
  monitor_id = 1;
  token = 11;
  start = at 0;
  end = at 4000;
  acquired_at = at 4000;
  expires_at = at 4120;
}

abbrev pub validate : SourceBatch → MonitorConfig → PollLease → ℕ → Result (Unit {0})
validate = validate_batch texts (λ c l b i p. true) (λ o. true)

abbrev pub value_or {ℓ} : {A : Type ℓ} → A → Result A → A
value_or a (ok b) = b
value_or a (err e) = a

abbrev pub database_or {ℓ} : {A : Type ℓ} → Db → Result (Db × A) → Db
database_or db (ok (db', a)) = db'
database_or db (err e) = db

abbrev pub registered : Db
registered = value_or empty (register config empty)

abbrev pub leased : Db
leased = database_or empty (acquire_poll 11 1 (at 4000) registered)

abbrev pub polled_once : Db
polled_once =
    database_or empty (commit_poll texts sha digests validate lease batch (at 4001) leased)

abbrev pub database_ledger : Result (Ledger × List ℕ) → Ledger
database_ledger (ok (ledger, ids)) = ledger
database_ledger (err e) = empty.ledger

-- The work ledger beside the first poll's database, with one case.
abbrev pub case_config : CaseConfig
case_config = record {
  case_id = 3;
  monitor_id = 1;
  coverage_policy = record {
    policy_id = 4;
    required_parameters = 6 ∷ [];
    minimum_valid_samples = 1;
    freshness_seconds = 3600;
  };
  simulated = true;
}

abbrev pub policy_sha : CoveragePolicy → ℕ
policy_sha policy = policy.policy_id

-- The commands are told apart by their kind and their task or event.
abbrev command_code : Command → ℕ
command_code (stage draft expected) = draft.event_id
command_code (add_link link expected) = 1000 + link.event_id
command_code (act_on action) = 2000 + action.expected_revision

abbrev pub input_sha : Input → ℕ
input_sha input = command_code input.command

abbrev pub no_case : CaseDb
no_case = record {
  watch = polled_once;
  cases = [];
  reviews = [];
  revisions = [];
  evidence = [];
  receipts = [];
}

abbrev pub one_case : CaseDb
one_case = value_or no_case (register_case policy_sha case_config (at 4500) no_case)

abbrev pub draft : ReviewDraft
draft = record {
  kind = observation_review;
  title = 20;
  reason = 16;
  event_id = 1;
  next_check_at = some (at 9000);
}

abbrev pub after_or {ℓ} : {A : Type ℓ} → CaseDb → Result (CaseDb × A) → CaseDb
after_or db (ok (db', a)) = db'
after_or db (err e) = db

abbrev pub staged : CaseDb
staged = after_or no_case (stage_review texts input_sha 50 3 draft 60 0 (at 5000) one_case)

abbrev pub link : EvidenceLink
link = record { task_id = 50; event_id = 1; reason = 16 }

abbrev pub linked : CaseDb
linked = after_or no_case (link_evidence texts input_sha 3 link 61 1 (at 5001) staged)

abbrev pub action : HumanAction
action = record {
  task_id = 50;
  expected_revision = 1;
  action = dismiss;
  note = 16;
  title = none;
  next_check_at = none;
}

abbrev pub dismissed_once : CaseDb
dismissed_once = after_or no_case (act texts input_sha 3 action 62 (at 5002) staged)

-- The review as it is staged, and as it is dismissed.
abbrev pub staged_record : ReviewRecord
staged_record = record {
  task_id = 50;
  case_id = 3;
  kind = observation_review;
  status = proposed;
  revision = 1;
  title = 20;
  reason = 16;
  next_check_at = some (at 9000);
  simulated = true;
  created_at = at 5000;
  updated_at = at 5000;
}

abbrev pub dismissed_record : ReviewRecord
dismissed_record = record staged_record {
  status = dismissed;
  revision = 2;
  next_check_at = none;
  updated_at = at 5002;
}
