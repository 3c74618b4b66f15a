-- ===== src/Cases/Registration.antt =====
-- `register` of current/case_store.py, and the checks of expected revisions and due times.
use watershed_memory.Base.{
  ℕ, ◌+◌, Bool, true, false, not, ◌&&◌, Option, none, some, Result, ok, err, value_error, key_error,
  workflow_conflict, ◌>>=◌, ◌>>◌, raise_if, or_raise, List, [], ◌∷◌, ◌++◌, map, elem, all, ltb, leb,
  ◌==◌, if◌then◌else◌,
}
use watershed_memory.Base.Table.{find}
use watershed_memory.Time.{microseconds}
use watershed_memory.Watch.Records.{SeriesSpec}
use watershed_memory.Watch.Store.{of_id}
use watershed_memory.Cases.Types.{CoveragePolicy, CaseConfig}
use watershed_memory.Cases.Records.{CaseRow, CaseDb, of_case}

-- `_expected`
unfoldable pub check_expected : ℕ → Result (Unit {0})
check_expected value = raise_if (not (ltb value 9223372036854775808)) value_error

-- `_future`: 0 < due - now <= 30 days.
unfoldable pub check_future : Option ℕ → ℕ → Result (Unit {0})
check_future none now = ok tt
check_future (some due) now =
    raise_if (not (ltb now due && leb due (now + microseconds 2592000))) value_error

unfoldable pub eq_list : List ℕ → List ℕ → Bool
eq_list [] [] = true
eq_list (x ∷ xs) (y ∷ ys) = x == y && eq_list xs ys
eq_list _ _ = false

abbrev pub eq_bool : Bool → Bool → Bool
eq_bool true b = b
eq_bool false b = not b

unfoldable pub eq_policy : CoveragePolicy → CoveragePolicy → Bool
eq_policy a b =
    a.policy_id == b.policy_id
    && eq_list a.required_parameters b.required_parameters
    && a.minimum_valid_samples == b.minimum_valid_samples
    && a.freshness_seconds == b.freshness_seconds

-- Whether two configurations have one encoding.
unfoldable pub eq_case_config : CaseConfig → CaseConfig → Bool
eq_case_config a b =
    a.case_id == b.case_id
    && a.monitor_id == b.monitor_id
    && eq_policy a.coverage_policy b.coverage_policy
    && eq_bool a.simulated b.simulated

abbrev pub new_case : (CoveragePolicy → ℕ) → CaseConfig → ℕ → CaseRow
new_case digest config now = record {
  case_id = config.case_id;
  monitor_id = config.monitor_id;
  config = config;
  policy_digest = digest config.coverage_policy;
  simulated = config.simulated;
  revision = 0;
  created_at = now;
  updated_at = now;
}

-- The branch of `register` for a new case.
unfoldable pub add_case : (CoveragePolicy → ℕ) → CaseConfig → ℕ → CaseDb → Result CaseDb
add_case digest config now db = do
  monitor ← or_raise (find (of_id config.monitor_id) db.watch.monitors) key_error
  raise_if (not config.simulated && not (config.case_id == monitor.config.case_id)) value_error
  raise_if
      (not (
        all (λ p. elem p (map (λ (s : SeriesSpec). s.parameter_code) monitor.config.series))
          config.coverage_policy.required_parameters))
      value_error
  ok (record db { cases = db.cases ++ new_case digest config now ∷ [] })

-- `register`
unfoldable pub register_case : (CoveragePolicy → ℕ) → CaseConfig → ℕ → CaseDb → Result CaseDb
register_case digest config now db = elim (find (of_case config.case_id) db.cases) [
  | none ↦ add_case digest config now db
  | some existing ↦ if eq_case_config existing.config config then ok db else err workflow_conflict
]
