-- ===== src/Cases/Types.antt =====
-- The commands and records of current/case_types.py with the checks of their constructors, and
-- CoveragePolicy of current/fact_types.py. Types that Python tests with `type(x) is` are types here,
-- so those tests have no counterpart; a timestamp is an instant in UTC.
use watershed_memory.Base.{
  ℕ, Bool, not, ◌&&◌, Option, none, some, Result, ok, err, value_error, ◌>>◌, raise_if, List,
  length, all, ltb, leb, ◌==◌,
}
use watershed_memory.Text.{Texts, is_identifier, is_digest}

-- `CoveragePolicy`
pub record CoveragePolicy : Type 0 where
  pub policy_id : ℕ
  pub required_parameters : List ℕ
  pub minimum_valid_samples : ℕ
  pub freshness_seconds : ℕ

pub record CaseConfig : Type 0 where
  pub case_id : ℕ
  pub monitor_id : ℕ
  pub coverage_policy : CoveragePolicy
  pub simulated : Bool

pub data Kind : Type 0 where
  observation_review coverage_review result_verification : Kind

pub data ReviewStatus : Type 0 where
  proposed approved deferred dismissed cancelled : ReviewStatus

pub data Verb : Type 0 where
  approve modify defer dismiss cancel : Verb

pub record ReviewDraft : Type 0 where
  pub kind : Kind
  pub title : ℕ
  pub reason : ℕ
  pub event_id : ℕ
  pub next_check_at : Option ℕ

pub record EvidenceLink : Type 0 where
  pub task_id : ℕ
  pub event_id : ℕ
  pub reason : ℕ

pub record HumanAction : Type 0 where
  pub task_id : ℕ
  pub expected_revision : ℕ
  pub action : Verb
  pub note : ℕ
  pub title : Option ℕ
  pub next_check_at : Option ℕ

pub record ReviewRecord : Type 0 where
  pub task_id : ℕ
  pub case_id : ℕ
  pub kind : Kind
  pub status : ReviewStatus
  pub revision : ℕ
  pub title : ℕ
  pub reason : ℕ
  pub next_check_at : Option ℕ
  pub simulated : Bool
  pub created_at : ℕ
  pub updated_at : ℕ

module _ (texts : Texts) where
  -- `_identifier`
  unfoldable pub check_identifier : ℕ → Result (Unit {0})
  check_identifier value = raise_if (not (is_identifier (texts.chars value))) value_error

  -- `_text`
  unfoldable pub check_text : ℕ → ℕ → ℕ → Result (Unit {0})
  check_text value minimum maximum =
      let chars = texts.chars value in
      raise_if
        (not
          (leb minimum (length chars) && leb (length chars) maximum && all texts.printable chars))
        value_error

  -- `CaseConfig.__post_init__`; `demo` stands for the text 'GALLINAS-HPCC-2022'.
  unfoldable pub check_case_config : ℕ → CaseConfig → Result (Unit {0})
  check_case_config demo config =
      check_identifier config.case_id
      >> check_identifier config.monitor_id
      >> raise_if (config.case_id == demo) value_error

  -- `ReviewDraft.__post_init__`
  unfoldable pub check_draft : ReviewDraft → Result (Unit {0})
  check_draft draft =
      check_text draft.title 1 120
      >> check_text draft.reason 8 700
      >> raise_if (not (is_digest (texts.chars draft.event_id))) value_error

  -- `EvidenceLink.__post_init__`
  unfoldable pub check_link : EvidenceLink → Result (Unit {0})
  check_link link =
      check_identifier link.task_id
      >> raise_if (not (is_digest (texts.chars link.event_id))) value_error
      >> check_text link.reason 8 700

  -- Which fields an action may carry.
  unfoldable pub check_plan : Verb → Option ℕ → Option ℕ → Result (Unit {0})
  check_plan modify (some title) (some due) = check_text title 1 120
  check_plan modify _ _ = err value_error
  check_plan defer none (some due) = ok tt
  check_plan defer _ _ = err value_error
  check_plan _ none none = ok tt
  check_plan _ _ _ = err value_error

  -- `HumanAction.__post_init__`
  unfoldable pub check_action : HumanAction → Result (Unit {0})
  check_action a =
      check_identifier a.task_id
      >> raise_if (ltb a.expected_revision 1) value_error
      >> check_text a.note 0 1000
      >> check_plan a.action a.title a.next_check_at

  -- `ReviewRecord.__post_init__`
  unfoldable pub check_record : ReviewRecord → Result (Unit {0})
  check_record r =
      check_identifier r.task_id
      >> check_identifier r.case_id
      >> raise_if (ltb r.revision 1) value_error
      >> check_text r.title 1 120
      >> check_text r.reason 8 700
