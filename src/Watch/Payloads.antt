-- ===== src/Watch/Payloads.antt =====
-- watch/store_events.py, `_payload`: what an event says of the observations of its interval.
use mathlib.Core.Option
use watershed_memory.Base.{
  ℕ, suc, max, Bool, true, false, Option, none, some, List, [], ◌∷◌, map, Result, ok, value_error,
  ◌>>◌, raise_if, ltb, ◌==◌, length, elem, if◌then◌else◌,
}
use watershed_memory.Base.Table.{select}
use watershed_memory.Base.Int.{ℤ, min_ℤ, max_ℤ}
use watershed_memory.Watch.Records.{SeriesSpec, MonitorConfig}
use watershed_memory.Watch.Tables.{
  Approval, approved, provisional, other_state, SeriesSummary, Payload,
}

-- A row of the JOIN of `observations_current` with `observation_versions`.
pub record Joined : Type 0 where
  pub series_id : ℕ
  pub observed_at : ℕ
  pub version_id : ℕ
  pub value : Option ℤ
  pub approval_status : Approval
  pub qualifier : Option ℕ
  pub semantic_hash : ℕ

-- What is digested of a member, and the identity of an event.
pub record MemberKey : Type 0 where
  pub version_id : ℕ
  pub series_id : ℕ
  pub observed_at : ℕ
  pub semantic_hash : ℕ

pub record EventIdentity : Type 0 where
  pub monitor_id : ℕ
  pub policy_version : ℕ
  pub interval_start : ℕ
  pub revision : ℕ
  pub digest : ℕ

-- SHA-256 over the JSON of the members and of an identity, and the bytes of a payload's JSON.
pub record Digests : Type 0 where
  pub members : List MemberKey → ℕ
  pub event : EventIdentity → ℕ
  pub payload_bytes : Payload → ℕ

module _ {ℓ} {A : Type ℓ} (before : A → A → Bool) where
  -- `ORDER BY`: a stable sort.
  unfoldable pub insert_sorted : A → List A → List A
  insert_sorted x [] = x ∷ []
  insert_sorted x (y ∷ ys) = if before y x then y ∷ insert_sorted x ys else x ∷ y ∷ ys

  unfoldable pub sort : List A → List A
  unfolding insert_sorted
  sort [] = []
  sort (x ∷ xs) = insert_sorted x (sort xs)

-- `Counter`
unfoldable pub tally {ℓ} : {A : Type ℓ} → (A → A → Bool) → A → List (A × ℕ) → List (A × ℕ)
tally same x [] = (x, 1) ∷ []
tally same x ((y, n) ∷ rest) = if same x y then (y, suc n) ∷ rest else (y, n) ∷ tally same x rest

unfoldable pub counter {ℓ} : {A : Type ℓ} → (A → A → Bool) → List A → List (A × ℕ) → List (A × ℕ)
unfolding tally
counter same [] acc = acc
counter same (x ∷ xs) acc = counter same xs (tally same x acc)

abbrev pub same_approval : Approval → Approval → Bool
same_approval approved approved = true
same_approval provisional provisional = true
same_approval other_state other_state = true
same_approval _ _ = false

-- The values that are not None.
unfoldable pub present {ℓ} : {A : Type ℓ} → List (Option A) → List A
present [] = []
present (none ∷ rest) = present rest
present (some a ∷ rest) = a ∷ present rest

unfoldable pub fold_value : (ℤ → ℤ → ℤ) → List ℤ → Option ℤ
fold_value f [] = none
fold_value f (x ∷ xs) = elim (fold_value f xs) [ none ↦ some x | some y ↦ some (f x y) ]

-- `max(group, key=observed_at)`, the first of equals.
unfoldable pub latest_row : List Joined → Option Joined
latest_row [] = none
latest_row (x ∷ xs) = elim (latest_row xs) [
  | none ↦ some x
  | some y ↦ if ltb x.observed_at y.observed_at then some y else some x
]

unfoldable pub qualifier_set : List ℕ → List ℕ
qualifier_set [] = []
qualifier_set (q ∷ qs) = let rest = qualifier_set qs in if elem q rest then rest else q ∷ rest

unfoldable pub summarize : List Joined → SeriesSpec → SeriesSummary
unfolding select present fold_value latest_row counter
summarize members spec =
    let group = select (λ (r : Joined). r.series_id == spec.series_id) members in
    let values = present (map (λ (r : Joined). r.value) group) in
    let latest = latest_row group in
    record {
      series_id = spec.series_id;
      sample_count = length group;
      valid_count = length values;
      latest_at = Option.map (λ r. r.observed_at) latest;
      latest_value = elim latest [ none ↦ none | some r ↦ r.value ];
      min_value = fold_value min_ℤ values;
      max_value = fold_value max_ℤ values;
      unit = spec.unit;
      approval_counts = counter same_approval (map (λ (r : Joined). r.approval_status) group) [];
      qualifier_counts =
          counter (λ a b. a == b) (present (map (λ (r : Joined). r.qualifier) group)) [];
    }

-- `_payload`
unfoldable pub payload_of : MonitorConfig → ℕ → ℕ → List Joined → Result Payload
unfolding summarize qualifier_set
payload_of config start end_at members = do
  raise_if (ltb 16 (length (qualifier_set (present (map (λ (r : Joined). r.qualifier) members)))))
      value_error
  ok (record {
    policy_version = config.policy_version;
    station_id = config.station_id;
    interval_start = start;
    interval_end = end_at;
    coverage_start = max config.start_at start;
    coverage_end = end_at;
    observation_count = length members;
    series = map (summarize members) config.series;
  })
