-- ===== src/Watch/Config.antt =====
-- The checks of `SeriesSpec`, `USGSClient` and `MonitorConfig` when a monitor is configured
-- (watch/observations.py, watch/usgs.py, watch/store.py).
use watershed_memory.Base.{
  ℕ, ◌≡◌, refl, Bool, true, false, ◌&&◌, ◌||◌, not, Option, none, some, List, [], ◌∷◌, Result, ok,
  value_error, ◌>>◌, raise_if, ltb, leb, ◌==◌, eq_option, length, all, elem, arith,
}
use watershed_memory.Text.{
  Texts, is_identifier, is_parameter_code, is_series_id, is_station, bounded_source_text,
}
use watershed_memory.Watch.Records.{SeriesSpec, MonitorConfig}

-- `==` of two optional codes, specs and configs. `_config_json` is one text for one configuration.
unfoldable pub eq_spec : SeriesSpec → SeriesSpec → Bool
eq_spec a b =
    a.series_id == b.series_id
    && a.parameter_code == b.parameter_code
    && a.unit == b.unit
    && eq_option a.statistic_id b.statistic_id

unfoldable pub eq_specs : List SeriesSpec → List SeriesSpec → Bool
eq_specs [] [] = true
eq_specs (a ∷ as') (b ∷ bs) = eq_spec a b && eq_specs as' bs
eq_specs _ _ = false

unfoldable pub eq_config : MonitorConfig → MonitorConfig → Bool
eq_config a b =
    a.monitor_id == b.monitor_id
    && a.station_id == b.station_id
    && a.case_id == b.case_id
    && a.start_at == b.start_at
    && eq_specs a.series b.series
    && a.policy_version == b.policy_version
    && a.interval_seconds == b.interval_seconds
    && a.poll_seconds == b.poll_seconds
    && a.overlap_seconds == b.overlap_seconds
    && a.lease_seconds == b.lease_seconds

eq_option_refl : (o : Option ℕ) → eq_option o o ≡ true
eq_option_refl none = refl
eq_option_refl (some a) = ground arith

eq_specs_refl : (xs : List SeriesSpec) → eq_specs xs xs ≡ true
unfolding eq_specs eq_spec
eq_specs_refl [] = refl
eq_specs_refl (x ∷ xs) = ground (arith, eq_specs_refl xs, eq_option_refl x.statistic_id)

pub eq_config_refl : (c : MonitorConfig) → eq_config c c ≡ true
unfolding eq_config
eq_config_refl c = ground (arith, eq_specs_refl c.series)

module _ (texts : Texts) where
  open texts use {chars}

  -- No character of `,|`.
  abbrev delimiter_free : List ℕ → Bool
  delimiter_free = all (λ c. not (c == b',' || c == b'|'))

  -- `SeriesSpec.__post_init__`
  unfoldable pub check_spec : SeriesSpec → Result (Unit {0})
  unfolding is_series_id is_parameter_code bounded_source_text
  check_spec s = do
    raise_if
        (not (
          all (λ v. bounded_source_text texts (chars v) false && delimiter_free (chars v))
            (s.series_id ∷ s.parameter_code ∷ s.unit ∷ [])))
        value_error
    raise_if (not (is_series_id (chars s.series_id))) value_error
    raise_if (not (is_parameter_code (chars s.parameter_code))) value_error
    raise_if
        (elim s.statistic_id [ none ↦ false | some code ↦ not (is_parameter_code (chars code)) ])
        value_error

  -- The loop over `specs` in `USGSClient.__init__`: unique series and parameters, nothing empty.
  unfoldable pub check_specs : List ℕ → List ℕ → List SeriesSpec → Result (Unit {0})
  check_specs seen seen_parameters [] = ok tt
  check_specs seen seen_parameters (s ∷ rest) = do
    raise_if (elem s.series_id seen) value_error
    raise_if
        (length (chars s.parameter_code) == 0
          || elem s.parameter_code seen_parameters
          || length (chars s.unit) == 0
          || elim s.statistic_id [ none ↦ false | some code ↦ length (chars code) == 0 ])
        value_error
    check_specs (s.series_id ∷ seen) (s.parameter_code ∷ seen_parameters) rest

  -- `USGSClient.__init__` with its default limits, which satisfy the checks on them.
  unfoldable pub check_client : ℕ → List SeriesSpec → Result (Unit {0})
  unfolding is_station
  check_client station specs = do
    raise_if (not (is_station (chars station)) || ltb 64 (length (chars station))) value_error
    raise_if (length specs == 0 || ltb 16 (length specs)) value_error
    check_specs [] [] specs

  -- The timing values in `MonitorConfig.__post_init__`.
  unfoldable pub check_timing : ℕ → MonitorConfig → Result (Unit {0})
  check_timing historical c = do
    raise_if
        (not (
          all (λ v. leb 1 v && leb v 86400)
            (c.interval_seconds ∷ c.poll_seconds ∷ c.overlap_seconds ∷ c.lease_seconds ∷ [])))
        value_error
    raise_if (c.case_id == historical || leb 86400 c.overlap_seconds) value_error

  -- The identifiers and the series in `MonitorConfig.__post_init__`.
  unfoldable pub check_names : MonitorConfig → Result (Unit {0})
  unfolding is_identifier
  check_names c =
      raise_if
        (not (
            all (λ v. is_identifier (chars v))
              (c.monitor_id ∷ c.station_id ∷ c.case_id ∷ c.policy_version ∷ []))
          || length c.series == 0)
        value_error

  -- `MonitorConfig.__post_init__`; `historical` is the text GALLINAS-HPCC-2022.
  unfoldable pub check_config : ℕ → MonitorConfig → Result (Unit {0})
  check_config historical c = do
    check_names c
    check_client c.station_id c.series
    check_timing historical c
