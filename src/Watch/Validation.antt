-- ===== src/Watch/Validation.antt =====
-- `validate_batch` of watch/store_validation.py: a source batch is checked against the configuration
-- and the lease before a transaction may apply it. Two checks are arguments: `authority`, the outcome
-- of the checks of one page's address (urllib and `USGSClient` decide it), and `bounded_value`, the
-- bounds on the digits and the exponent of a Decimal, which its value does not determine.
pub mod Order
use watershed_memory.Base.{
  ℕ, suc, ◌+◌, ◌*◌, Bool, true, false, ◌&&◌, ◌||◌, not, Option, none, some, List, [], ◌∷◌, Result,
  ok, err, value_error, source_error, data_conflict, ◌>>=◌, ◌>>◌, raise_if, or_raise, ltb, leb,
  ◌==◌, eq_option, length, all, any, elem, if◌then◌else◌,
}
use watershed_memory.Base.Table.{find}
use watershed_memory.Text.{Texts, is_digest, is_id_char, bounded_source_text, text_lt}
use watershed_memory.Time.{microseconds, plus_seconds}
use watershed_memory.Watch.Records.{SeriesSpec, MonitorConfig, PollLease}
use watershed_memory.Watch.Tables.{
  Approval, approved, provisional, other_state, PageReceipt, Observation, SourceBatch,
}

-- The checks on the batch as a whole.
unfoldable pub validate_scope : SourceBatch → MonitorConfig → PollLease → ℕ → Result (Unit {0})
validate_scope batch config lease now = do
  raise_if
      (not (
        batch.station_id == config.station_id
        && batch.start == lease.start
        && batch.end == lease.end))
      value_error
  raise_if (not (leb lease.acquired_at batch.retrieved_at && leb batch.retrieved_at now))
      value_error
  raise_if (ltb 16000 (length batch.observations)) value_error
  raise_if (not (leb 1 (length batch.pages) && leb (length batch.pages) 64)) value_error

-- 16 * 1024 * 1024
abbrev pub max_bytes : ℕ
max_bytes = 16777216

module _ (texts : Texts) (authority : ℕ → PageReceipt → Bool) (batch : SourceBatch) where
  -- The loop over the pages: the addresses seen, the bytes so far and the index.
  unfoldable pub validate_pages : List ℕ → ℕ → ℕ → List PageReceipt → Result (Unit {0})
  unfolding is_digest
  validate_pages seen total index [] = ok tt
  validate_pages seen total index (page ∷ rest) = do
    raise_if
        (not (page.retrieved_at == batch.retrieved_at)
          || not (is_digest (texts.chars page.sha256))
          || not (leb 1 page.byte_count && leb page.byte_count max_bytes)
          || ltb 4096 (length (texts.chars page.url))
          || elem page.url seen)
        value_error
    raise_if (ltb max_bytes (total + page.byte_count)) value_error
    raise_if (not (authority index page)) value_error
    validate_pages (page.url ∷ seen) (total + page.byte_count) (suc index) rest

abbrev pub Identity : Type 0
Identity = ℕ × ℕ

-- `observation.identity in identities`
unfoldable pub is_seen : Identity → List Identity → Bool
is_seen i [] = false
is_seen i (j ∷ rest) = i.0 == j.0 && i.1 == j.1 || is_seen i rest

abbrev pub order_of : Observation → Identity
order_of o = (o.observed_at, o.series_id)

module _ (texts : Texts) where
  -- `order <= previous_order` is the negation of this: by time, then by series.
  unfoldable pub order_lt : Identity → Identity → Bool
  order_lt (t, s) (u, r) = ltb t u || t == u && text_lt (texts.chars s) (texts.chars r)

  -- Whether an observation comes after the previous one, if there is one.
  unfoldable pub in_order : Option Identity → Identity → Bool
  in_order none order = true
  in_order (some previous) order = order_lt previous order

module _ (texts : Texts) (bounded_value : Observation → Bool) (config : MonitorConfig)
    (lease : PollLease) (batch : SourceBatch) where
  -- The registered series with the identity that the observation names.
  abbrev pub matches_spec : Observation → SeriesSpec → Bool
  matches_spec o s =
      o.station_id == config.station_id
      && o.parameter_code == s.parameter_code
      && o.unit == s.unit
      && eq_option o.statistic_id s.statistic_id

  abbrev pub is_known_state : Approval → Bool
  is_known_state approved = true
  is_known_state provisional = true
  is_known_state other_state = false

  -- The checks of an observation's identity and time.
  unfoldable pub validate_identity : Observation → Result (Unit {0})
  unfolding find
  validate_identity o = do
    spec ←
        or_raise (find (λ (s : SeriesSpec). s.series_id == o.series_id) config.series) value_error
    raise_if (not (matches_spec o spec)) value_error
    raise_if (not (leb lease.start o.observed_at && leb o.observed_at lease.end)) value_error

  -- The checks of its publication metadata and value.
  unfoldable pub validate_metadata : Observation → Result (Unit {0})
  unfolding bounded_source_text is_id_char
  validate_metadata o = do
    latest ← plus_seconds batch.retrieved_at 60
    raise_if (ltb latest o.source_modified_at) (source_error data_conflict none)
    raise_if (not (is_known_state o.approval_status)) value_error
    raise_if
        (elim o.qualifier [
          | none ↦ false
          | some q ↦ not (bounded_source_text texts (texts.chars q) true)
        ])
        value_error
    raise_if
        (not (bounded_source_text texts (texts.chars o.provider_id) false)
          || not (all is_id_char (texts.chars o.provider_id)))
        value_error
    raise_if (elim o.value [ none ↦ false | some _ ↦ not (bounded_value o) ]) value_error

  -- The checks on one observation alone.
  unfoldable pub validate_item : Observation → Result (Unit {0})
  validate_item o = do validate_identity o; validate_metadata o

  -- The loop over the observations.
  unfoldable pub validate_items :
      List Identity → Option Identity → List Observation → Result (Unit {0})
  validate_items seen previous [] = ok tt
  validate_items seen previous (o ∷ rest) = do
    validate_item o
    raise_if (is_seen (order_of o) seen) value_error
    raise_if (not (in_order texts previous (order_of o))) value_error
    validate_items (order_of o ∷ seen) (some (order_of o)) rest

-- `validate_batch`
unfoldable pub validate_batch :
    Texts
    → (MonitorConfig → PollLease → SourceBatch → ℕ → PageReceipt → Bool)
    → (Observation → Bool)
    → SourceBatch
    → MonitorConfig
    → PollLease
    → ℕ
    → Result (Unit {0})
validate_batch texts authority bounded_value batch config lease now = do
  validate_scope batch config lease now
  validate_pages texts (authority config lease batch) batch [] 0 0 batch.pages
  validate_items texts bounded_value config lease batch [] none batch.observations
