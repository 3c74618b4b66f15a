-- ===== src/Time.antt =====
-- Instants and durations of Python's `datetime`, as watch/store.py and current/ use them: an aware
-- UTC datetime is its number of microseconds since datetime.min. The stored text `iso(value)` of an
-- instant is represented by the instant: isoformat pads every field, so texts sort as instants do.
use watershed_memory.Base.{
  ℕ, ◌+◌, ◌-◌, ◌*◌, ◌/◌, ◌≤◌, ◌<◌, ◌≡◌, Bool, Result, ok, err, overflow_error, arith, leb,
  if◌then◌else◌,
}

abbrev pub microseconds : ℕ → ℕ
microseconds seconds = seconds * 1000000

-- `datetime.max`, the last microsecond of the year 9999.
abbrev pub max_instant : ℕ
max_instant = 315537897599999999

-- `t + timedelta(seconds=s)`
unfoldable pub plus_seconds : ℕ → ℕ → Result ℕ
plus_seconds t s =
    if leb (t + microseconds s) max_instant then ok (t + microseconds s) else err overflow_error

-- `t - timedelta(seconds=s)`
unfoldable pub minus_seconds : ℕ → ℕ → Result ℕ
minus_seconds t s = if leb (microseconds s) t then ok (t - microseconds s) else err overflow_error

-- `a - b <= timedelta(seconds=s)`, where `a - b` may be negative.
abbrev pub within_seconds : ℕ → ℕ → ℕ → Bool
within_seconds a b s = leb a (b + microseconds s)

pub plus_seconds-eq : (t s u : ℕ) → plus_seconds t s ≡ ok u → u ≡ t + microseconds s
unfolding plus_seconds
plus_seconds-eq t s u h = ground arith

pub minus_seconds-eq : (t s u : ℕ) → minus_seconds t s ≡ ok u → t ≡ u + microseconds s
unfolding minus_seconds
minus_seconds-eq t s u h = ground arith

-- 1970-01-01T00:00:00Z.
abbrev pub epoch : ℕ
epoch = 62135596800000000

-- `epoch + ((t - epoch) // width) * width`: the floor division of Python rounds a negative quotient
-- down, so before the epoch the quotient is that of the next multiple. (`width` is positive.)
unfoldable pub floor_to : ℕ → ℕ → Result ℕ
floor_to width t =
    if leb epoch t
    then ok (epoch + (t - epoch) / width * width)
    else let back = (epoch - t + width - 1) / width * width in
      if leb back epoch then ok (epoch - back) else err overflow_error

-- The instant lies in the interval that `floor_to` starts.
pub floor_to_interval :
    (width t s : ℕ) → 0 < width → floor_to width t ≡ ok s → (s ≤ t) × (t < s + width)
unfolding floor_to
floor_to_interval width t s w h = ground arith
