-- ===== src/Grant/Time.antt =====
-- `time.Time` and `time.Duration` as internal/grant uses them, and the texts of timestamps.
-- A time is its count of nanoseconds from the least time that Go represents, whose seconds
-- counter, an int64 that starts in year 1, is -2^63. So the zero time is 2^63 seconds, and
-- `Add` wraps where Go's counter does. A duration is an int64 of nanoseconds.
use warptweet.Prelude.{ℕ, ◌+◌, ◌*◌, ◌%◌, ◌^◌, Bool, ltb, ◌==◌, Result, ok, err, if◌then◌else◌}

abbrev pub Time : Type 0
Time = ℕ

-- `time.Second`
abbrev pub second : ℕ
second = 1_000_000_000

abbrev pub time_span : ℕ
time_span = 2 ^ 64 * second

abbrev pub zero_time : Time
zero_time = 2 ^ 63 * second

abbrev pub is_zero : Time → Bool
is_zero t = t == zero_time

-- `t.Add(d)` for a duration d that is not negative
abbrev pub add : Time → ℕ → Time
add t d = (t + d) % time_span

abbrev pub before : Time → Time → Bool
before = ltb

abbrev pub after : Time → Time → Bool
after t u = ltb u t

-- The first instants of 2020 and of 2201, for the tests on `Year()`.
abbrev pub start_of_2020 : Time
start_of_2020 = zero_time + 63_713_433_600 * second

abbrev pub start_of_2201 : Time
start_of_2201 = zero_time + 69_425_251_200 * second

-- The text of a timestamp, by what `ParseUTC` sees in it: nothing but blanks, no `Z` at its end,
-- a `Z` behind what `time.Parse` refuses, or a UTC time. `FormatUTC` writes the last kind.
pub data Stamp : Type 0 where
  blank no_suffix_z malformed : Stamp
  utc : Time → Stamp

pub data DurationError : Type 0 where
  duration_empty fractional too_short not_an_integer overflows not_positive : DurationError
  unknown_unit not_whole_seconds : DurationError
  timestamp_zero timestamp_empty timestamp_not_utc timestamp_unparsable : DurationError

unfoldable pub format_utc : Time → Result DurationError Stamp
format_utc value = if is_zero value then err timestamp_zero else ok (utc value)

unfoldable pub parse_utc : Stamp → Result DurationError Time
parse_utc blank = err timestamp_empty
parse_utc no_suffix_z = err timestamp_not_utc
parse_utc malformed = err timestamp_unparsable
parse_utc (utc t) = ok t
