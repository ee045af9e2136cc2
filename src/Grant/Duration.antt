-- ===== src/Grant/Duration.antt =====
-- Durations of a grant: internal/grant/duration.go.
pub mod Limits
pub mod Parse
use warptweet.Prelude.{
  ℕ, ◌+◌, ◌*◌, ◌/◌, ◌%◌, ◌-◌, ◌^◌, ℤ, pos, negsuc, i64, le_int, Bool, true, false, not, ◌||◌, ◌&&◌,
  List, [], ◌∷◌, Bytes, length, ltb, leb, ◌==◌, if◌then◌else◌, Result, ok, err, ◌>>=◌, ◌>>◌, reject,
  Option, none, some,
}
use warptweet.Grant.Time.{
  Time, Stamp, second, is_zero, add, after, DurationError, duration_empty, fractional, too_short,
  not_an_integer, overflows, not_positive, unknown_unit, not_whole_seconds, timestamp_zero,
  format_utc,
}

-- `DefaultAuthorizationDuration`, `DefaultMaximumAuthorizationDuration` and
-- `ImplementationMaximumAuthorizationDuration`, in nanoseconds
abbrev pub default_duration : ℕ
default_duration = 30 * 24 * 3600 * second

abbrev pub default_maximum : ℕ
default_maximum = 365 * 24 * 3600 * second

abbrev pub implementation_maximum : ℕ
implementation_maximum = 100 * 365 * 24 * 3600 * second

-- The nanoseconds of a positive duration, or 0.
abbrev pub positive_part : ℤ → ℕ
positive_part (pos n) = n
positive_part (negsuc n) = 0

-- `Seconds`
unfoldable pub seconds : ℤ → Result DurationError ℤ
seconds duration =
    if le_int duration (pos 0)
    then err not_positive
    else let n = positive_part duration in
      if not (n % second == 0)
      then err not_whole_seconds
      else if ltb implementation_maximum n
      then err overflows
      else ok (pos (n / second))

-- `DurationFromSeconds`; the product is an int64
unfoldable pub duration_from_seconds : ℤ → Result DurationError ℤ
unfolding i64
duration_from_seconds count =
    if le_int count (pos 0)
    then err not_positive
    else let n = positive_part count in
      if ltb (implementation_maximum / second) n then err overflows else ok (i64 (n * second))

-- `AuthorizationNotAfter`: the time and its text
unfoldable pub authorization_not_after : Time → ℤ → Result DurationError (Time × Stamp)
authorization_not_after accepted_at duration_seconds = do
  duration ← duration_from_seconds duration_seconds
  reject (is_zero accepted_at) timestamp_zero
  let not_after = add accepted_at (positive_part duration)
  reject (not (after not_after accepted_at)) overflows
  encoded ← format_utc not_after
  ok (not_after, encoded)

-- The ASCII white space of `strings.TrimSpace`; the text is ASCII.
abbrev pub is_space : ℕ → Bool
is_space c = (leb 9 c && leb c 13) || c == 32

unfoldable pub trim_left : Bytes → Bytes
trim_left [] = []
trim_left (c ∷ cs) = if is_space c then trim_left cs else c ∷ cs

abbrev pub drop_space : ℕ → Bytes → Bytes
drop_space c [] = if is_space c then [] else c ∷ []
drop_space c (d ∷ ds) = c ∷ d ∷ ds

unfoldable pub trim_right : Bytes → Bytes
trim_right [] = []
trim_right (c ∷ cs) = drop_space c (trim_right cs)

abbrev pub trim_space : Bytes → Bytes
trim_space s = trim_right (trim_left s)

-- `strings.ContainsAny(s, ".eE+/")`
abbrev pub is_forbidden : ℕ → Bool
is_forbidden c = c == b'.' || c == b'e' || c == b'E' || c == b'+' || c == b'/'

unfoldable pub contains_forbidden : Bytes → Bool
contains_forbidden [] = false
contains_forbidden (c ∷ cs) = is_forbidden c || contains_forbidden cs

abbrev pub is_digit : ℕ → Bool
is_digit c = leb b'0' c && leb c b'9'

unfoldable pub all_digits : Bytes → Bool
all_digits [] = true
all_digits (c ∷ cs) = is_digit c && all_digits cs

-- the value of decimal digits, behind those already read
unfoldable pub decimal_from : ℕ → Bytes → ℕ
decimal_from acc [] = acc
decimal_from acc (c ∷ cs) = decimal_from (10 * acc + (c - b'0')) cs

-- `strconv.ParseUint(number, 10, 63)` on digits alone: it fails where the value needs more bits
unfoldable pub parse_uint63 : Bytes → Option ℕ
parse_uint63 ds = if ltb (decimal_from 0 ds) (2 ^ 63) then some (decimal_from 0 ds) else none

-- the text before its last byte, and that byte
unfoldable pub split_last : ℕ → Bytes → Bytes × ℕ
split_last c [] = ([], c)
split_last c (d ∷ ds) = let (front, last) = split_last d ds in (c ∷ front, last)

unfoldable pub unit_duration : ℕ → Result DurationError ℕ
unit_duration unit =
    if unit == b'd'
    then ok (24 * 3600 * second)
    else if unit == b'h'
    then ok (3600 * second)
    else if unit == b'm'
    then ok (60 * second)
    else if unit == b's'
    then ok second
    else err unknown_unit

-- `number[0] == '-'`, or no number
abbrev pub empty_or_minus : Bytes → Bool
empty_or_minus [] = true
empty_or_minus (c ∷ _) = c == b'-'

abbrev pub require_some : Option ℕ → Result DurationError ℕ
require_some none = err overflows
require_some (some n) = ok n

-- from the split text on
unfoldable pub parse_parts : Bytes → ℕ → Result DurationError ℤ
parse_parts number unit = do
  reject (empty_or_minus number) not_an_integer
  reject (not (all_digits number)) not_an_integer
  quantity ← require_some (parse_uint63 number)
  reject (quantity == 0) not_positive
  length_of_unit ← unit_duration unit
  reject (ltb (implementation_maximum / length_of_unit) quantity) overflows
  let parsed = i64 (quantity * length_of_unit)
  reject (not (positive_part parsed % second == 0)) not_whole_seconds
  ok parsed

unfoldable pub parse_trimmed : Bytes → Result DurationError ℤ
unfolding contains_forbidden
parse_trimmed [] = err duration_empty
parse_trimmed (c ∷ cs) = do
  reject (contains_forbidden (c ∷ cs)) fractional
  reject (ltb (length (c ∷ cs)) 2) too_short
  let (number, unit) = split_last c cs
  parse_parts number unit

-- `ParseAccessDuration`
unfoldable pub parse_access_duration : Bytes → Result DurationError ℤ
parse_access_duration value = parse_trimmed (trim_space value)
