-- ===== src/Supervisor/Policy.antt =====
-- The restart policy: `Policy`, `validatePolicy`, `nextBackoff` and the defaults that a run
-- selects. A `time.Duration` is an int64 of nanoseconds.
pub mod Backoff
use warptweet.Prelude.{
  ℕ, suc, ◌+◌, ◌-◌, ◌*◌, ◌/◌, ◌%◌, ◌^◌, ℤ, pos, negsuc, i64, lt_int, le_int, ltb, Bool, ◌||◌, ◌&&◌,
  if◌then◌else◌, Result, ok, err, ◌>>=◌, ◌>>◌, reject,
}

pub record Policy : Type 0 where
  pub restart : Bool
  pub initial_backoff : ℤ
  pub maximum_backoff : ℤ
  pub stable_window : ℤ
  pub startup_timeout : ℤ
  pub maximum_attempts : ℤ

pub data PolicyError : Type 0 where
  initial_not_positive maximum_below_initial negative_window negative_timeout negative_attempts :
      PolicyError

unfoldable pub validate_policy : Policy → Result PolicyError (Unit {0})
validate_policy policy = do
  reject (le_int policy.initial_backoff (pos 0)) initial_not_positive
  reject (lt_int policy.maximum_backoff policy.initial_backoff) maximum_below_initial
  reject (lt_int policy.stable_window (pos 0)) negative_window
  reject (lt_int policy.startup_timeout (pos 0)) negative_timeout
  reject (lt_int policy.maximum_attempts (pos 0)) negative_attempts
  ok tt

-- `d / 2`, which rounds towards 0, and `d * 2` in 64 bits
abbrev pub half : ℤ → ℤ
half (pos n) = pos (n / 2)
half (negsuc n) = if ltb 0 n then negsuc ((n + 1) / 2 - 1) else pos 0

abbrev pub double : ℤ → ℤ
double (pos n) = i64 (n * 2)
double (negsuc n) = i64 (2 ^ 65 - (n + 1) * 2)

unfoldable pub next_backoff : ℤ → ℤ → ℤ
unfolding i64
next_backoff current maximum =
    if le_int maximum current || lt_int (half maximum) current then maximum else double current

abbrev pub is_zero : ℤ → Bool
is_zero n = le_int (pos 0) n && le_int n (pos 0)

-- `defaultStableWindow`, `defaultStartupTimeout` and `defaultMaximumAttempts`
abbrev pub default_stable_window : ℤ
default_stable_window = pos 60_000_000_000

abbrev pub default_startup_timeout : ℤ
default_startup_timeout = pos 30_000_000_000

abbrev pub default_maximum_attempts : ℤ
default_maximum_attempts = pos 10

-- `x := policy.X; if x == 0 { x = defaultX }`
abbrev pub or_default : ℤ → ℤ → ℤ
or_default value default = if is_zero value then default else value
