-- ===== src/Grant/Policy.antt =====
-- The host's policy on durations: internal/grant/policy.go.
pub mod Resolve
use Prim.Native.String.{String}
use text.Mathlib.Text.{◌==◌ as str_eq}
use warptweet.Prelude.{
  ℕ, ◌/◌, ℤ, pos, negsuc, lt_int, le_int, Bool, not, ◌||◌, ◌&&◌, if◌then◌else◌, Result, ok, err,
  ◌>>=◌, ◌>>◌, reject,
}
use warptweet.Grant.Time.{second, DurationError, not_positive}
use warptweet.Grant.Duration.{default_duration, default_maximum, duration_from_seconds}

pub record Policy : Type 0 where
  pub kind : String
  pub schema_version : ℤ
  pub default_seconds : ℤ
  pub maximum_seconds : ℤ

abbrev pub policy_kind : String
policy_kind = "warptweet.host-authorization-policy"

pub data PolicyError : Type 0 where
  unsupported maximum_below_default exceeds_maximum : PolicyError
  invalid_default invalid_maximum invalid_duration : DurationError → PolicyError

-- `err` with the error of the duration in it
abbrev pub in_policy : (DurationError → PolicyError) → Result DurationError ℤ → Result PolicyError ℤ
in_policy wrap (ok d) = ok d
in_policy wrap (err e) = err (wrap e)

abbrev pub is_one : ℤ → Bool
is_one n = le_int (pos 1) n && le_int n (pos 1)

unfoldable pub installed_default : Policy
installed_default = record {
  kind = policy_kind;
  schema_version = pos 1;
  default_seconds = pos (default_duration / second);
  maximum_seconds = pos (default_maximum / second);
}

unfoldable pub validate : Policy → Result PolicyError (Unit {0})
validate policy = do
  reject (not (str_eq policy.kind policy_kind) || not (is_one policy.schema_version)) unsupported
  _ ← in_policy invalid_default (duration_from_seconds policy.default_seconds)
  _ ← in_policy invalid_maximum (duration_from_seconds policy.maximum_seconds)
  reject (lt_int policy.maximum_seconds policy.default_seconds) maximum_below_default
  ok tt

-- `if seconds == 0 { seconds = policy.Default… }`
abbrev pub or_default : Policy → ℤ → ℤ
or_default policy requested =
    if le_int (pos 0) requested && le_int requested (pos 0)
    then policy.default_seconds
    else requested

unfoldable pub resolve_duration : Policy → ℤ → Result PolicyError ℤ
resolve_duration policy requested = do
  validate policy
  let seconds = or_default policy requested
  reject (le_int seconds (pos 0)) (invalid_duration not_positive)
  reject (lt_int policy.maximum_seconds seconds) exceeds_maximum
  _ ← in_policy invalid_duration (duration_from_seconds seconds)
  ok seconds
