-- ===== src/Grant/Policy/Resolve.antt =====
-- `ResolveDuration` under a policy that `Validate` accepts.
use text.Mathlib.Text.{◌==◌ as str_eq}
use warptweet.Prelude.{ℕ, ◌*◌, ◌≤◌, ◌≡◌, refl, pos, true, leb, ◌==◌, if◌then◌else◌, ok, err, arith}
use warptweet.Grant.Time.{second}
use warptweet.Grant.Duration.Limits.{maximum_seconds, duration_from_seconds_iff}
use warptweet.Grant.Policy.{Policy, policy_kind, exceeds_maximum, validate, resolve_duration}

-- What `Validate` lets through.
pub record IsValid (policy : Policy) (default maximum : ℕ) : Type 0 where
  pub default_is : policy.default_seconds ≡ pos default
  pub maximum_is : policy.maximum_seconds ≡ pos maximum
  pub positive : 1 ≤ default
  pub ordered : default ≤ maximum
  pub bounded : maximum ≤ maximum_seconds
  pub right_kind : str_eq policy.kind policy_kind ≡ true
  pub right_version : policy.schema_version ≡ pos 1

IsValid-validate :
    (policy : Policy) {default maximum : ℕ}
    → IsValid policy default maximum
    → validate policy ≡ ok tt
unfolding validate
IsValid-validate policy {default} {maximum} v =
    let d =
      (duration_from_seconds_iff policy.default_seconds (pos (default * second))).1
        (default, v.default_is, v.positive, omega (arith, v.ordered, v.bounded), refl) in
    let m =
      (duration_from_seconds_iff policy.maximum_seconds (pos (maximum * second))).1
        (maximum, v.maximum_is, omega (arith, v.ordered, v.positive), v.bounded, refl) in
    rw (v.right_kind, v.right_version)
      (rw d (rw m (ground (arith, v.default_is, v.maximum_is, v.ordered))))

-- A request within the maximum is granted as it stands, none gets the default, and one above the
-- maximum is rejected, never clamped.
pub resolve_duration_exact :
    (policy : Policy) {default maximum : ℕ} (n : ℕ)
    → IsValid policy default maximum
    → resolve_duration policy (pos n) ≡ (
        if n == 0
        then ok (pos default)
        else if leb n maximum
        then ok (pos n)
        else err exceeds_maximum)
unfolding resolve_duration
resolve_duration_exact policy {default} {maximum} n v =
    let d =
      (duration_from_seconds_iff policy.default_seconds (pos (default * second))).1
        (default, v.default_is, v.positive, omega (arith, v.ordered, v.bounded), refl) in
    let m = λ (lo : 1 ≤ n) (hi : n ≤ maximum).
      (duration_from_seconds_iff (pos n) (pos (n * second))).1
        (n, refl, lo, omega (arith, v.ordered, v.bounded), refl) in
    rw (IsValid-validate policy v)
      (ground (arith, d, m, v.default_is, v.maximum_is, v.positive, v.ordered))
