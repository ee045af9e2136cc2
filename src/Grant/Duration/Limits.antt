-- ===== src/Grant/Duration/Limits.antt =====
-- The bounds of `Seconds`, `DurationFromSeconds` and `AuthorizationNotAfter`.
use warptweet.Prelude.{
  ℕ, ◌+◌, ◌*◌, ◌<◌, ◌≤◌, ◌≡◌, ◌↔◌, refl, ℤ, pos, negsuc, not, ok, arith, >>=-eq-ok, reject-eq-ok,
}
use warptweet.Grant.Time.{Time, Stamp, utc, second, is_zero, add, after, time_span, format_utc}
use warptweet.Grant.Duration.{
  positive_part, seconds, duration_from_seconds, authorization_not_after,
}

abbrev pub maximum_seconds : ℕ
maximum_seconds = 3_153_600_000

-- `DurationFromSeconds` accepts exactly 1 to 3,153,600,000 seconds, 100 years of 365 days, and
-- the product that it returns is exact: no bit of the int64 is lost.
pub duration_from_seconds_iff :
    (count d : ℤ)
    → (duration_from_seconds count ≡ ok d)
      ↔ ((n : ℕ) × (count ≡ pos n) × (1 ≤ n) × (n ≤ maximum_seconds) × (d ≡ pos (n * second)))
unfolding duration_from_seconds
duration_from_seconds_iff (pos n) d = (
  (λ h. (n, refl, ground arith, ground arith, ground arith)),
  (λ (m, e, lo, hi, r). ground arith),
)
duration_from_seconds_iff (negsuc n) d = ((λ h. cc), (λ (m, e, lo, hi, r). cc))

-- `Seconds` and `DurationFromSeconds` undo one another on all that either accepts.
pub seconds_inverse : (count d : ℤ) → (duration_from_seconds count ≡ ok d) ↔ (seconds d ≡ ok count)
unfolding duration_from_seconds seconds
seconds_inverse (pos n) (pos d) = ((λ h. ground arith), (λ h. ground arith))
seconds_inverse (pos n) (negsuc d) = ((λ h. ground arith), (λ h. ground arith))
seconds_inverse (negsuc n) (pos d) = ((λ h. ground arith), (λ h. ground arith))
seconds_inverse (negsuc n) (negsuc d) = ((λ h. ground arith), (λ h. ground arith))

-- The expiry of a grant that `AuthorizationNotAfter` returns is later than its acceptance, and
-- by the granted duration to the nanosecond, which is 1 second to 100 years; its text is that time.
pub authorization_not_after_exact :
    (accepted_at : Time) (count : ℤ) (not_after : Time) (encoded : Stamp)
    → accepted_at < time_span
    → authorization_not_after accepted_at count ≡ ok (not_after, encoded)
    → (n : ℕ) × (count ≡ pos n)
      × (1 ≤ n)
      × (n ≤ maximum_seconds)
      × (not_after ≡ accepted_at + n * second)
      × (encoded ≡ utc not_after)
unfolding authorization_not_after format_utc
authorization_not_after_exact accepted_at count not_after encoded real e =
    let (d, e₁, f₁) = >>=-eq-ok (duration_from_seconds count) _ e in
    let (n, is_n, lo, hi, is_d) = (duration_from_seconds_iff count d).0 e₁ in
    let (non_zero, f₂) = reject-eq-ok (is_zero accepted_at) _ _ f₁ in
    let (later, f₃) =
      reject-eq-ok (not (after (add accepted_at (positive_part d)) accepted_at)) _ _ f₂ in
    (n, is_n, lo, hi, ground arith, ground arith)
