-- ===== src/Supervisor/Policy/Backoff.antt =====
-- Laws of `nextBackoff` under a validated policy.
use warptweet.Prelude.{
  ℕ, ◌*◌, ◌^◌, ◌<◌, ◌≤◌, ◌≡◌, refl, ℤ, pos, negsuc, lt_int, le_int, false, ok, reject-eq-ok, arith,
}
use warptweet.Supervisor.Policy.{Policy, validate_policy, next_backoff}
use Prim.Native.Nat.{min}

-- The values of a policy that `validatePolicy` accepts, as int64.
pub record IsValid (policy : Policy) (initial maximum window timeout attempts : ℕ) : Type 0 where
  pub initial_is : policy.initial_backoff ≡ pos initial
  pub maximum_is : policy.maximum_backoff ≡ pos maximum
  pub window_is : policy.stable_window ≡ pos window
  pub timeout_is : policy.startup_timeout ≡ pos timeout
  pub attempts_is : policy.maximum_attempts ≡ pos attempts
  pub positive : 1 ≤ initial
  pub ordered : initial ≤ maximum

pub non_negative : (n : ℤ) → lt_int n (pos 0) ≡ false → (m : ℕ) × (n ≡ pos m)
non_negative (pos n) h = (n, refl)
non_negative (negsuc n) h = cc

pub not_le_zero : (n : ℤ) → le_int n (pos 0) ≡ false → (m : ℕ) × (n ≡ pos m) × (1 ≤ m)
not_le_zero (pos n) h = (n, refl, ground arith)
not_le_zero (negsuc n) h = cc

pub not_below : (a : ℤ) (b : ℕ) → lt_int a (pos b) ≡ false → (m : ℕ) × (a ≡ pos m) × (b ≤ m)
not_below (pos n) b h = (n, refl, ground arith)
not_below (negsuc n) b h = cc

-- `validatePolicy` accepts a policy only with these values.
pub validate_policy-IsValid :
    (policy : Policy)
    → validate_policy policy ≡ ok tt
    → (initial : ℕ) × (maximum : ℕ) × (window : ℕ) × (timeout : ℕ) × (attempts : ℕ) × IsValid policy
        initial maximum window timeout attempts
unfolding validate_policy
validate_policy-IsValid policy e =
    let (h₁, f₁) = reject-eq-ok (le_int policy.initial_backoff (pos 0)) _ _ e in
    let (h₂, f₂) = reject-eq-ok (lt_int policy.maximum_backoff policy.initial_backoff) _ _ f₁ in
    let (h₃, f₃) = reject-eq-ok (lt_int policy.stable_window (pos 0)) _ _ f₂ in
    let (h₄, f₄) = reject-eq-ok (lt_int policy.startup_timeout (pos 0)) _ _ f₃ in
    let (h₅, f₅) = reject-eq-ok (lt_int policy.maximum_attempts (pos 0)) _ _ f₄ in
    let (initial, p₁, q₁) = not_le_zero policy.initial_backoff h₁ in
    let (maximum, p₂, q₂) = not_below policy.maximum_backoff initial (rw p₁ at h₂) in
    let (window, p₃) = non_negative policy.stable_window h₃ in
    let (timeout, p₄) = non_negative policy.startup_timeout h₄ in
    let (attempts, p₅) = non_negative policy.maximum_attempts h₅ in
    (
      initial,
      maximum,
      window,
      timeout,
      attempts,
      record {
        initial_is = p₁;
        maximum_is = p₂;
        window_is = p₃;
        timeout_is = p₄;
        attempts_is = p₅;
        positive = q₁;
        ordered = q₂;
      },
    )

-- The next backoff is twice the current one, capped at the maximum: the doubling never overflows
-- the int64, and the cap is exact also where twice the current would pass 2^63.
pub next_backoff_exact :
    (current maximum : ℕ)
    → maximum < 2 ^ 63
    → next_backoff (pos current) (pos maximum) ≡ pos (min (current * 2) maximum)
unfolding next_backoff
next_backoff_exact current maximum small = ground arith
