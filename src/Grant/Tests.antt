-- ===== src/Grant/Tests.antt =====
-- Concrete runs, and the theorems at concrete inputs.
use Prim.Native.String.{String}
use mathlib.Core.Path.{subst}
use mathlib.Core.Option.{some-injective}
use warptweet.Prelude.{
  codes, Bytes, [], ℕ, ◌+◌, ◌*◌, ◌/◌, ◌-◌, ◌≤◌, ◌≡◌, ◌⊎◌, refl, sym, ap, Bool, true, false, [], ◌∷◌,
  Option, none, some, ok, err, arith, pos, i64, Bytes,
}
use warptweet.Grant.Time.{Time, utc, second, zero_time, format_utc, parse_utc, fractional}
use warptweet.Grant.Status.{
  active, expiration_pending, rotation_pending, revocation_pending, revoked, same, known,
  authorize_transition,
}
use warptweet.Grant.Status.Paths.{
  History, start, mutate, is_ending, History-is_ending, History-revoked,
}
use warptweet.Grant.Duration.{
  implementation_maximum, positive_part, seconds, duration_from_seconds, authorization_not_after,
  parse_access_duration, parse_trimmed, parse_parts, parse_uint63, unit_duration, trim_left,
  trim_right, contains_forbidden, all_digits, decimal_from, split_last,
}
use warptweet.Grant.Duration.Limits.{maximum_seconds, authorization_not_after_exact}
use warptweet.Grant.Duration.Parse.{parse_access_duration_bounds}
use warptweet.Grant.Clock.{
  missing, observed, written, unsynced, observe_clock, observe_all, rolled_back,
}
use warptweet.Grant.Clock.HighWater.{mark, mark-observe_all}
use warptweet.Grant.Expire.{
  ExpirePlan, ExpireOps, ready_to_expire, validate_expire_plan, can_expire, execute_expire, run_ops,
  then_do, valid_then, allowed_then,
}
use warptweet.Grant.Expire.Gone.{Ran, Promises, execute_expire-Ran, execute_expire_gone}

-- Status

History-is_ending_example : is_ending revoked ≡ true
unfolding authorize_transition
History-is_ending_example =
    History-is_ending {s = expiration_pending} {t = revoked} refl
      (mutate {s = revocation_pending} (mutate (start refl) refl) refl)

History-revoked_example : History rotation_pending revoked
History-revoked_example = History-revoked rotation_pending (unfold known in refl) (λ e. cc)

-- Durations

abbrev thirty_days : Bytes
thirty_days = b'3' ∷ b'0' ∷ b'd' ∷ []

parse_thirty_days : parse_access_duration (b' ' ∷ thirty_days) ≡ ok (pos (30 * 24 * 3600 * second))
unfolding parse_access_duration parse_trimmed parse_parts parse_uint63 unit_duration trim_left
    trim_right contains_forbidden all_digits decimal_from split_last i64
parse_thirty_days = refl

parse_fraction : parse_access_duration (b'1' ∷ b'.' ∷ b'5' ∷ b'd' ∷ []) ≡ err fractional
unfolding parse_access_duration parse_trimmed parse_parts parse_uint63 unit_duration trim_left
    trim_right contains_forbidden all_digits decimal_from split_last i64
parse_fraction = refl

parse_access_duration_bounds_example :
    let d = pos (30 * 24 * 3600 * second) in
    (d ≡ pos (positive_part d / second * second))
    × (second ≤ positive_part d)
    × (positive_part d ≤ implementation_maximum)
    × (seconds d ≡ ok (pos (positive_part d / second)))
parse_access_duration_bounds_example =
    parse_access_duration_bounds (b' ' ∷ thirty_days) _ parse_thirty_days

-- A time of 2026.
abbrev some_day : Time
some_day = zero_time + 63_900_000_000 * second

later_day :
    authorization_not_after some_day (pos 60)
    ≡ ok (some_day + 60 * second, utc (some_day + 60 * second))
unfolding authorization_not_after duration_from_seconds i64 format_utc
later_day = refl

authorization_not_after_exact_example :
    (n : ℕ) × (pos 60 ≡ pos n)
    × (1 ≤ n)
    × (n ≤ maximum_seconds)
    × (some_day + 60 * second ≡ some_day + n * second)
    × (utc (some_day + 60 * second) ≡ utc (some_day + 60 * second))
authorization_not_after_exact_example =
    authorization_not_after_exact some_day (pos 60) (some_day + 60 * second)
      (utc (some_day + 60 * second)) (omega arith) later_day

-- Policy

-- Clock

first_observation : (observe_clock some_day written missing).1 ≡ ok (utc some_day)
unfolding observe_clock format_utc
first_observation = refl

rolled_back_two_seconds :
    (observe_clock some_day written (observed (utc (some_day + 2 * second)))).1 ≡ err rolled_back
unfolding observe_clock format_utc parse_utc
rolled_back_two_seconds = refl

mark-observe_all_example :
    mark (observed (utc some_day))
    ≤ mark (
        observe_all
          ((some_day - 5, written) ∷ (some_day + 9, unsynced) ∷ [])
          (observed (utc some_day)))
mark-observe_all_example =
    mark-observe_all ((some_day - 5, written) ∷ (some_day + 9, unsynced) ∷ [])
      (observed (utc some_day))

-- Expiry, on a host with one key and one session

abbrev Host : Type 0
Host = Bool × Bool

abbrev Fault : Type 0
Fault = String

abbrev check_off : Bool → Host → Host × Option Fault
check_off true h = (h, some "still there")
check_off false h = (h, none)

abbrev ops : ExpireOps Host Fault
ops = record {
  remove = some (λ key h. ((false, h.1), none));
  verify_removed = some (λ key h. check_off h.0 h);
  terminate = some (λ client generation key h. ((h.0, false), none));
  verify_terminated = some (λ client generation key h. check_off h.1 h);
  burn = some (λ h. (h, none));
}

abbrev plan : ExpirePlan
plan = record {
  client_id = codes "mac";
  generation = codes "1";
  public_key = codes "key";
  public_key_sha256 = codes "digest";
  status = active;
  not_after = some_day;
  now = some_day;
}

plan_expires : execute_expire Host Fault plan ops (true, true) ≡ ((false, false), ok tt)
unfolding execute_expire run_ops then_do valid_then allowed_then validate_expire_plan
    ready_to_expire authorize_transition
plan_expires = refl

execute_expire-Ran_example :
    ((ready_to_expire some_day some_day ≡ true) ⊎ (active ≡ expiration_pending))
    × (can_expire active ≡ true)
    × Ran plan ops (true, true) (false, false)
execute_expire-Ran_example = execute_expire-Ran plan ops (true, true) (false, false) plan_expires

abbrev KeyOn : Host → Bytes → Type 0
KeyOn h key = h.0 ≡ true

abbrev SessionOn : Host → Bytes → Type 0
SessionOn h client = h.1 ≡ true

expiry_check_off : (b : Bool) (h t : Host) → check_off b h ≡ (t, none) → (b ≡ false) × (t ≡ h)
expiry_check_off true h t e = cc (ap (λ (p : Host × Option Fault). p.1) e)
expiry_check_off false h t e = (refl, sym (ap (λ (p : Host × Option Fault). p.0) e))

given {ℓ} : {A : Type 0} (x y : A) (P : A → Type ℓ) → some x ≡ some y → P y → P x
given x y P g = subst P (sym (some-injective x y g))

ops-Promises : Promises ops KeyOn SessionOn
ops-Promises = record {
  removal_verified = λ f key s t g e a.
      let (off, same) =
        expiry_check_off s.0 s t
          (given (λ key h. check_off h.0 h) f (λ f. f key s ≡ (t, none)) g e) in
      cc (ap (λ (h : Host). h.0) same);
  sessions_verified = λ f client s t g e a.
      let (off, same) = expiry_check_off s.1 s t (
        given (λ client generation key h. check_off h.1 h) f (λ f. f client [] [] s ≡ (t, none)) g
          e) in
      cc (ap (λ (h : Host). h.1) same);
  verify_authorizes_none = λ f client key s t g e a.
      let (off, same) = expiry_check_off s.1 s t (
        given (λ client generation key h. check_off h.1 h) f (λ f. f client [] [] s ≡ (t, none)) g
          e) in
      cc (ap (λ (h : Host). h.0) same);
  burn_authorizes_none = λ f key s t g e a.
      let e' = given (λ h. (h, none)) f (λ f. f s ≡ (t, none)) g e in
      cc (ap (λ (p : Host × Option Fault). p.0.0) e');
  burn_starts_none = λ f client s t g e a.
      let e' = given (λ h. (h, none)) f (λ f. f s ≡ (t, none)) g e in
      cc (ap (λ (p : Host × Option Fault). p.0.1) e');
}

execute_expire_gone_example :
    (¬ KeyOn (false, false) (codes "key")) × (¬ SessionOn (false, false) (codes "mac"))
execute_expire_gone_example =
    execute_expire_gone KeyOn SessionOn plan ops (true, true) (false, false) ops-Promises
      plan_expires
