-- ===== src/Grant/Duration/Parse.antt =====
-- The texts that `ParseAccessDuration` reads.
use warptweet.Prelude.{
  ℕ, ◌*◌, ◌/◌, ◌≤◌, ◌≡◌, ℤ, pos, i64, [], ◌∷◌, Bytes, length, ltb, ok, arith, reject-eq-ok,
}
use warptweet.Grant.Time.{second}
use warptweet.Grant.Duration.{
  implementation_maximum, positive_part, seconds, trim_space, contains_forbidden, parse_uint63,
  split_last, unit_duration, parse_parts, parse_trimmed, parse_access_duration,
}

parse_parts_bounds :
    (number : Bytes) (unit : ℕ) (d : ℤ)
    → parse_parts number unit ≡ ok d
    → (d ≡ pos (positive_part d / second * second))
      × (second ≤ positive_part d)
      × (positive_part d ≤ implementation_maximum)
      × (seconds d ≡ ok (pos (positive_part d / second)))
unfolding parse_parts unit_duration i64 parse_uint63 seconds
parse_parts_bounds number unit d e = ground arith

parse_trimmed_bounds :
    (t : Bytes) (d : ℤ)
    → parse_trimmed t ≡ ok d
    → (d ≡ pos (positive_part d / second * second))
      × (second ≤ positive_part d)
      × (positive_part d ≤ implementation_maximum)
      × (seconds d ≡ ok (pos (positive_part d / second)))
unfolding parse_trimmed
parse_trimmed_bounds [] d e = cc
parse_trimmed_bounds (c ∷ cs) d e =
    let (_, f₁) = reject-eq-ok (contains_forbidden (c ∷ cs)) _ _ e in
    let (_, f₂) = reject-eq-ok (ltb (length (c ∷ cs)) 2) _ _ f₁ in
    parse_parts_bounds (split_last c cs).0 (split_last c cs).1 d f₂

-- Whatever `ParseAccessDuration` returns is a positive whole number of seconds that
-- `Seconds` accepts too, as that number: at most 100 years of 365 days.
pub parse_access_duration_bounds :
    (value : Bytes) (d : ℤ)
    → parse_access_duration value ≡ ok d
    → (d ≡ pos (positive_part d / second * second))
      × (second ≤ positive_part d)
      × (positive_part d ≤ implementation_maximum)
      × (seconds d ≡ ok (pos (positive_part d / second)))
unfolding parse_access_duration
parse_access_duration_bounds value d e = parse_trimmed_bounds (trim_space value) d e
