-- ===== src/Grant/Clock/HighWater.antt =====
-- Sequences of observations of the host clock by `ObserveClock`.
use warptweet.Prelude.{◌+◌, ◌≤◌, ◌<◌, ◌≡◌, ok, List, [], ◌∷◌, arith}
use warptweet.Grant.Time.{
  Time, Stamp, blank, no_suffix_z, malformed, utc, second, start_of_2020, start_of_2201, format_utc,
  parse_utc,
}
use warptweet.Grant.Clock.{Stored, missing, unreadable, observed, Write, observe_clock, observe_all}

-- The stored time, or 0 where no time can be read.
abbrev pub mark : Stored → Time
mark (observed (utc t)) = t
mark _ = 0

-- What holds of an accepted time: it is of the years 2020 to 2200, at most a second behind the old
-- mark and not after the new one, and the result is what is stored.
pub record Accepted (now : Time) (old new : Stored) (s : Stamp) : Type 0 where
  pub plausible : (start_of_2020 ≤ now) × (now < start_of_2201)
  pub not_rolled_back : mark old ≤ now + second
  pub covered : now ≤ mark new
  pub stored : new ≡ observed s

mark-observe_clock :
    (now : Time) (write : Write) (stored : Stored)
    → mark stored ≤ mark (observe_clock now write stored).0
unfolding observe_clock format_utc parse_utc
mark-observe_clock now write missing = ground arith
mark-observe_clock now write unreadable = ground arith
mark-observe_clock now write (observed blank) = ground arith
mark-observe_clock now write (observed no_suffix_z) = ground arith
mark-observe_clock now write (observed malformed) = ground arith
mark-observe_clock now write (observed (utc t)) = ground arith

-- `ObserveClock` accepts a time only under these conditions.
pub observe_clock-Accepted :
    (now : Time) (write : Write) (stored : Stored) (s : Stamp)
    → (observe_clock now write stored).1 ≡ ok s
    → Accepted now stored (observe_clock now write stored).0 s
unfolding observe_clock format_utc parse_utc
observe_clock-Accepted now write missing s e = ground arith
observe_clock-Accepted now write unreadable s e = ground arith
observe_clock-Accepted now write (observed blank) s e = ground arith
observe_clock-Accepted now write (observed no_suffix_z) s e = ground arith
observe_clock-Accepted now write (observed malformed) s e = ground arith
observe_clock-Accepted now write (observed (utc t)) s e = ground arith

-- Over any sequence of observations, whatever the clock reads and however the writes end, the
-- stored mark never goes back.
pub mark-observe_all :
    (inputs : List (Time × Write)) (stored : Stored)
    → mark stored ≤ mark (observe_all inputs stored)
unfolding observe_all
mark-observe_all [] stored = omega arith
mark-observe_all ((now, write) ∷ more) stored = omega (
  arith,
  mark-observe_clock now write stored,
  mark-observe_all more (observe_clock now write stored).0,
)
