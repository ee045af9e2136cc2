-- ===== src/Grant/Clock.antt =====
-- The durable high-water mark of the host clock: `ObserveClock` of internal/grant/clock.go.
pub mod HighWater
use warptweet.Prelude.{
  ℕ, Bool, true, false, not, ◌||◌, if◌then◌else◌, ltb, leb, Result, ok, err, List, [], ◌∷◌,
}
use warptweet.Grant.Time.{
  Time, Stamp, utc, second, is_zero, add, before, start_of_2020, start_of_2201, format_utc,
  parse_utc, DurationError,
}

-- What `LoadClockObservation` finds at the path: no file, a file that it refuses, or the document
-- of an observation, of which the timestamp matters.
pub data Stored : Type 0 where
  missing unreadable : Stored
  observed : Stamp → Stored

-- How `writeAtomic` ends: with the document in place, with nothing changed, or with the document
-- in place and an error, if the directory cannot be synced behind the rename.
pub data Write : Type 0 where
  written refused unsynced : Write

pub data ClockError : Type 0 where
  time_is_zero implausible cannot_load rolled_back cannot_write : ClockError
  bad_stored bad_now : DurationError → ClockError

-- from `FormatUTC(now)` on
unfoldable pub record_now : Time → Write → Stored → Stored × Result ClockError Stamp
record_now now write stored = elim (format_utc now) [
  | err e ↦ (stored, err (bad_now e))
  | ok encoded ↦ elim write [
    | written ↦ (observed encoded, ok encoded)
    | refused ↦ (stored, err cannot_write)
    | unsynced ↦ (observed encoded, err cannot_write)
  ]
]

-- with an observation in the file
unfoldable pub compare_stored : Time → Write → Stamp → Stored × Result ClockError Stamp
unfolding record_now
compare_stored now write existing = elim (parse_utc existing) [
  | err e ↦ (observed existing, err (bad_stored e))
  | ok previous ↦
      if before (add now second) previous
      then (observed existing, err rolled_back)
      else if before now previous
      then (observed existing, ok existing)
      else record_now now write (observed existing)
]

unfoldable pub load_and_compare : Time → Write → Stored → Stored × Result ClockError Stamp
unfolding compare_stored record_now
load_and_compare now write missing = record_now now write missing
load_and_compare now write unreadable = (unreadable, err cannot_load)
load_and_compare now write (observed existing) = compare_stored now write existing

-- `ObserveClock`
unfoldable pub observe_clock : Time → Write → Stored → Stored × Result ClockError Stamp
unfolding load_and_compare
observe_clock now write stored =
    if is_zero now
    then (stored, err time_is_zero)
    else if before now start_of_2020 || leb start_of_2201 now
    then (stored, err implausible)
    else load_and_compare now write stored

-- Any number of observations, one after the other.
unfoldable pub observe_all : List (Time × Write) → Stored → Stored
observe_all [] stored = stored
observe_all ((now, write) ∷ more) stored = observe_all more (observe_clock now write stored).0
