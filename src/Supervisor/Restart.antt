-- ===== src/Supervisor/Restart.antt =====
-- The restart loop around a runner: `RunPrepared`.
-- What the environment does in one turn of the loop is a `Turn`: the provider's answer, the
-- runner's, the clock's, the context's and the wait's. The loop runs along a list of turns, and
-- is still running where the list ends.
pub mod Bounds
pub mod Attempts
use warptweet.Prelude.{
  ℕ, suc, ◌+◌, ℤ, pos, lt_int, le_int, Bool, true, false, List, [], ◌∷◌, if◌then◌else◌, Result, ok,
  ◌>>=◌, ◌>>◌,
}
use warptweet.Supervisor.Policy.{
  Policy, PolicyError, validate_policy, next_backoff, or_default, default_stable_window,
  default_maximum_attempts,
}
use warptweet.Supervisor.Faults.{Error, is_nil, wrap, exited_successfully}

-- the provider's error, with `ctx.Err() != nil`, or a command, with `command.Path == ""`
pub data Prepared : Type 0 where
  provider_error : Bool → Error → Prepared
  command : Bool → Prepared

pub data Waited : Type 0 where
  elapsed : Waited
  wait_error : Bool → Error → Waited

pub record Turn : Type 0 where
  pub prepared : Prepared
  pub exit : Error
  pub runtime : ℤ
  pub cancelled : Bool
  pub waited : Waited

pub data Verdict : Type 0 where
  stopped exited : Verdict
  prepare_failed exit_failed wait_failed : Error → Verdict
  path_required : Verdict
  attempts_exhausted : ℤ → Error → Verdict

pub record Loop : Type 0 where
  pub backoff : ℤ
  pub attempt : ℕ
  pub consecutive_failures : ℕ
  -- the waits, the latest first
  pub waits : List ℤ

pub data Progress : Type 0 where
  finished : Verdict → Loop → Progress
  running : Loop → Progress

-- `lastErr`
abbrev pub last_error : Error → Error
last_error [] = exited_successfully ∷ []
last_error (f ∷ fs) = f ∷ fs

-- Go on with the loop, unless it has returned.
abbrev pub resume : (Loop → Progress) → Progress → Progress
resume next (finished v l) = finished v l
resume next (running l) = next l

module _ (policy : Policy) where
  abbrev pub stable_window : ℤ
  stable_window = or_default policy.stable_window default_stable_window

  abbrev pub maximum_attempts : ℤ
  maximum_attempts = or_default policy.maximum_attempts default_maximum_attempts

  -- the wait behind a counted failure
  unfoldable pub after_wait : Waited → Loop → Progress
  after_wait elapsed l = running (record l {
    backoff = next_backoff l.backoff policy.maximum_backoff;
    waits = l.backoff ∷ l.waits;
  })
  after_wait (wait_error true e) l = finished stopped (record l { waits = l.backoff ∷ l.waits })
  after_wait (wait_error false e) l =
      finished (wait_failed e) (record l { waits = l.backoff ∷ l.waits })

  -- `if runtime >= stableWindow`
  unfoldable pub reset_if_stable : ℤ → Loop → Loop
  reset_if_stable runtime l =
      if le_int stable_window runtime
      then record l { backoff = policy.initial_backoff; consecutive_failures = 0 }
      else l

  unfoldable pub count_failure : Turn → Loop → Progress
  count_failure t l =
      let l' = record l { consecutive_failures = l.consecutive_failures + 1 } in
      if le_int maximum_attempts (pos l'.consecutive_failures)
      then finished (attempts_exhausted maximum_attempts (last_error t.exit)) l'
      else after_wait t.waited l'

  -- behind `supervisor.Runner.Run`
  unfoldable pub after_run : Turn → Loop → Progress
  after_run t l =
      if t.cancelled
      then finished stopped l
      else if policy.restart
      then count_failure t (reset_if_stable t.runtime l)
      else finished (if is_nil t.exit then exited else exit_failed t.exit) l

  -- one turn of the `for` loop
  unfoldable pub turn : Prepared → Turn → Loop → Progress
  turn (provider_error true e) t l = finished stopped l
  turn (provider_error false e) t l = finished (prepare_failed e) l
  turn (command true) t l = finished path_required l
  turn (command false) t l = after_run t (record l { attempt = l.attempt + 1 })

  unfoldable pub run_loop : List Turn → Loop → Progress
  run_loop [] l = running l
  run_loop (t ∷ ts) l = resume (run_loop ts) (turn t.prepared t l)

  abbrev pub initial_loop : Loop
  initial_loop = record {
    backoff = policy.initial_backoff;
    attempt = 0;
    consecutive_failures = 0;
    waits = [];
  }

  -- `RunPrepared` with a provider
  unfoldable pub run_prepared : List Turn → Result PolicyError Progress
  run_prepared turns = do validate_policy policy; ok (run_loop turns initial_loop)
