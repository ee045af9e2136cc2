-- ===== src/Supervisor/Ready.antt =====
-- The restart loop around ready attempts: `RunPreparedReady`.
pub mod Owned
use warptweet.Prelude.{
  ℕ, ◌+◌, ℤ, pos, le_int, Bool, true, false, List, [], ◌∷◌, ◌++◌, if◌then◌else◌, Result, ok, ◌>>=◌,
  ◌>>◌, ◌||◌,
}
use warptweet.Supervisor.Policy.{Policy, PolicyError, validate_policy, next_backoff}
use warptweet.Supervisor.Faults.{Error, is_terminal_failure}
use warptweet.Supervisor.Restart.{Waited, elapsed, wait_error, stable_window, maximum_attempts}
use warptweet.Supervisor.Attempt.{
  Effect, observe, gate_closed, preparing, backoff_wait, stopped, failed, Environment,
  AttemptResult, Outcome, run_ready_attempt,
}

-- the provider's error, with `ctx.Err() != nil`, or its command: without a readiness gate, without
-- a path, with what closing the gate then says, or one to attempt
pub data ReadyPrepared : Type 0 where
  provider_error : Bool → Error → ReadyPrepared
  no_gate : ReadyPrepared
  no_path : Error → ReadyPrepared
  ready_command : ReadyPrepared

pub record ReadyTurn : Type 0 where
  pub prepared : ReadyPrepared
  pub environment : Environment
  pub waited : Waited

pub data ReadyVerdict : Type 0 where
  stopped_cleanly gate_required : ReadyVerdict
  prepare_failed path_required failed_terminally attempt_failed wait_failed : Error → ReadyVerdict
  attempts_exhausted : ℤ → Error → ReadyVerdict

pub record ReadyLoop : Type 0 where
  pub backoff : ℤ
  pub attempt : ℕ
  pub consecutive_failures : ℕ
  pub effects : List Effect

pub data ReadyProgress : Type 0 where
  finished : ReadyVerdict → ReadyLoop → ReadyProgress
  running : ReadyLoop → ReadyProgress

abbrev pub progress_loop : ReadyProgress → ReadyLoop
progress_loop (finished _ l) = l
progress_loop (running l) = l

abbrev pub emit : List Effect → ReadyLoop → ReadyLoop
emit es l = record l { effects = l.effects ++ es }

-- Observe a last state, and return.
abbrev pub finish : Effect → ReadyVerdict → ReadyLoop → ReadyProgress
finish e v l = finished v (emit (e ∷ []) l)

abbrev pub resume_ready : (ReadyLoop → ReadyProgress) → ReadyProgress → ReadyProgress
resume_ready next (finished v l) = finished v l
resume_ready next (running l) = next l

module _ (policy : Policy) where
  unfoldable pub after_ready_wait : Waited → ReadyLoop → ReadyProgress
  after_ready_wait elapsed l =
      running (record l { backoff = next_backoff l.backoff policy.maximum_backoff })
  after_ready_wait (wait_error true e) l = finish (observe stopped) stopped_cleanly l
  after_ready_wait (wait_error false e) l = finished (wait_failed e) l

  unfoldable pub reset_if_ready : AttemptResult → ReadyLoop → ReadyLoop
  reset_if_ready r l =
      if le_int (stable_window policy) r.ready_runtime
      then record l { backoff = policy.initial_backoff; consecutive_failures = 0 }
      else l

  unfoldable pub count_ready_failure : AttemptResult → Waited → ReadyLoop → ReadyProgress
  count_ready_failure r w l =
      let l' = record l { consecutive_failures = l.consecutive_failures + 1 } in
      if le_int (maximum_attempts policy) (pos l'.consecutive_failures)
      then finish (observe failed) (attempts_exhausted (maximum_attempts policy) r.error) l'
      else after_ready_wait w (emit (observe backoff_wait ∷ []) l')

  unfoldable pub after_attempt : AttemptResult → Waited → ReadyLoop → ReadyProgress
  after_attempt r w l =
      if r.is_stopped
      then finish (observe stopped) stopped_cleanly l
      else if r.terminal || is_terminal_failure r.error
      then finish (observe failed) (failed_terminally r.error) (reset_if_ready r l)
      else if policy.restart
      then count_ready_failure r w (reset_if_ready r l)
      else finish (observe failed) (attempt_failed r.error) (reset_if_ready r l)

  unfoldable pub prepared_turn : ReadyPrepared → ReadyTurn → ReadyLoop → ReadyProgress
  prepared_turn (provider_error true e) t l = finish (observe stopped) stopped_cleanly l
  prepared_turn (provider_error false e) t l = finish (observe failed) (prepare_failed e) l
  prepared_turn no_gate t l = finished gate_required l
  prepared_turn (no_path e) t l = finish gate_closed (path_required e) l
  prepared_turn ready_command t l =
      let outcome = run_ready_attempt t.environment in
      after_attempt outcome.value t.waited
        (emit outcome.effects (record l { attempt = l.attempt + 1 }))

  -- one turn of the `for` loop
  unfoldable pub ready_turn : ReadyTurn → ReadyLoop → ReadyProgress
  ready_turn t l = prepared_turn t.prepared t (emit (observe preparing ∷ []) l)

  unfoldable pub run_ready_loop : List ReadyTurn → ReadyLoop → ReadyProgress
  run_ready_loop [] l = running l
  run_ready_loop (t ∷ ts) l = resume_ready (run_ready_loop ts) (ready_turn t l)

  -- `RunPreparedReady` with a provider
  unfoldable pub run_prepared_ready : List ReadyTurn → Result PolicyError ReadyProgress
  run_prepared_ready turns = do
    validate_policy policy
    ok (
        run_ready_loop turns (record {
          backoff = policy.initial_backoff;
          attempt = 0;
          consecutive_failures = 0;
          effects = [];
        }))
