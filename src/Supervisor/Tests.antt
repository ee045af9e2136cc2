-- ===== src/Supervisor/Tests.antt =====
-- Concrete runs, and the theorems at concrete inputs.
use warptweet.Prelude.{
  ℕ, ◌*◌, ◌≡◌, ◌≢◌, refl, true, false, List, [], ◌∷◌, none, some, ℤ, pos, ok, arith, i64,
}
use warptweet.Supervisor.Policy.{Policy, validate_policy, next_backoff}
use warptweet.Supervisor.Faults.{exited_successfully, external, terminal_readiness_close}
use warptweet.Supervisor.Restart.{
  Turn, command, elapsed, Progress, finished, attempts_exhausted, run_prepared, run_loop, turn,
  after_run, count_failure, after_wait, reset_if_stable,
}
use warptweet.Supervisor.Restart.Bounds.{WaitsInBounds, run_prepared-WaitsInBounds}
use warptweet.Supervisor.Restart.Attempts.{Stops, run_prepared-Stops}
use warptweet.Supervisor.Attempt
use warptweet.Supervisor.Attempt.Owned.{track, run_ready_attempt-Reaps}
use warptweet.Supervisor.Attempt.Gate.{closes, closes-run_ready_attempt}
use warptweet.Supervisor.Ready.{
  ReadyTurn, ReadyProgress, ready_command, run_prepared_ready, run_ready_loop, progress_loop,
}
use warptweet.Supervisor.Ready.Owned.{Owns, run_prepared_ready-Owns}

abbrev seconds : ℕ → ℤ
seconds n = pos (n * 1_000_000_000)

abbrev policy : Policy
policy = record {
  restart = true;
  initial_backoff = seconds 1;
  maximum_backoff = seconds 3;
  stable_window = pos 0;
  startup_timeout = pos 0;
  maximum_attempts = pos 3;
}

policy_valid : validate_policy policy ≡ ok tt
unfolding validate_policy
policy_valid = refl

-- A command that runs for a second and exits.
abbrev crash : Turn
crash = record {
  prepared = command false;
  exit = [];
  runtime = seconds 1;
  cancelled = false;
  waited = elapsed;
}

abbrev crashes : List Turn
crashes = crash ∷ crash ∷ crash ∷ crash ∷ []

abbrev exhausted : Progress
exhausted = finished (attempts_exhausted (pos 3) (exited_successfully ∷ [])) (record {
  backoff = seconds 3;
  attempt = 3;
  consecutive_failures = 3;
  waits = seconds 2 ∷ seconds 1 ∷ [];
})

launches_run_out : run_prepared policy crashes ≡ ok exhausted
unfolding run_prepared validate_policy run_loop turn after_run count_failure after_wait
    reset_if_stable next_backoff i64
launches_run_out = refl

run_prepared-Stops_example : Stops 3 exhausted
run_prepared-Stops_example =
    run_prepared-Stops policy crashes 3 exhausted refl (refl, (refl, (refl, (refl, tt))))
      (omega arith) launches_run_out

run_prepared-WaitsInBounds_example : WaitsInBounds policy exhausted
run_prepared-WaitsInBounds_example =
    run_prepared-WaitsInBounds policy crashes exhausted refl launches_run_out

-- A process that becomes ready, whose readiness nobody takes, and that only a kill ends.
abbrev stubborn : Attempt.Environment
stubborn = record {
  launch = Attempt.process (pos 42);
  terminate_error = [];
  wait_result = [];
  close_error = [];
  first = Attempt.readiness [];
  cancelled = false;
  exit_at_boundary = none;
  notifier = some (external none ∷ []);
  last = Attempt.later_context_done;
  reaping = record {
    exited_already = none;
    terminate_error = [];
    exited_in_grace = none;
    kill_error = [];
    exited_on_kill = some [];
  };
}

stubborn_effects :
    (Attempt.run_ready_attempt stubborn).effects
    ≡ Attempt.observe Attempt.starting
      ∷ Attempt.started (pos 42)
      ∷ Attempt.observe Attempt.awaiting_readiness
      ∷ Attempt.gate_closed
      ∷ Attempt.notified (pos 42)
      ∷ Attempt.terminated
      ∷ Attempt.killed
      ∷ Attempt.reaped
      ∷ []
unfolding Attempt.run_ready_attempt Attempt.launched Attempt.supervise Attempt.after_start
    Attempt.after_readiness Attempt.close_checked Attempt.at_boundary Attempt.publish
    Attempt.terminate_and_reap terminal_readiness_close
stubborn_effects = refl

dies : stubborn.reaping.exited_on_kill ≢ none
dies e = cc

run_ready_attempt-Reaps_example :
    track false (Attempt.run_ready_attempt stubborn).effects ≡ some false
run_ready_attempt-Reaps_example = run_ready_attempt-Reaps stubborn dies

closes-run_ready_attempt_example : closes (Attempt.run_ready_attempt stubborn).effects ≡ 1
closes-run_ready_attempt_example = closes-run_ready_attempt stubborn

abbrev ready_turns : List ReadyTurn
ready_turns = record { prepared = ready_command; environment = stubborn; waited = elapsed } ∷ []

abbrev ready_progress : ReadyProgress
ready_progress =
    run_ready_loop policy ready_turns
      (record { backoff = seconds 1; attempt = 0; consecutive_failures = 0; effects = [] })

ready_runs : run_prepared_ready policy ready_turns ≡ ok ready_progress
unfolding run_prepared_ready validate_policy
ready_runs = refl

run_prepared_ready-Owns_example : Owns (progress_loop ready_progress).effects
run_prepared_ready-Owns_example =
    run_prepared_ready-Owns policy ready_turns ready_progress (dies, tt) ready_runs
