-- ===== src/Supervisor/Attempt.antt =====
-- One attempt of a tunnel process: `runReadyAttempt` and `terminateAndReap`.
-- An `Environment` answers each call and each `select` of the attempt; what the attempt does to
-- the process, the readiness gate, the notifier and the observer are its effects, in their order.
pub mod Owned
pub mod Gate
use warptweet.Prelude.{
  ℤ, pos, lt_int, Bool, true, false, List, [], ◌∷◌, ◌++◌, Option, none, some, if◌then◌else◌,
}
use warptweet.Supervisor.Faults.{
  Fault, Error, is_nil, wrap, is_terminal_failure, terminal_readiness_close, start_failed,
  invalid_pid, exited_before, exited_at_boundary, exited_after, readiness_failed, not_killed,
  publish_failed,
}

-- `State`
pub data State : Type 0 where
  preparing starting awaiting_readiness ready backoff_wait stopping stopped failed : State

pub data Effect : Type 0 where
  observe : State → Effect
  -- `Launcher.Start` returned a process
  started : ℤ → Effect
  terminated killed : Effect
  -- the result of `process.Wait` has come
  reaped : Effect
  gate_closed : Effect
  notified : ℤ → Effect

-- What `terminateAndReap` meets: an exit before it, within the grace, and behind the kill.
pub record Reaping : Type 0 where
  pub exited_already : Option Error
  pub terminate_error : Error
  pub exited_in_grace : Option Error
  pub kill_error : Error
  pub exited_on_kill : Option Error

pub record Outcome (A : Type 0) : Type 0 where
  pub effects : List Effect
  pub value : A

-- Do these effects first.
abbrev pub before : {A : Type 0} → List Effect → Outcome A → Outcome A
before es o = record { effects = es ++ o.effects; value = o.value }

abbrev pub done : {A : Type 0} → A → Outcome A
done a = record { effects = []; value = a }

abbrev pub on_kill : Reaping → Option Error → Outcome Error
on_kill r (some wait) =
    before (terminated ∷ killed ∷ reaped ∷ []) (done ((r.terminate_error ++ r.kill_error) ++ wait))
on_kill r none =
    before (terminated ∷ killed ∷ [])
      (done ((r.terminate_error ++ r.kill_error) ++ not_killed ∷ []))

abbrev pub in_grace : Reaping → Option Error → Outcome Error
in_grace r (some wait) = before (terminated ∷ reaped ∷ []) (done (r.terminate_error ++ wait))
in_grace r none = on_kill r r.exited_on_kill

abbrev pub unless_exited : Reaping → Option Error → Outcome Error
unless_exited r (some wait) = before (reaped ∷ []) (done wait)
unless_exited r none = in_grace r r.exited_in_grace

-- `terminateAndReap(process, waitResult)`
unfoldable pub terminate_and_reap : Reaping → Outcome Error
terminate_and_reap r = unless_exited r r.exited_already

-- `terminateAndReap(process, nil)`
unfoldable pub terminate_and_wait : Error → Error → Outcome Error
terminate_and_wait terminate_error wait =
    before (terminated ∷ reaped ∷ []) (done (terminate_error ++ wait))

pub data Launch : Type 0 where
  start_error : Error → Launch
  process : ℤ → Launch

-- the first `select`: an exit, with what the readiness gate then says, the readiness gate's
-- answer, or the end of the context
pub data First : Type 0 where
  process_exit : Error → Error → First
  readiness : Error → First
  context_done : First

-- the last `select`
pub data Last : Type 0 where
  later_exit : Error → ℤ → Last
  later_context_done : Last

pub record Environment : Type 0 where
  pub launch : Launch
  pub terminate_error : Error
  pub wait_result : Error
  pub close_error : Error
  pub first : First
  -- `ctx.Err() != nil`
  pub cancelled : Bool
  pub exit_at_boundary : Option Error
  -- the notifier's answer, if there is one
  pub notifier : Option Error
  pub last : Last
  pub reaping : Reaping

-- `readyAttemptResult`
pub record AttemptResult : Type 0 where
  pub error : Error
  pub ready_runtime : ℤ
  pub terminal : Bool
  pub is_stopped : Bool

abbrev pub failed_with : Error → Bool → AttemptResult
failed_with e terminal = record {
  error = e;
  ready_runtime = pos 0;
  terminal = terminal;
  is_stopped = false;
}

abbrev pub stopped_result : AttemptResult
stopped_result = record { error = []; ready_runtime = pos 0; terminal = false; is_stopped = true }

module _ (env : Environment) (pid : ℤ) where
  abbrev pub reap_then : (Error → Outcome AttemptResult) → Outcome AttemptResult
  reap_then next =
      let reaping = terminate_and_reap env.reaping in before reaping.effects (next reaping.value)

  -- `terminalReadinessClose(prepared.Readiness.Close())`
  abbrev pub close_error_of : Error
  close_error_of = terminal_readiness_close env.close_error

  abbrev pub close_then : (Error → Outcome AttemptResult) → Outcome AttemptResult
  close_then next = before (gate_closed ∷ []) (next close_error_of)

  unfoldable pub wait_for_end : Last → Outcome AttemptResult
  wait_for_end (later_exit e runtime) =
      before (reaped ∷ [])
        (done (record (failed_with (wrap exited_after e) false) { ready_runtime = runtime }))
  wait_for_end later_context_done =
      before (observe stopping ∷ []) (reap_then (λ _. done stopped_result))

  abbrev pub announce_ready : Outcome AttemptResult
  announce_ready = before (observe ready ∷ []) (wait_for_end env.last)

  -- the call of the notifier, where there is one
  unfoldable pub publish : Option Error → Outcome AttemptResult
  publish none = announce_ready
  publish (some []) = before (notified pid ∷ []) announce_ready
  publish (some (f ∷ fs)) =
      before (notified pid ∷ [])
        (reap_then (λ wait. done (failed_with (wrap publish_failed (f ∷ fs) ++ wait) true)))

  -- the `select` with a default
  unfoldable pub at_boundary : Option Error → Outcome AttemptResult
  at_boundary (some e) = before (reaped ∷ []) (done (failed_with (wrap exited_at_boundary e) false))
  at_boundary none = publish env.notifier

  -- `if closeErr := …; closeErr != nil`
  unfoldable pub close_checked : Error → Outcome AttemptResult
  close_checked [] = at_boundary env.exit_at_boundary
  close_checked (f ∷ fs) = reap_then (λ wait. done (failed_with ((f ∷ fs) ++ wait) true))

  unfoldable pub after_readiness : Error → Outcome AttemptResult
  after_readiness (f ∷ fs) = reap_then (λ wait. close_then (λ close. done (
      if env.cancelled
      then stopped_result
      else failed_with (wrap readiness_failed (f ∷ fs) ++ wait ++ close)
          (is_terminal_failure (f ∷ fs)))))
  after_readiness [] =
      if env.cancelled
      then reap_then (λ wait. close_then (λ close. done stopped_result))
      else close_then close_checked

  unfoldable pub after_start : First → Outcome AttemptResult
  after_start (process_exit e readiness_error) = before (reaped ∷ []) (
      close_then (λ close. done (
        if env.cancelled
        then stopped_result
        else if is_terminal_failure readiness_error
        then failed_with (readiness_error ++ close) true
        else failed_with (wrap exited_before e ++ close) false)))
  after_start (readiness e) = after_readiness e
  after_start context_done =
      before (observe stopping ∷ []) (reap_then (λ wait. close_then (λ close. done stopped_result)))

  unfoldable pub supervise : Outcome AttemptResult
  supervise =
      if lt_int (pos 0) pid
      then before (observe awaiting_readiness ∷ []) (after_start env.first)
      else let reaping = terminate_and_wait env.terminate_error env.wait_result in
        before reaping.effects
          (close_then (λ close. done (failed_with (invalid_pid ∷ reaping.value ++ close) true)))

unfoldable pub launched : Environment → Launch → Outcome AttemptResult
launched env (start_error e) =
    close_then env (pos 0) (λ close. done (failed_with (wrap start_failed e ++ close) false))
launched env (process pid) = before (started pid ∷ []) (supervise env pid)

-- `runReadyAttempt`
unfoldable pub run_ready_attempt : Environment → Outcome AttemptResult
run_ready_attempt env = before (observe starting ∷ []) (launched env env.launch)
