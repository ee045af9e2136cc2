-- ===== src/Supervisor/Ready/Owned.antt =====
-- The processes that the ready loop starts, along its effects.
use warptweet.Prelude.{
  ◌+◌, pos, le_int, Bool, true, false, List, [], ◌∷◌, ◌++◌, some, if◌then◌else◌, ok, ◌||◌, ◌≡◌,
  refl, ap, ◌∙◌, All, >>=-eq-ok, ok-injective,
}
use mathlib.Core.Path.{subst}
use warptweet.Supervisor.Policy.{Policy, validate_policy}
use warptweet.Supervisor.Faults.{is_terminal_failure}
use warptweet.Supervisor.Restart.{Waited, elapsed, wait_error, stable_window, maximum_attempts}
use warptweet.Supervisor.Attempt.{
  Effect, observe, gate_closed, preparing, State, AttemptResult, run_ready_attempt,
}
use warptweet.Supervisor.Attempt.Owned.{
  DiesOnKill, track, track-append, go_on, run_ready_attempt-Reaps,
}
use warptweet.Supervisor.Ready.{
  ReadyPrepared, provider_error, no_gate, no_path, ready_command, ReadyTurn, ReadyLoop,
  ReadyProgress, finished, running, progress_loop, resume_ready, after_ready_wait, reset_if_ready,
  count_ready_failure, after_attempt, prepared_turn, ready_turn, run_ready_loop, run_prepared_ready,
}

-- Along these effects, processes run one after the other, and none is left.
abbrev pub Owns : List Effect → Type 0
Owns es = track false es ≡ some false

Owns-append : (a b : List Effect) → Owns a → Owns b → Owns (a ++ b)
Owns-append a b h g = track-append a b false ∙ ap (go_on (λ q. track q b)) h ∙ g

Owns-observe : (a : List Effect) (s : State) → Owns a → Owns (a ++ observe s ∷ [])
unfolding track
Owns-observe a s h = Owns-append a (observe s ∷ []) h refl

abbrev ProgressOwns : ReadyProgress → Type 0
ProgressOwns p = Owns (progress_loop p).effects

if-ProgressOwns :
    (b : Bool) (p q : ReadyProgress)
    → ProgressOwns p
    → ProgressOwns q
    → ProgressOwns (if b then p else q)
if-ProgressOwns true p q h g = h
if-ProgressOwns false p q h g = g

-- The process of this turn dies when killed.
abbrev pub TurnDies : ReadyTurn → Type 0
TurnDies t = DiesOnKill t.environment.reaping

module _ (policy : Policy) where
  effects-reset_if_ready :
      (r : AttemptResult) (l : ReadyLoop)
      → Owns l.effects
      → Owns (reset_if_ready policy r l).effects
  unfolding reset_if_ready
  effects-reset_if_ready r l h = go (le_int (stable_window policy) r.ready_runtime)
    where
      go :
          (b : Bool)
          → Owns
              (if b
                then record l { backoff = policy.initial_backoff; consecutive_failures = 0 }
                else l).effects
      go true = h
      go false = h

  after_ready_wait-Owns :
      (w : Waited) (l : ReadyLoop) → Owns l.effects → ProgressOwns (after_ready_wait policy w l)
  unfolding after_ready_wait
  after_ready_wait-Owns elapsed l h = h
  after_ready_wait-Owns (wait_error true e) l h = Owns-observe l.effects _ h
  after_ready_wait-Owns (wait_error false e) l h = h

  count_ready_failure-Owns :
      (r : AttemptResult) (w : Waited) (l : ReadyLoop)
      → Owns l.effects
      → ProgressOwns (count_ready_failure policy r w l)
  unfolding count_ready_failure
  count_ready_failure-Owns r w l h =
      if-ProgressOwns (le_int (maximum_attempts policy) (pos (l.consecutive_failures + 1))) _ _
        (Owns-observe l.effects _ h) (after_ready_wait-Owns w _ (Owns-observe l.effects _ h))

  after_attempt-Owns :
      (r : AttemptResult) (w : Waited) (l : ReadyLoop)
      → Owns l.effects
      → ProgressOwns (after_attempt policy r w l)
  unfolding after_attempt
  after_attempt-Owns r w l h =
      let h' = effects-reset_if_ready r l h in
      let l' = reset_if_ready policy r l in
      if-ProgressOwns r.is_stopped _ _ (Owns-observe l.effects _ h) (
        if-ProgressOwns (r.terminal || is_terminal_failure r.error) _ _
          (Owns-observe l'.effects _ h')
          (if-ProgressOwns policy.restart _ _ (count_ready_failure-Owns r w l' h')
            (Owns-observe l'.effects _ h')))

  prepared_turn-Owns :
      (p : ReadyPrepared) (t : ReadyTurn) (l : ReadyLoop)
      → TurnDies t
      → Owns l.effects
      → ProgressOwns (prepared_turn policy p t l)
  unfolding prepared_turn track
  prepared_turn-Owns (provider_error true e) t l d h = Owns-observe l.effects _ h
  prepared_turn-Owns (provider_error false e) t l d h = Owns-observe l.effects _ h
  prepared_turn-Owns no_gate t l d h = h
  prepared_turn-Owns (no_path e) t l d h = Owns-append l.effects (gate_closed ∷ []) h refl
  prepared_turn-Owns ready_command t l d h =
      after_attempt-Owns (run_ready_attempt t.environment).value t.waited _ (
        Owns-append l.effects (run_ready_attempt t.environment).effects h
          (run_ready_attempt-Reaps t.environment d))

  ready_turn-Owns :
      (t : ReadyTurn) (l : ReadyLoop)
      → TurnDies t
      → Owns l.effects
      → ProgressOwns (ready_turn policy t l)
  unfolding ready_turn
  ready_turn-Owns t l d h = prepared_turn-Owns t.prepared t _ d (Owns-observe l.effects preparing h)

  run_ready_loop-Owns :
      (ts : List ReadyTurn) (l : ReadyLoop)
      → All TurnDies ts
      → Owns l.effects
      → ProgressOwns (run_ready_loop policy ts l)
  unfolding run_ready_loop
  run_ready_loop-Owns [] l d h = h
  run_ready_loop-Owns (t ∷ ts) l d h =
      go (ready_turn policy t l) (ready_turn-Owns t l d.0 h) (λ l. run_ready_loop-Owns ts l d.1)
    where
      go :
          (p : ReadyProgress)
          → ProgressOwns p
          → ((l : ReadyLoop) → Owns l.effects → ProgressOwns (run_ready_loop policy ts l))
          → ProgressOwns (resume_ready (run_ready_loop policy ts) p)
      go (finished v l) h ih = h
      go (running l) h ih = ih l h

-- Whatever turns the ready loop takes, it starts one process at a time, never one before the last
-- has been reaped, and it leaves none, if a kill ends each process.
pub run_prepared_ready-Owns :
    (policy : Policy) (turns : List ReadyTurn) (p : ReadyProgress)
    → All TurnDies turns
    → run_prepared_ready policy turns ≡ ok p
    → Owns (progress_loop p).effects
unfolding run_prepared_ready track
run_prepared_ready-Owns policy turns p dies e =
    let (_, e₁, e₂) = >>=-eq-ok (validate_policy policy) _ e in
    subst (λ p. Owns (progress_loop p).effects) (ok-injective _ _ e₂)
      (run_ready_loop-Owns policy turns _ dies refl)
