-- ===== src/Supervisor/Attempt/Owned.antt =====
-- The process that an attempt starts, along its effects.
use warptweet.Prelude.{
  ℤ, pos, lt_int, Bool, true, false, List, [], ◌∷◌, ◌++◌, Option, none, some, if◌then◌else◌, ◌≡◌,
  ◌≢◌, refl,
}
use warptweet.Prelude.{ap, ◌∙◌}
use warptweet.Supervisor.Faults.{Error}
use warptweet.Supervisor.Attempt.{
  Effect, started, terminated, killed, reaped, Reaping, Outcome, unless_exited, terminate_and_reap,
  terminate_and_wait, Launch, start_error, process, First, process_exit, readiness, context_done,
  Last, later_exit, later_context_done, Environment, close_error_of, wait_for_end, publish,
  at_boundary, close_checked, after_readiness, after_start, supervise, launched, run_ready_attempt,
}

-- What stands of the process after an effect: `some true` is one process that runs, and `none`
-- is a second start, a second reap, or a signal to no process.
abbrev pub effect_on : Bool → Effect → Option Bool
effect_on false (started _) = some true
effect_on true (started _) = none
effect_on running reaped = if running then some false else none
effect_on running terminated = if running then some true else none
effect_on running killed = if running then some true else none
effect_on running _ = some running

abbrev pub go_on : (Bool → Option Bool) → Option Bool → Option Bool
go_on next (some b) = next b
go_on next none = none

unfoldable pub track : Bool → List Effect → Option Bool
track running [] = some running
track running (e ∷ es) = go_on (λ r. track r es) (effect_on running e)

pub track-append :
    (a b : List Effect) (r : Bool) → track r (a ++ b) ≡ go_on (λ q. track q b) (track r a)
unfolding track
track-append [] b r = refl
track-append (e ∷ a) b r = go (track-append a b) (effect_on r e)
  where
    go :
        ((q : Bool) → track q (a ++ b) ≡ go_on (λ q. track q b) (track q a))
        → (o : Option Bool)
        → go_on (λ q. track q (a ++ b)) o ≡ go_on (λ q. track q b) (go_on (λ q. track q a) o)
    go ih (some q) = ih q
    go ih none = refl

-- The kill ends the process.
abbrev pub DiesOnKill : Reaping → Type 0
DiesOnKill r = r.exited_on_kill ≢ none

terminate_and_reap-Reaps :
    (r : Reaping) → DiesOnKill r → track true (terminate_and_reap r).effects ≡ some false
unfolding terminate_and_reap track
terminate_and_reap-Reaps r dies = go r.exited_already r.exited_in_grace r.exited_on_kill dies
  where
    go :
        (a b c : Option Error)
        → c ≢ none
        → track true
            (unless_exited (record r { exited_in_grace = b; exited_on_kill = c }) a).effects
          ≡ some false
    go (some w) b c d = refl
    go none (some w) c d = refl
    go none none (some w) d = refl
    go none none none d = absurd (d refl)

-- The attempt ends with no process, from one that runs or not.
abbrev Ends : {A : Type 0} → Bool → Outcome A → Type 0
Ends running o = track running o.effects ≡ some false

if-Ends :
    {A : Type 0} (r b : Bool) (x y : Outcome A) → Ends r x → Ends r y → Ends r (if b then x else y)
if-Ends r true x y h g = h
if-Ends r false x y h g = g

module _ (env : Environment) (pid : ℤ) (dies : DiesOnKill env.reaping) where
  reap_then-Ends :
      (es : List Effect)
      → track false es ≡ some false
      → track true ((terminate_and_reap env.reaping).effects ++ es) ≡ some false
  reap_then-Ends es h =
      track-append (terminate_and_reap env.reaping).effects es true
      ∙ ap (go_on (λ q. track q es)) (terminate_and_reap-Reaps env.reaping dies)
      ∙ h

  wait_for_end-Ends : (l : Last) → Ends true (wait_for_end env pid l)
  unfolding wait_for_end track
  wait_for_end-Ends (later_exit e runtime) = refl
  wait_for_end-Ends later_context_done = reap_then-Ends _ refl

  publish-Ends : (n : Option Error) → Ends true (publish env pid n)
  unfolding publish track
  publish-Ends none = wait_for_end-Ends env.last
  publish-Ends (some []) = wait_for_end-Ends env.last
  publish-Ends (some (f ∷ fs)) = reap_then-Ends _ refl

  at_boundary-Ends : (o : Option Error) → Ends true (at_boundary env pid o)
  unfolding at_boundary track
  at_boundary-Ends (some e) = refl
  at_boundary-Ends none = publish-Ends env.notifier

  close_checked-Ends : (e : Error) → Ends true (close_checked env pid e)
  unfolding close_checked track
  close_checked-Ends [] = at_boundary-Ends env.exit_at_boundary
  close_checked-Ends (f ∷ fs) = reap_then-Ends _ refl

  after_readiness-Ends : (e : Error) → Ends true (after_readiness env pid e)
  unfolding after_readiness track
  after_readiness-Ends (f ∷ fs) = reap_then-Ends _ refl
  after_readiness-Ends [] =
      if-Ends true env.cancelled _ _ (reap_then-Ends _ refl)
        (close_checked-Ends (close_error_of env pid))

  after_start-Ends : (f : First) → Ends true (after_start env pid f)
  unfolding after_start track
  after_start-Ends (process_exit e r) = refl
  after_start-Ends (readiness e) = after_readiness-Ends e
  after_start-Ends context_done = reap_then-Ends _ refl

  supervise-Ends : Ends true (supervise env pid)
  unfolding supervise track terminate_and_wait
  supervise-Ends = if-Ends true (lt_int (pos 0) pid) _ _ (after_start-Ends env.first) refl

launched-Ends :
    (env : Environment) (l : Launch) → DiesOnKill env.reaping → Ends false (launched env l)
unfolding launched track
launched-Ends env (start_error e) dies = refl
launched-Ends env (process pid) dies = supervise-Ends env pid dies

-- However an attempt goes, no process is left of it once it returns, if a kill ends a process: it
-- never has two at once, signals one only while it runs, and reaps what it has started.
pub run_ready_attempt-Reaps :
    (env : Environment)
    → DiesOnKill env.reaping
    → track false (run_ready_attempt env).effects ≡ some false
unfolding run_ready_attempt track
run_ready_attempt-Reaps env dies = launched-Ends env env.launch dies
