-- ===== src/Supervisor/Attempt/Gate.antt =====
-- The readiness gate, along the effects of an attempt.
use warptweet.Prelude.{
  ℤ, pos, lt_int, Bool, true, false, List, [], ◌∷◌, ◌++◌, Option, none, some, if◌then◌else◌, ◌≡◌,
  refl, arith, ℕ, ◌+◌, suc,
}
use warptweet.Prelude.{ap, ◌∙◌}
use warptweet.Supervisor.Faults.{Error}
use warptweet.Supervisor.Attempt.{
  Effect, gate_closed, Reaping, Outcome, unless_exited, terminate_and_reap, terminate_and_wait,
  Launch, start_error, process, First, process_exit, readiness, context_done, Last, later_exit,
  later_context_done, Environment, close_error_of, wait_for_end, publish, at_boundary,
  close_checked, after_readiness, after_start, supervise, launched, run_ready_attempt,
}

abbrev tally : Effect → ℕ → ℕ
tally gate_closed n = suc n
tally _ n = n

unfoldable pub closes : List Effect → ℕ
closes [] = 0
closes (e ∷ es) = tally e (closes es)

tally-+ : (e : Effect) (n m : ℕ) → tally e (n + m) ≡ tally e n + m
tally-+ e n m = ground arith

closes-append : (a b : List Effect) → closes (a ++ b) ≡ closes a + closes b
unfolding closes
closes-append [] b = omega arith
closes-append (e ∷ a) b = ap (tally e) (closes-append a b) ∙ tally-+ e (closes a) (closes b)

closes-terminate_and_reap : (r : Reaping) → closes (terminate_and_reap r).effects ≡ 0
unfolding terminate_and_reap closes
closes-terminate_and_reap r = go r.exited_already r.exited_in_grace r.exited_on_kill
  where
    go :
        (a b c : Option Error)
        → closes (unless_exited (record r { exited_in_grace = b; exited_on_kill = c }) a).effects
          ≡ 0
    go (some w) b c = refl
    go none (some w) c = refl
    go none none (some w) = refl
    go none none none = refl

abbrev Closes : {A : Type 0} → ℕ → Outcome A → Type 0
Closes n o = closes o.effects ≡ n

if-Closes :
    {A : Type 0} (n : ℕ) (b : Bool) (x y : Outcome A)
    → Closes n x
    → Closes n y
    → Closes n (if b then x else y)
if-Closes n true x y h g = h
if-Closes n false x y h g = g

none_before : {a b c n : ℕ} → c ≡ a + b → a ≡ 0 → b ≡ n → c ≡ n
none_before e f g = omega arith

module _ (env : Environment) (pid : ℤ) where
  reap_then-Closes :
      (n : ℕ) (es : List Effect)
      → closes es ≡ n
      → closes ((terminate_and_reap env.reaping).effects ++ es) ≡ n
  reap_then-Closes n es h =
      none_before (closes-append (terminate_and_reap env.reaping).effects es)
        (closes-terminate_and_reap env.reaping) h

  wait_for_end-Closes : (l : Last) → Closes 0 (wait_for_end env pid l)
  unfolding wait_for_end closes
  wait_for_end-Closes (later_exit e runtime) = refl
  wait_for_end-Closes later_context_done = reap_then-Closes 0 _ refl

  publish-Closes : (n : Option Error) → Closes 0 (publish env pid n)
  unfolding publish closes
  publish-Closes none = wait_for_end-Closes env.last
  publish-Closes (some []) = wait_for_end-Closes env.last
  publish-Closes (some (f ∷ fs)) = reap_then-Closes 0 _ refl

  close_checked-Closes : (e : Error) → Closes 0 (close_checked env pid e)
  unfolding close_checked at_boundary closes
  close_checked-Closes [] = go env.exit_at_boundary
    where
      go : (o : Option Error) → Closes 0 (at_boundary env pid o)
      go (some e) = refl
      go none = publish-Closes env.notifier
  close_checked-Closes (f ∷ fs) = reap_then-Closes 0 _ refl

  after_readiness-Closes : (e : Error) → Closes 1 (after_readiness env pid e)
  unfolding after_readiness closes
  after_readiness-Closes (f ∷ fs) = reap_then-Closes 1 _ refl
  after_readiness-Closes [] =
      if-Closes 1 env.cancelled _ _ (reap_then-Closes 1 _ refl)
        (ap suc (close_checked-Closes (close_error_of env pid)))

  after_start-Closes : (f : First) → Closes 1 (after_start env pid f)
  unfolding after_start closes
  after_start-Closes (process_exit e r) = refl
  after_start-Closes (readiness e) = after_readiness-Closes e
  after_start-Closes context_done = reap_then-Closes 1 _ refl

  supervise-Closes : Closes 1 (supervise env pid)
  unfolding supervise closes terminate_and_wait
  supervise-Closes = if-Closes 1 (lt_int (pos 0) pid) _ _ (after_start-Closes env.first) refl

launched-Closes : (env : Environment) (l : Launch) → Closes 1 (launched env l)
unfolding launched closes
launched-Closes env (start_error e) = refl
launched-Closes env (process pid) = supervise-Closes env pid

-- Every path through an attempt closes the readiness gate exactly once.
pub closes-run_ready_attempt : (env : Environment) → closes (run_ready_attempt env).effects ≡ 1
unfolding run_ready_attempt closes
closes-run_ready_attempt env = launched-Closes env env.launch
