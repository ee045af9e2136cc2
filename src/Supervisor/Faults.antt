-- ===== src/Supervisor/Faults.antt =====
-- Errors of the supervisor. An error is the list of the errors in its tree, in the order in which
-- `errors.As` visits them, and nil is the empty list; so `errors.Join` is `++`.
use warptweet.Prelude.{Bool, true, false, List, [], ◌∷◌, Option, none, some}

pub data Fault : Type 0 where
  -- errors of the supervisor's own that have no `Terminal` method
  start_failed invalid_pid exited_before exited_at_boundary exited_after : Fault
  readiness_failed not_killed exited_successfully : Fault
  -- a `terminalSupervisorError`: closing the readiness gate, or publishing readiness
  close_failed publish_failed : Fault
  -- an error from outside, with what its `Terminal` method says, if it has one
  external : Option Bool → Fault

abbrev pub Error : Type 0
Error = List Fault

-- `err == nil`
abbrev pub is_nil : Error → Bool
is_nil [] = true
is_nil (_ ∷ _) = false

abbrev pub terminal_method : Fault → Option Bool
terminal_method close_failed = some true
terminal_method publish_failed = some true
terminal_method (external t) = t
terminal_method _ = none

abbrev pub first_terminal : Option Bool → Bool → Bool
first_terminal (some t) rest = t
first_terminal none rest = rest

-- `isTerminalFailure`: what the first error with the method answers
unfoldable pub is_terminal_failure : Error → Bool
is_terminal_failure [] = false
is_terminal_failure (f ∷ fs) = first_terminal (terminal_method f) (is_terminal_failure fs)

-- `fmt.Errorf("…: %w", err)`, and an error wrapped by `terminalSupervisorError`
abbrev pub wrap : Fault → Error → Error
wrap f e = f ∷ e

-- `terminalReadinessClose`
unfoldable pub terminal_readiness_close : Error → Error
terminal_readiness_close [] = []
terminal_readiness_close (f ∷ fs) = wrap close_failed (f ∷ fs)
