-- ===== src/Supervisor/Restart/Bounds.antt =====
-- The waits of `RunPrepared`.
use Prim.Native.Nat.{min}
use mathlib.Core.Path.{subst}
use warptweet.Prelude.{
  ℕ, ◌+◌, ◌-◌, ◌*◌, ◌^◌, ◌<◌, ◌≤◌, ◌≡◌, inl, inr, ℤ, pos, le_int, Bool, true, false, List, [], ◌∷◌,
  if◌then◌else◌, ok, All, arith, Bool-cases, >>=-eq-ok, ok-injective,
}
use warptweet.Supervisor.Policy.{Policy, validate_policy, next_backoff}
use warptweet.Supervisor.Policy.Backoff.{IsValid, validate_policy-IsValid, next_backoff_exact}
use warptweet.Supervisor.Restart.{
  Prepared, provider_error, command, Waited, elapsed, wait_error, Turn, Loop, Progress, finished,
  running, stable_window, maximum_attempts, after_wait, reset_if_stable, count_failure, after_run,
  turn, run_loop, resume, initial_loop, run_prepared,
}

-- A duration between these bounds.
pub record Within (lo hi : ℕ) (d : ℤ) : Type 0 where
  pub value : ℕ
  pub is_value : d ≡ pos value
  pub at_least : lo ≤ value
  pub at_most : value ≤ hi

-- The invariant of the loop: the backoff, and every wait so far, is within the policy's bounds.
pub record Inv (initial maximum : ℕ) (l : Loop) : Type 0 where
  pub backoff_within : Within initial maximum l.backoff
  pub waits_within : All (Within initial maximum) l.waits

abbrev pub InvOf : ℕ → ℕ → Progress → Type 0
InvOf initial maximum (finished _ l) = Inv initial maximum l
InvOf initial maximum (running l) = Inv initial maximum l

if-InvOf :
    (lo hi : ℕ) (b : Bool) (p q : Progress)
    → InvOf lo hi p
    → InvOf lo hi q
    → InvOf lo hi (if b then p else q)
if-InvOf lo hi true p q h k = h
if-InvOf lo hi false p q h k = k

resume-InvOf :
    (lo hi : ℕ) (next : Loop → Progress) (p : Progress)
    → ((l : Loop) → Inv lo hi l → InvOf lo hi (next l))
    → InvOf lo hi p
    → InvOf lo hi (resume next p)
resume-InvOf lo hi next (finished v l) keep h = h
resume-InvOf lo hi next (running l) keep h = keep l h

module _ (policy : Policy) {initial maximum window timeout attempts : ℕ}
    (v : IsValid policy initial maximum window timeout attempts) (small : maximum < 2 ^ 63) where
  next-Within :
      (d : ℤ)
      → Within initial maximum d
      → Within initial maximum (next_backoff d policy.maximum_backoff)
  next-Within d w = record {
    value = min (w.value * 2) maximum;
    is_value = rw (w.is_value, v.maximum_is) (next_backoff_exact w.value maximum small);
    at_least = omega (arith, w, v);
    at_most = omega arith;
  }

  initial-Within : Within initial maximum policy.initial_backoff
  initial-Within = record {
    value = initial;
    is_value = v.initial_is;
    at_least = omega arith;
    at_most = v.ordered;
  }

  after_wait-Inv :
      (w : Waited) (l : Loop)
      → Inv initial maximum l
      → InvOf initial maximum (after_wait policy w l)
  unfolding after_wait
  after_wait-Inv elapsed l h = record {
    backoff_within = next-Within l.backoff h.backoff_within;
    waits_within = (h.backoff_within, h.waits_within);
  }
  after_wait-Inv (wait_error true e) l h = record {
    backoff_within = h.backoff_within;
    waits_within = (h.backoff_within, h.waits_within);
  }
  after_wait-Inv (wait_error false e) l h = record {
    backoff_within = h.backoff_within;
    waits_within = (h.backoff_within, h.waits_within);
  }

  reset_if_stable-Inv :
      (runtime : ℤ) (l : Loop)
      → Inv initial maximum l
      → Inv initial maximum (reset_if_stable policy runtime l)
  unfolding reset_if_stable
  reset_if_stable-Inv runtime l h = elim (Bool-cases (le_int (stable_window policy) runtime)) [
    | inl yes' ↦ rw yes' (record { backoff_within = initial-Within; waits_within = h.waits_within })
    | inr no' ↦ rw no' h
  ]

  count_failure-Inv :
      (t : Turn) (l : Loop)
      → Inv initial maximum l
      → InvOf initial maximum (count_failure policy t l)
  unfolding count_failure
  count_failure-Inv t l h =
      let counted : Inv initial maximum
          (record l { consecutive_failures = l.consecutive_failures + 1 }) =
        record { backoff_within = h.backoff_within; waits_within = h.waits_within } in
      if-InvOf _ _ (le_int (maximum_attempts policy) (pos (l.consecutive_failures + 1))) _ _ counted
        (after_wait-Inv t.waited _ counted)

  after_run-Inv :
      (t : Turn) (l : Loop) → Inv initial maximum l → InvOf initial maximum (after_run policy t l)
  unfolding after_run
  after_run-Inv t l h = if-InvOf _ _ t.cancelled _ _ h (
      if-InvOf _ _ policy.restart _ _ (count_failure-Inv t _ (reset_if_stable-Inv t.runtime l h)) h)

  turn-Inv :
      (p : Prepared) (t : Turn) (l : Loop)
      → Inv initial maximum l
      → InvOf initial maximum (turn policy p t l)
  unfolding turn
  turn-Inv (provider_error true e) t l h = h
  turn-Inv (provider_error false e) t l h = h
  turn-Inv (command true) t l h = h
  turn-Inv (command false) t l h =
      after_run-Inv t (record l { attempt = l.attempt + 1 })
        (record { backoff_within = h.backoff_within; waits_within = h.waits_within })

  run_loop-Inv :
      (ts : List Turn) (l : Loop)
      → Inv initial maximum l
      → InvOf initial maximum (run_loop policy ts l)
  unfolding run_loop
  run_loop-Inv [] l h = h
  run_loop-Inv (t ∷ ts) l h =
      resume-InvOf _ _ (run_loop policy ts) (turn policy t.prepared t l) (run_loop-Inv ts)
        (turn-Inv t.prepared t l h)

-- The invariant under a policy that was accepted.
pub record WaitsInBounds (policy : Policy) (p : Progress) : Type 0 where
  pub initial : ℕ
  pub maximum : ℕ
  pub initial_is : policy.initial_backoff ≡ pos initial
  pub maximum_is : policy.maximum_backoff ≡ pos maximum
  pub waits : InvOf initial maximum p

-- Under a policy that is accepted, whose maximum backoff is an int64, every wait between two
-- launches is at least the initial and at most the maximum backoff, over any number of turns and
-- whatever happens in them.
pub run_prepared-WaitsInBounds :
    (policy : Policy) (turns : List Turn) (p : Progress)
    → le_int policy.maximum_backoff (pos (2 ^ 63 - 1)) ≡ true
    → run_prepared policy turns ≡ ok p
    → WaitsInBounds policy p
unfolding run_prepared
run_prepared-WaitsInBounds policy turns p small e =
    let (_, e₁, e₂) = >>=-eq-ok (validate_policy policy) _ e in
    let (initial, maximum, window, timeout, attempts, v) = validate_policy-IsValid policy (cc e₁) in
    let int64 : maximum < 2 ^ 63 = ground (arith, v.maximum_is) in
    let start : Inv initial maximum (initial_loop policy) = record {
      backoff_within = initial-Within policy v int64;
      waits_within = tt;
    } in
    let result : InvOf initial maximum (run_loop policy turns (initial_loop policy)) =
      run_loop-Inv policy v int64 turns (initial_loop policy) start in
    record {
      initial = initial;
      maximum = maximum;
      initial_is = v.initial_is;
      maximum_is = v.maximum_is;
      waits = subst (InvOf initial maximum) (ok-injective _ _ e₂) result;
    }
