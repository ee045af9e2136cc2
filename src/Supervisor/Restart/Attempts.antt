-- ===== src/Supervisor/Restart/Attempts.antt =====
-- The number of launches of `RunPrepared`.
use warptweet.Prelude.{
  ℕ, ◌+◌, ◌-◌, ◌<◌, ◌≤◌, ◌≡◌, refl, ℤ, pos, negsuc, le_int, Bool, true, false, List, [], ◌∷◌,
  if◌then◌else◌, ok, All, arith, length, >>=-eq-ok, ok-injective,
}
use mathlib.Core.Path.{subst}
use warptweet.Supervisor.Policy.{Policy, validate_policy, or_default, default_maximum_attempts}
use warptweet.Supervisor.Restart.{
  Prepared, provider_error, command, Waited, elapsed, wait_error, Turn, Loop, Progress, finished,
  running, stable_window, maximum_attempts, after_wait, reset_if_stable, count_failure, after_run,
  turn, run_loop, resume, initial_loop, run_prepared,
}

-- The runner's process ended before the stable window was over.
abbrev pub IsUnstable : Policy → Turn → Type 0
IsUnstable policy t = le_int (stable_window policy) t.runtime ≡ false

-- The loop has returned, and has launched at most this often.
abbrev pub Stops : ℕ → Progress → Type 0
Stops bound (finished _ l) = l.attempt ≤ bound
Stops bound (running _) = ⊥

-- The loop has returned so, or goes on with one failure more, below the limit `k`.
abbrev StopsOr : ℕ → Loop → Progress → Type 0
StopsOr k l (finished _ l') = l'.attempt ≤ l.attempt + 1
StopsOr k l (running l') =
    (l'.attempt ≤ l.attempt + 1)
    × (l'.consecutive_failures ≡ l.consecutive_failures + 1)
    × (l'.consecutive_failures < k)

if-StopsOr :
    (k : ℕ) (l : Loop) (b : Bool) (p q : Progress)
    → (b ≡ true → StopsOr k l p)
    → (b ≡ false → StopsOr k l q)
    → StopsOr k l (if b then p else q)
if-StopsOr k l true p q h g = h refl
if-StopsOr k l false p q h g = g refl

module _ (policy : Policy) (k : ℕ) (limit : maximum_attempts policy ≡ pos k) where
  after_wait-StopsOr :
      (w : Waited) (l l' : Loop)
      → l'.attempt ≡ l.attempt + 1
      → l'.consecutive_failures ≡ l.consecutive_failures + 1
      → l'.consecutive_failures < k
      → StopsOr k l (after_wait policy w l')
  unfolding after_wait
  after_wait-StopsOr elapsed l l' a c h = (omega arith, c, h)
  after_wait-StopsOr (wait_error true e) l l' a c h = omega arith
  after_wait-StopsOr (wait_error false e) l l' a c h = omega arith

  count_failure-StopsOr :
      (t : Turn) (l l' : Loop)
      → l'.attempt ≡ l.attempt + 1
      → l'.consecutive_failures ≡ l.consecutive_failures
      → StopsOr k l (count_failure policy t l')
  unfolding count_failure
  count_failure-StopsOr t l l' a c =
      if-StopsOr k l (le_int (maximum_attempts policy) (pos (l'.consecutive_failures + 1))) _ _
        (λ h. omega arith)
        (λ h.
          after_wait-StopsOr t.waited l _ a (omega arith)
            (unstuck (maximum_attempts policy) (l'.consecutive_failures + 1) limit h))
    where
      unstuck : (m : ℤ) (n : ℕ) → m ≡ pos k → le_int m (pos n) ≡ false → n < k
      unstuck m n e h = ground arith

  turn-StopsOr :
      (p : Prepared) (t : Turn) (l : Loop) → IsUnstable policy t → StopsOr k l (turn policy p t l)
  unfolding turn after_run reset_if_stable
  turn-StopsOr (provider_error true e) t l u = omega arith
  turn-StopsOr (provider_error false e) t l u = omega arith
  turn-StopsOr (command true) t l u = omega arith
  turn-StopsOr (command false) t l u =
      if-StopsOr k l t.cancelled _ _ (λ h. omega arith)
        (λ h.
          if-StopsOr k l policy.restart _ _ (λ r. rw u (count_failure-StopsOr t l _ refl refl))
            (λ r. omega arith))

  run_loop-Stops :
      (ts : List Turn) (l : Loop) (bound : ℕ)
      → All (IsUnstable policy) ts
      → l.consecutive_failures < k
      → k ≤ l.consecutive_failures + length ts
      → l.attempt + (k - l.consecutive_failures) ≤ bound
      → Stops bound (run_loop policy ts l)
  unfolding run_loop
  run_loop-Stops [] l bound u h enough b = absurd (omega arith)
  run_loop-Stops (t ∷ ts) l bound u h enough b =
      go (turn policy t.prepared t l) (turn-StopsOr t.prepared t l u.0) (run_loop-Stops ts)
    where
      go :
          (p : Progress)
          → StopsOr k l p
          → ((l : Loop) (bound : ℕ)
              → All (IsUnstable policy) ts
              → l.consecutive_failures < k
              → k ≤ l.consecutive_failures + length ts
              → l.attempt + (k - l.consecutive_failures) ≤ bound
              → Stops bound (run_loop policy ts l))
          → Stops bound (resume (run_loop policy ts) p)
      go (finished v l') s ih = omega arith
      go (running l') s ih = ih l' bound u.1 s.2 (omega arith) (omega arith)

positive_limit : (n : ℤ) (k : ℕ) → or_default n default_maximum_attempts ≡ pos k → 1 ≤ k
positive_limit (pos n) k e = ground arith
positive_limit (negsuc n) k e = ground arith

-- Where no run lasts the stable window, the loop returns, and after at most as many launches as
-- the attempt limit says, whatever else happens: enough turns are as many as that limit.
pub run_prepared-Stops :
    (policy : Policy) (turns : List Turn) (k : ℕ) (p : Progress)
    → maximum_attempts policy ≡ pos k
    → All (IsUnstable policy) turns
    → k ≤ length turns
    → run_prepared policy turns ≡ ok p
    → Stops k p
unfolding run_prepared
run_prepared-Stops policy turns k p limit unstable enough e =
    let (_, e₁, e₂) = >>=-eq-ok (validate_policy policy) _ e in
    let at_least_one : 1 ≤ k = positive_limit policy.maximum_attempts k limit in
    subst (Stops k) (ok-injective _ _ e₂) (
      run_loop-Stops policy k limit turns (initial_loop policy) k unstable at_least_one
        (omega arith) (omega arith))
