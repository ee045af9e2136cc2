-- ===== src/Locator/Dial.antt =====
-- The choice among the candidates of a dial: `Select` of internal/locator/resolve.go.
-- The context, the clock and the network are a type `S` of states. A time is a count of
-- nanoseconds, and `time.Until(deadline)` is what is left of it, or nothing.
use warptweet.Prelude.{
  ℕ, ◌+◌, ◌-◌, ◌*◌, ◌≤◌, ◌<◌, Bool, true, false, List, [], ◌∷◌, ◌++◌, Option, none, some, ltb, leb,
  ◌==◌, if◌then◌else◌, Result, ok, err, ◌≡◌, ◌≢◌, refl, ap, ◌∙◌, ok-injective, arith,
}
use mathlib.Core.Path.{subst}
use warptweet.Grant.Time.{second}
use warptweet.Locator.Address.{Addr}

abbrev pub candidate_timeout : ℕ
candidate_timeout = 2 * second

abbrev pub connect_aggregate_limit : ℕ
connect_aggregate_limit = 8 * second

-- `ctx.Err()`, the clock, and `options.Dial`
pub record Network (S E : Type 0) : Type 0 where
  pub cancelled : S → Option E
  pub clock : S → ℕ
  pub dial : Addr → ℕ → ℕ → S → S × Option E

pub data SelectError (E : Type 0) : Type 0 where
  port_zero no_candidates aggregate_timeout : SelectError E
  context_done : E → SelectError E
  tcp_connect : E → SelectError E

module _ {S E : Type 0} (network : Network S E) (port : ℕ) where
  abbrev pub Out : Type 0
  Out = S × Result (SelectError E) Addr

  -- `if remaining < timeout { timeout = remaining }`
  unfoldable pub timeout_at : ℕ → ℕ → ℕ
  timeout_at deadline now =
      if ltb (deadline - now) candidate_timeout then deadline - now else candidate_timeout

  -- `if err := ctx.Err(); err != nil { return }`
  abbrev pub unless_done : Option E → S → Out → Out
  unless_done none s next = next
  unless_done (some e) s next = (s, err (context_done e))

  -- the end of the loop
  abbrev pub give_up : Option E → S → Out
  give_up none s = (s, err aggregate_timeout)
  give_up (some e) s = (s, err (tcp_connect e))

  -- what follows a dial
  abbrev pub after_dial : Addr → (Option E → S → Out) → S × Option E → Out
  after_dial candidate rest (s, none) = (s, ok candidate)
  after_dial candidate rest (s, some e) = unless_done (network.cancelled s) s (rest (some e) s)

  -- a turn of the loop
  abbrev pub try_candidate : ℕ → Addr → (Option E → S → Out) → Option E → S → Out
  try_candidate deadline candidate rest last s = unless_done (network.cancelled s) s (
      if leb deadline (network.clock s)
      then give_up last s
      else after_dial candidate rest
          (network.dial candidate port (timeout_at deadline (network.clock s)) s))

  unfoldable pub select_loop : ℕ → List Addr → Option E → S → Out
  select_loop deadline [] last s = give_up last s
  select_loop deadline (candidate ∷ candidates) last s =
      try_candidate deadline candidate (select_loop deadline candidates) last s

  abbrev pub select_from : List Addr → S → Out
  select_from [] s = (s, err no_candidates)
  select_from (candidate ∷ candidates) s =
      select_loop (network.clock s + connect_aggregate_limit) (candidate ∷ candidates) none s

  -- `Select`
  unfoldable pub select : List Addr → S → Out
  select candidates s = if port == 0 then (s, err port_zero) else select_from candidates s

  -- The candidates were dialled in this order, in time, and each dial failed.
  pub data Failed (deadline : ℕ) : List Addr → S → S → Type 0 where
    nobody : {s : S} → Failed deadline [] s s
    failed :
        {candidate : Addr} {candidates : List Addr} {s t u : S} {e : E}
        → network.clock s < deadline
        → network.dial candidate port (timeout_at deadline (network.clock s)) s ≡ (t, some e)
        → Failed deadline candidates t u
        → Failed deadline (candidate ∷ candidates) s u

  -- A candidate that was dialled after those.
  pub record Connected (deadline : ℕ) (candidates : List Addr) (s t : S) (chosen : Addr)
      : Type 0 where
    pub before : List Addr
    pub behind : List Addr
    pub candidates_are : candidates ≡ before ++ chosen ∷ behind
    pub then_at : S
    pub others_failed : Failed deadline before s then_at
    pub in_time : network.clock then_at < deadline
    pub limited :
        (timeout_at deadline (network.clock then_at) ≤ candidate_timeout)
        × (network.clock then_at + timeout_at deadline (network.clock then_at) ≤ deadline)
    pub dialled :
        network.dial chosen port (timeout_at deadline (network.clock then_at)) then_at ≡ (t, none)

  timeout_at-bounds :
      (deadline now : ℕ)
      → now < deadline
      → (timeout_at deadline now ≤ candidate_timeout) × (now + timeout_at deadline now ≤ deadline)
  unfolding timeout_at
  timeout_at-bounds deadline now h = ground arith

  give_up-ne-ok : (last : Option E) (s t : S) (chosen : Addr) → give_up last s ≢ (t, ok chosen)
  give_up-ne-ok none s t chosen e = cc
  give_up-ne-ok (some x) s t chosen e = cc

  unless_done-ok :
      (o : Option E) (s t : S) (next : Out) (chosen : Addr)
      → unless_done o s next ≡ (t, ok chosen)
      → next ≡ (t, ok chosen)
  unless_done-ok none s t next chosen e = e
  unless_done-ok (some x) s t next chosen e = cc

  -- a turn, from what the turns after it do
  module _ (deadline : ℕ) (c : Addr) (cs : List Addr) (t : S) (chosen : Addr)
      (rest : Option E → S → Out)
      (others : (last : Option E) (s : S)
        → rest last s ≡ (t, ok chosen)
        → Connected deadline cs s t chosen) where
    after_dial-Connected :
        (s : S) (x : S × Option E)
        → network.clock s < deadline
        → network.dial c port (timeout_at deadline (network.clock s)) s ≡ x
        → after_dial c rest x ≡ (t, ok chosen)
        → Connected deadline (c ∷ cs) s t chosen
    after_dial-Connected s (u, none) early d e = record {
      before = [];
      behind = cs;
      candidates_are = ap (λ a. a ∷ cs) c_is_chosen;
      then_at = s;
      others_failed = nobody;
      in_time = early;
      limited = timeout_at-bounds deadline (network.clock s) early;
      dialled =
          subst (λ a. network.dial a port (timeout_at deadline (network.clock s)) s ≡ (t, none))
            c_is_chosen (d ∙ ap (λ v. (v, none)) (ap (λ (p : Out). p.0) e));
    }
      where
        c_is_chosen : c ≡ chosen
        c_is_chosen = ok-injective c chosen (ap (λ (p : Out). p.1) e)
    after_dial-Connected s (u, some x) early d e =
        let found =
          others (some x) u (unless_done-ok (network.cancelled u) u t (rest (some x) u) chosen e) in
        record {
          before = c ∷ found.before;
          behind = found.behind;
          candidates_are = ap (◌∷◌ c) found.candidates_are;
          then_at = found.then_at;
          others_failed = failed early d found.others_failed;
          in_time = found.in_time;
          limited = found.limited;
          dialled = found.dialled;
        }

    try_candidate-Connected :
        (last : Option E) (s : S)
        → try_candidate deadline c rest last s ≡ (t, ok chosen)
        → Connected deadline (c ∷ cs) s t chosen
    try_candidate-Connected last s e =
        by_clock (leb deadline (network.clock s)) refl
          (unless_done-ok (network.cancelled s) s t _ chosen e)
      where
        by_clock :
            (b : Bool)
            → leb deadline (network.clock s) ≡ b
            → (if b
                then give_up last s
                else after_dial c rest
                    (network.dial c port (timeout_at deadline (network.clock s)) s))
              ≡ (t, ok chosen)
            → Connected deadline (c ∷ cs) s t chosen
        by_clock true h e = absurd (give_up-ne-ok last s t chosen e)
        by_clock false h e = after_dial-Connected s _ (ground arith) refl e

  select_loop-Connected :
      (deadline : ℕ) (candidates : List Addr) (last : Option E) (s t : S) (chosen : Addr)
      → select_loop deadline candidates last s ≡ (t, ok chosen)
      → Connected deadline candidates s t chosen
  unfolding select_loop
  select_loop-Connected deadline [] last s t chosen e = absurd (give_up-ne-ok last s t chosen e)
  select_loop-Connected deadline (c ∷ cs) last s t chosen e =
      try_candidate-Connected deadline c cs t chosen (select_loop deadline cs)
        (λ last s e. select_loop-Connected deadline cs last s t chosen e) last s e

  select_from-Connected :
      (candidates : List Addr) (s t : S) (chosen : Addr)
      → select_from candidates s ≡ (t, ok chosen)
      → Connected (network.clock s + connect_aggregate_limit) candidates s t chosen
  select_from-Connected [] s t chosen e = cc
  select_from-Connected (c ∷ cs) s t chosen e =
      select_loop-Connected (network.clock s + connect_aggregate_limit) (c ∷ cs) none s t chosen e

  -- `Select` returns a candidate only for a port that is not zero, and only if its own dial
  -- succeeded and every candidate before it was dialled, in order, and failed. No dial begins when
  -- eight seconds are over, and the last one gets two seconds at most and none past the eight.
  pub select-Connected :
      (candidates : List Addr) (s t : S) (chosen : Addr)
      → select candidates s ≡ (t, ok chosen)
      → (port ≢ 0) × Connected (network.clock s + connect_aggregate_limit) candidates s t chosen
  unfolding select
  select-Connected candidates s t chosen e = by_port (port == 0) refl e
    where
      by_port :
          (b : Bool)
          → (port == 0) ≡ b
          → (if b then (s, err port_zero) else select_from candidates s) ≡ (t, ok chosen)
          → (port ≢ 0) × Connected (network.clock s + connect_aggregate_limit) candidates s t chosen
      by_port true h e = cc
      by_port false h e = ((λ z. ground arith), select_from-Connected candidates s t chosen e)
