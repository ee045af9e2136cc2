-- ===== src/Grant/Expire/Gone.antt =====
-- The host behind `ExecuteExpire`: its operations, and the states they run through.
use warptweet.Prelude.{
  Bytes, equal, [], ◌≡◌, ◌⊎◌, refl, ap, ◌∙◌, true, not, ◌||◌, ◌&&◌, Option, none, some, Result, ok,
  err, arith, reject-eq-ok,
}
use warptweet.Grant.Time.{is_zero}
use warptweet.Grant.Status.{expiration_pending, same, TransitionError, authorize_transition}
use warptweet.Grant.Status.Paths.{same_iff}
use warptweet.Grant.Expire.{
  ExpirePlan, Step, ExpireError, ready_to_expire, validate_expire_plan, can_expire, Op, ExpireOps,
  go_on, then_do, run_ops, run_complete, allowed_then, valid_then, execute_expire,
  remove_authorization, terminate_session, verify_authorization, verify_session, burn_token,
}

pub validate_expire_plan-ok :
    (E : Type 0) (plan : ExpirePlan)
    → validate_expire_plan {E = E} plan ≡ ok tt
    → ((ready_to_expire plan.not_after plan.now ≡ true) ⊎ (plan.status ≡ expiration_pending))
      × (can_expire plan.status ≡ true)
unfolding validate_expire_plan
validate_expire_plan-ok E plan e =
    let (_, f₁) =
      reject-eq-ok
        (equal plan.client_id []
          || equal plan.generation []
          || equal plan.public_key []
          || equal plan.public_key_sha256 [])
        _ _ e in
    let (_, f₂) = reject-eq-ok (is_zero plan.now || is_zero plan.not_after) _ _ f₁ in
    let (due, f₃) =
      reject-eq-ok
        (not (ready_to_expire plan.not_after plan.now) && not (same plan.status expiration_pending))
        _ _ f₂ in
    let (status, _) = reject-eq-ok (not (can_expire plan.status)) _ _ f₃ in
    (ground (arith, due, same_iff plan.status expiration_pending), ground (arith, status))

module _ {S E : Type 0} where
  -- an operation that did not stop the transaction
  then_do-ok :
      (step : Step) (op : Op S E) (next : S → S × Result (ExpireError E) (Unit {0})) (s t : S)
      → then_do S E step op next s ≡ (t, ok tt)
      → (u : S) × (op s ≡ (u, none)) × (next u ≡ (t, ok tt))
  unfolding then_do
  then_do-ok step op next s t e = go (op s) refl e
    where
      go :
          (r : S × Option E)
          → op s ≡ r
          → go_on S E step next r ≡ (t, ok tt)
          → (u : S) × (op s ≡ (u, none)) × (next u ≡ (t, ok tt))
      go (u, none) h k = (u, h, k)
      go (u, some x) h k = cc

  -- The operations of a transaction that ran to its end, with the states between them.
  pub record Ran (plan : ExpirePlan) (ops : ExpireOps S E) (s t : S) : Type 0 where
    pub remove : Bytes → Op S E
    pub terminate : Bytes → Bytes → Bytes → Op S E
    pub verify_removed : Bytes → Op S E
    pub verify_terminated : Bytes → Bytes → Bytes → Op S E
    pub burn : Op S E
    pub given :
        (ops.remove ≡ some remove)
        × (ops.terminate ≡ some terminate)
        × (ops.verify_removed ≡ some verify_removed)
        × (ops.verify_terminated ≡ some verify_terminated)
        × (ops.burn ≡ some burn)
    pub removed : S
    pub terminated : S
    pub verified : S
    pub verified_both : S
    pub remove_ok : remove plan.public_key s ≡ (removed, none)
    pub terminate_ok : terminate plan.client_id [] [] removed ≡ (terminated, none)
    pub verify_removed_ok : verify_removed plan.public_key terminated ≡ (verified, none)
    pub verify_terminated_ok :
        verify_terminated plan.client_id [] [] verified ≡ (verified_both, none)
    pub burn_ok : burn verified_both ≡ (t, none)

  run_ops-Ran :
      (plan : ExpirePlan) (ops : ExpireOps S E) (s t : S) (r vr : Bytes → Op S E)
      (m vm : Bytes → Bytes → Bytes → Op S E) (b : Op S E)
      → (ops.remove ≡ some r)
        × (ops.terminate ≡ some m)
        × (ops.verify_removed ≡ some vr)
        × (ops.verify_terminated ≡ some vm)
        × (ops.burn ≡ some b)
      → run_ops S E plan r m vr vm b s ≡ (t, ok tt)
      → Ran plan ops s t
  unfolding run_ops
  run_ops-Ran plan ops s t r vr m vm b given e =
      let (s₁, e₁, f₁) = then_do-ok remove_authorization (r plan.public_key) _ s t e in
      let (s₂, e₂, f₂) = then_do-ok terminate_session (m plan.client_id [] []) _ s₁ t f₁ in
      let (s₃, e₃, f₃) = then_do-ok verify_authorization (vr plan.public_key) _ s₂ t f₂ in
      let (s₄, e₄, f₄) = then_do-ok verify_session (vm plan.client_id [] []) _ s₃ t f₃ in
      let (s₅, e₅, f₅) = then_do-ok burn_token b _ s₄ t f₄ in
      record {
        remove = r;
        terminate = m;
        verify_removed = vr;
        verify_terminated = vm;
        burn = b;
        given = given;
        removed = s₁;
        terminated = s₂;
        verified = s₃;
        verified_both = s₄;
        remove_ok = e₁;
        terminate_ok = e₂;
        verify_removed_ok = e₃;
        verify_terminated_ok = e₄;
        burn_ok =
            e₅
            ∙ ap (λ (u : S). (u, none))
                (ap (λ (p : S × Result (ExpireError E) (Unit {0})). p.0) f₅);
      }

  run_complete-Ran :
      (plan : ExpirePlan) (ops : ExpireOps S E) (s t : S) (r vr : Option (Bytes → Op S E))
      (m vm : Option (Bytes → Bytes → Bytes → Op S E)) (b : Option (Op S E))
      → ops.remove ≡ r
      → ops.verify_removed ≡ vr
      → ops.terminate ≡ m
      → ops.verify_terminated ≡ vm
      → ops.burn ≡ b
      → run_complete S E plan r vr m vm b s ≡ (t, ok tt)
      → Ran plan ops s t
  run_complete-Ran plan ops s t (some r) (some vr) (some m) (some vm) (some b) e₁ e₂ e₃ e₄ e₅ e =
      run_ops-Ran plan ops s t r vr m vm b (e₁, e₃, e₂, e₄, e₅) e
  run_complete-Ran plan ops s t _ _ _ _ _ e₁ e₂ e₃ e₄ e₅ e = cc

  valid_then-ok :
      (r : Result (ExpireError E) (Unit {0})) (next : S → S × Result (ExpireError E) (Unit {0}))
      (s t : S)
      → valid_then S E r next s ≡ (t, ok tt)
      → (r ≡ ok tt) × (next s ≡ (t, ok tt))
  unfolding valid_then
  valid_then-ok (ok tt) next s t e = (refl, e)
  valid_then-ok (err x) next s t e = cc

  allowed_then-ok :
      (r : Result TransitionError (Unit {0})) (next : S → S × Result (ExpireError E) (Unit {0}))
      (s t : S)
      → allowed_then S E r next s ≡ (t, ok tt)
      → next s ≡ (t, ok tt)
  unfolding allowed_then
  allowed_then-ok (ok tt) next s t e = e
  allowed_then-ok (err x) next s t e = cc

  -- An expiry is reported only for a plan that is due, or already under way, in a status that may
  -- expire, and only when all five operations succeeded, in this order.
  pub execute_expire-Ran :
      (plan : ExpirePlan) (ops : ExpireOps S E) (s t : S)
      → execute_expire S E plan ops s ≡ (t, ok tt)
      → ((ready_to_expire plan.not_after plan.now ≡ true) ⊎ (plan.status ≡ expiration_pending))
        × (can_expire plan.status ≡ true)
        × Ran plan ops s t
  unfolding execute_expire
  execute_expire-Ran plan ops s t e =
      let (valid, f₁) = valid_then-ok (validate_expire_plan plan) _ s t e in
      let f₂ =
        allowed_then-ok (authorize_transition plan.status expiration_pending)
          (run_complete S E plan ops.remove ops.verify_removed ops.terminate ops.verify_terminated
            ops.burn)
          s t f₁ in
      let (due, status) = validate_expire_plan-ok E plan valid in
      (due, status, run_complete-Ran plan ops s t _ _ _ _ _ refl refl refl refl refl f₂)

  -- What the host's operations promise: a verification that passes has looked, no later operation
  -- authorizes the key again, and none starts a session for the client.
  pub record Promises (ops : ExpireOps S E) (Authorized HasSession : S → Bytes → Type 0)
      : Type 0 where
    pub removal_verified :
        (f : Bytes → Op S E) (key : Bytes) (s t : S)
        → ops.verify_removed ≡ some f
        → f key s ≡ (t, none)
        → ¬ Authorized t key
    pub sessions_verified :
        (f : Bytes → Bytes → Bytes → Op S E) (client : Bytes) (s t : S)
        → ops.verify_terminated ≡ some f
        → f client [] [] s ≡ (t, none)
        → ¬ HasSession t client
    pub verify_authorizes_none :
        (f : Bytes → Bytes → Bytes → Op S E) (client key : Bytes) (s t : S)
        → ops.verify_terminated ≡ some f
        → f client [] [] s ≡ (t, none)
        → Authorized t key
        → Authorized s key
    pub burn_authorizes_none :
        (f : Op S E) (key : Bytes) (s t : S)
        → ops.burn ≡ some f
        → f s ≡ (t, none)
        → Authorized t key
        → Authorized s key
    pub burn_starts_none :
        (f : Op S E) (client : Bytes) (s t : S)
        → ops.burn ≡ some f
        → f s ≡ (t, none)
        → HasSession t client
        → HasSession s client

  -- `ExecuteExpire` never reports success while the key is authorized or the client has a
  -- session, on any host whose operations keep these promises.
  pub execute_expire_gone :
      (Authorized HasSession : S → Bytes → Type 0) (plan : ExpirePlan) (ops : ExpireOps S E)
      (s t : S)
      → Promises ops Authorized HasSession
      → execute_expire S E plan ops s ≡ (t, ok tt)
      → (¬ Authorized t plan.public_key) × (¬ HasSession t plan.client_id)
  execute_expire_gone Authorized HasSession plan ops s t p e =
      let (_, _, ran) = execute_expire-Ran plan ops s t e in
      let (_, _, g₃, g₄, g₅) = ran.given in
      (
        (λ a.
            p.removal_verified ran.verify_removed plan.public_key ran.terminated ran.verified g₃
              ran.verify_removed_ok
              (p.verify_authorizes_none ran.verify_terminated plan.client_id plan.public_key
                ran.verified ran.verified_both g₄ ran.verify_terminated_ok
                (p.burn_authorizes_none ran.burn plan.public_key ran.verified_both t g₅ ran.burn_ok
                  a))),
        (λ h.
            p.sessions_verified ran.verify_terminated plan.client_id ran.verified ran.verified_both
              g₄ ran.verify_terminated_ok
              (p.burn_starts_none ran.burn plan.client_id ran.verified_both t g₅ ran.burn_ok h)),
      )
