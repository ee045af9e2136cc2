-- ===== src/Grant/Expire.antt =====
-- The expiry transaction of a grant: internal/grant/expire.go.
-- The host that the operations act on is a type `S` of states, and an operation returns the new
-- state with its error, if it has one. An operation that the caller left nil is `none`.
pub mod Gone
use warptweet.Prelude.{
  Bytes, equal, [], Bool, true, false, not, ◌||◌, ◌&&◌, if◌then◌else◌, Option, none, some, Result,
  ok, err, ◌>>=◌, ◌>>◌, reject,
}
use warptweet.Grant.Time.{Time, is_zero, before}
use warptweet.Grant.Status.{
  Status, active, expiration_pending, rotation_pending, same, TransitionError, authorize_transition,
}

pub record ExpirePlan : Type 0 where
  pub client_id : Bytes
  pub generation : Bytes
  pub public_key : Bytes
  pub public_key_sha256 : Bytes
  pub status : Status
  pub not_after : Time
  pub now : Time

pub data Step : Type 0 where
  remove_authorization terminate_session verify_authorization verify_session burn_token : Step

pub data ExpireError (E : Type 0) : Type 0 where
  missing_names missing_times not_due cannot_expire incomplete : ExpireError E
  conflicting : TransitionError → ExpireError E
  failed : Step → E → ExpireError E

-- `ReadyToExpire`
unfoldable pub ready_to_expire : Time → Time → Bool
ready_to_expire not_after now =
    if is_zero not_after || is_zero now then false else not (before now not_after)

-- the `switch` of `ValidateExpirePlan`
abbrev pub can_expire : Status → Bool
can_expire active = true
can_expire expiration_pending = true
can_expire rotation_pending = true
can_expire _ = false

unfoldable pub validate_expire_plan : {E : Type 0} → ExpirePlan → Result (ExpireError E) (Unit {0})
validate_expire_plan plan = do
  reject
      (equal plan.client_id []
        || equal plan.generation []
        || equal plan.public_key []
        || equal plan.public_key_sha256 [])
      missing_names
  reject (is_zero plan.now || is_zero plan.not_after) missing_times
  reject
      (not (ready_to_expire plan.not_after plan.now) && not (same plan.status expiration_pending))
      not_due
  reject (not (can_expire plan.status)) cannot_expire
  ok tt

module _ (S E : Type 0) where
  abbrev pub Op : Type 0
  Op = S → S × Option E

  -- `ExpireOps`
  pub record ExpireOps : Type 0 where
    pub remove : Option (Bytes → Op)
    pub verify_removed : Option (Bytes → Op)
    pub terminate : Option (Bytes → Bytes → Bytes → Op)
    pub verify_terminated : Option (Bytes → Bytes → Bytes → Op)
    pub burn : Option Op

  -- an operation, and what follows unless it failed
  abbrev pub go_on :
      Step
      → (S → S × Result (ExpireError E) (Unit {0}))
      → S × Option E
      → S × Result (ExpireError E) (Unit {0})
  go_on step next (s, none) = next s
  go_on step next (s, some e) = (s, err (failed step e))

  unfoldable pub then_do :
      Step
      → Op
      → (S → S × Result (ExpireError E) (Unit {0}))
      → S
      → S × Result (ExpireError E) (Unit {0})
  then_do step op next s = go_on step next (op s)

  -- the five operations in the order of the source
  unfoldable pub run_ops :
      ExpirePlan
      → (Bytes → Op)
      → (Bytes → Bytes → Bytes → Op)
      → (Bytes → Op)
      → (Bytes → Bytes → Bytes → Op)
      → Op
      → S
      → S × Result (ExpireError E) (Unit {0})
  run_ops plan remove terminate verify_removed verify_terminated burn =
      then_do remove_authorization (remove plan.public_key) (
        then_do terminate_session (terminate plan.client_id [] []) (
          then_do verify_authorization (verify_removed plan.public_key) (
            then_do verify_session (verify_terminated plan.client_id [] [])
              (then_do burn_token burn (λ s. (s, ok tt))))))

  -- with the check for nil operations
  abbrev pub run_complete :
      ExpirePlan
      → Option (Bytes → Op)
      → Option (Bytes → Op)
      → Option (Bytes → Bytes → Bytes → Op)
      → Option (Bytes → Bytes → Bytes → Op)
      → Option Op
      → S
      → S × Result (ExpireError E) (Unit {0})
  run_complete plan (some r) (some vr) (some t) (some vt) (some b) s = run_ops plan r t vr vt b s
  run_complete plan _ _ _ _ _ s = (s, err incomplete)

  unfoldable pub allowed_then :
      Result TransitionError (Unit {0})
      → (S → S × Result (ExpireError E) (Unit {0}))
      → S
      → S × Result (ExpireError E) (Unit {0})
  allowed_then (ok _) next s = next s
  allowed_then (err e) next s = (s, err (conflicting e))

  unfoldable pub valid_then :
      Result (ExpireError E) (Unit {0})
      → (S → S × Result (ExpireError E) (Unit {0}))
      → S
      → S × Result (ExpireError E) (Unit {0})
  valid_then (ok _) next s = next s
  valid_then (err e) next s = (s, err e)

  -- `ExecuteExpire`
  unfoldable pub execute_expire : ExpirePlan → ExpireOps → S → S × Result (ExpireError E) (Unit {0})
  execute_expire plan ops = valid_then (validate_expire_plan plan) (
      allowed_then (authorize_transition plan.status expiration_pending) (
        run_complete plan ops.remove ops.verify_removed ops.terminate ops.verify_terminated
          ops.burn))
