-- ===== src/Grant/Status.antt =====
-- The grant state machine: internal/grant/state.go.
-- The source keeps a status as a string. The seven that it names are constructors, and `other`
-- stands for a string that is none of them.
pub mod Paths
use warptweet.Prelude.{
  Bool, true, false, not, ◌||◌, Bytes, equal, equal_refl, if◌then◌else◌, Result, ok, err, ◌≡◌, refl,
  ◌⊎◌, arith,
}

pub data Status : Type 0 where
  enrollment_pending active expiration_pending expired : Status
  rotation_pending revocation_pending revoked : Status
  other : Bytes → Status

-- `==` on statuses
unfoldable pub same : Status → Status → Bool
unfolding equal
same enrollment_pending enrollment_pending = true
same active active = true
same expiration_pending expiration_pending = true
same expired expired = true
same rotation_pending rotation_pending = true
same revocation_pending revocation_pending = true
same revoked revoked = true
same (other a) (other b) = equal a b
same _ _ = false

unfoldable pub known : Status → Bool
known (other _) = false
known _ = true

unfoldable pub terminal : Status → Bool
unfolding same
terminal status = same status expired || same status revoked

-- the `switch` of `CanTransition`
abbrev allowed : Status → Status → Bool
allowed enrollment_pending to = same to active
allowed active to =
    same to expiration_pending || same to rotation_pending || same to revocation_pending
allowed expiration_pending to = same to expired || same to revocation_pending
allowed rotation_pending to =
    same to active || same to revocation_pending || same to expiration_pending
allowed revocation_pending to = same to revoked
allowed _ to = false

unfoldable pub can_transition : Status → Status → Bool
unfolding same known
can_transition from to = if same from to then known from else allowed from to

pub data TransitionError : Type 0 where
  cannot_transition : Status → Status → TransitionError

unfoldable pub authorize_transition : Status → Status → Result TransitionError (Unit {0})
unfolding can_transition
authorize_transition from to =
    if not (can_transition from to) then err (cannot_transition from to) else ok tt
