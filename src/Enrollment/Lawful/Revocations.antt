-- ===== src/Enrollment/Lawful/Revocations.antt =====
-- The operations that revoke a client, along their events.
use warptweet.Prelude.{
  Bool, true, false, not, ◌||◌, ◌&&◌, [], Bytes, equal, if◌then◌else◌, Option, none, some, ◌≡◌,
  refl, arith,
}
use warptweet.Grant.Status.{
  Status, same, active, expiration_pending, rotation_pending, revocation_pending, revoked, other,
  can_transition,
}
use warptweet.Grant.Status.Paths.{is_ending, same_iff}
use warptweet.Grant.Time.{Time}
use warptweet.Enrollment.Client.{ClientRecord, ManagementRequest}
use warptweet.Enrollment.Store.{System, Callbacks, pure, ◌>>◌}
use warptweet.Enrollment.Revoke.{
  enforce, revoke_again, revoke_now, revoke_client, remove_if_given, revoke_again_as_host,
  revoke_now_as_host, revoke_client_as_host, complete_now, complete_pending_revocation,
}
use warptweet.Enrollment.Lawful.{Holds, From}
use warptweet.Enrollment.Lawful.Steps.{
  from_seq, from_after, from_next, from_check, from_required, from_raise, from_lock, from_load,
  from_nothing, from_time, from_pure,
}
use warptweet.Enrollment.Lawful.Ending.{
  is_given, may_remove-own, Clear, from_call_remove, from_enforce,
}
use warptweet.Enrollment.Lawful.Revoking.{
  is_pending, active_can_be_revoked, revocable-pending, Intended, from_remove_own, from_intend,
  from_pending, from_pending_as_host,
}

-- The test of the host's revocation leaves these statuses.
revocable_by_host-pending :
    (s : Status)
    → (not (same s active)
        && not (same s revocation_pending)
        && not (same s expiration_pending)
        && not (same s rotation_pending))
      ≡ false
    → (same s active || same s rotation_pending) ≡ false
    → is_pending s ≡ true
unfolding same
revocable_by_host-pending (other a) e f = ground arith
revocable_by_host-pending _ e f = ground arith

live_can_be_revoked :
    (s : Status)
    → (same s active || same s rotation_pending) ≡ true
    → can_transition s revocation_pending ≡ true
unfolding can_transition
live_can_be_revoked (other a) e = ground arith
live_can_be_revoked _ e = ground arith

revoked_is_ending : (s : Status) → same s revoked ≡ true → is_ending s ≡ true
revoked_is_ending s e = rw ((same_iff s revoked).0 e) refl

module _ {H E : Type 0} {asks : Bool} {start : ClientRecord} {id : Bytes} (system : System H E)
    (callbacks : Callbacks H E) (given : asks ≡ true → is_given callbacks.verify ≡ true)
    {c : ClientRecord} where
  from_revoke_again :
      (request : ManagementRequest) (r g : Bool)
      → same c.status revoked ≡ true
      → From asks start id c r g (revoke_again system callbacks request c) (Holds asks start id)
  unfolding revoke_again
  from_revoke_again request r g e = from_raise _ _ (λ _.
      from_next (from_remove_own system callbacks given r g (revoked_is_ending c.status e))
        from_pure)

  from_revoke_now :
      (request : ManagementRequest) (now : Time) (r g : Bool)
      → From asks start id c r g (revoke_now system callbacks request now c) (Holds asks start id)
  unfolding revoke_now
  from_revoke_now request now r g = from_raise _ _ (λ allowed. from_raise _ _ (λ _.
      from_seq _ _ (Intended asks start id) _
        (from_intend system (same c.status active) now r g (active_can_be_revoked c.status)
          (revocable-pending c.status allowed))
        (λ p w (pending, (r', g', at)).
          (from_pending system callbacks given now r' g' pending).run w at)))

  from_revoke_again_as_host :
      (r g : Bool)
      → same c.status revoked ≡ true
      → From asks start id c r g (revoke_again_as_host system callbacks c) (Holds asks start id)
  unfolding revoke_again_as_host
  from_revoke_again_as_host r g e = from_seen callbacks.remove
    where
      ending : is_ending c.status ≡ true
      ending = revoked_is_ending c.status e

      from_hooks :
          (r g : Bool)
          → From asks start id c r g
              (enforce callbacks c.client_id [] >> pure c)
              (Holds asks start id)
      from_hooks r g =
          from_after _ (Clear asks start id c r) (from_enforce callbacks r g given ending)
            (λ w (g', seen, at). from_pure.run w at)

      from_seen :
          (f : Option (Bytes → H → H × Option E))
          → From asks start id c r g
              (remove_if_given f c.public_key >> (enforce callbacks c.client_id [] >> pure c))
              (Holds asks start id)
      from_seen none = from_next from_nothing (from_hooks r g)
      from_seen (some f) =
          from_next
            (from_call_remove callbacks (f c.public_key) c.public_key r g (may_remove-own c ending))
            (from_hooks (r || equal c.public_key c.public_key) g)

  from_revoke_now_as_host :
      (now : Time) (r g : Bool)
      → From asks start id c r g (revoke_now_as_host system callbacks now c) (Holds asks start id)
  unfolding revoke_now_as_host
  from_revoke_now_as_host now r g = from_raise _ _ (λ allowed. from_required _ (λ _.
      from_seq _ _ (Intended asks start id) _
        (from_intend system (same c.status active || same c.status rotation_pending) now r g
          (live_can_be_revoked c.status) (revocable_by_host-pending c.status allowed))
        (λ p w (pending, (r', g', at)).
          (from_pending_as_host system callbacks given now r' g' pending).run w at)))

  from_complete_now :
      (now : Time) (r g : Bool)
      → From asks start id c r g (complete_now system callbacks now c) (Holds asks start id)
  unfolding complete_now
  from_complete_now now r g =
      from_raise _ _
        (λ allowed. from_pending system callbacks given now r g (only_pending c.status allowed))
    where
      only_pending : (s : Status) → not (same s revocation_pending) ≡ false → is_pending s ≡ true
      only_pending s e = ground arith

  pub from_revoke_client :
      (request : ManagementRequest) (now : Time) (r g : Bool)
      → request.client_id ≡ id
      → From asks start id c r g (revoke_client system callbacks request now) (Holds asks start id)
  unfolding revoke_client
  from_revoke_client request given_now r g e = from_time system given_now _ (λ now.
      from_check _ (λ _.
        from_lock system _
          (from_load _ _ e (from_raise _ _ (λ _. by_status now (same c.status revoked) refl)))))
    where
      by_status :
          (now : Time) (b : Bool)
          → same c.status revoked ≡ b
          → From asks start id c r g
              (if b
                then revoke_again system callbacks request c
                else revoke_now system callbacks request now c)
              (Holds asks start id)
      by_status now true e = from_revoke_again request r g e
      by_status now false e = from_revoke_now request now r g

  pub from_revoke_client_as_host :
      (now : Time) (r g : Bool)
      → From asks start id c r g
          (revoke_client_as_host system callbacks id now)
          (Holds asks start id)
  unfolding revoke_client_as_host
  from_revoke_client_as_host given_now r g = from_time system given_now _ (λ now.
      from_raise _ _
        (λ _. from_lock system _ (from_load _ _ refl (by_status now (same c.status revoked) refl))))
    where
      by_status :
          (now : Time) (b : Bool)
          → same c.status revoked ≡ b
          → From asks start id c r g
              (if b
                then revoke_again_as_host system callbacks c
                else revoke_now_as_host system callbacks now c)
              (Holds asks start id)
      by_status now true e = from_revoke_again_as_host r g e
      by_status now false e = from_revoke_now_as_host now r g

  pub from_complete_pending_revocation :
      (now : Time) (r g : Bool)
      → From asks start id c r g
          (complete_pending_revocation system callbacks id now)
          (Holds asks start id)
  unfolding complete_pending_revocation
  from_complete_pending_revocation now r g =
      from_lock system _ (from_load _ _ refl (by_status (same c.status revoked)))
    where
      by_status :
          (b : Bool)
          → From asks start id c r g
              (if b then pure c else complete_now system callbacks now c)
              (Holds asks start id)
      by_status true = from_pure
      by_status false = from_complete_now now r g
