-- ===== src/Enrollment/Lawful/Rotating.antt =====
-- The rotation of a client's key, along its events.
use warptweet.Prelude.{
  Bool, true, false, Bytes, equal, equal_refl, if◌then◌else◌, Option, ◌≡◌, refl, arith,
}
use warptweet.Grant.Status.{Status, same, active, rotation_pending, can_transition, terminal, other}
use warptweet.Grant.Time.{Time}
use warptweet.Enrollment.Texts.{trim_space}
use warptweet.Enrollment.Client.{ClientRecord, ManagementRequest, hash_management_token}
use warptweet.Enrollment.Store.{replaced, World, System, pure, ◌>>◌, write_client_atomic}
use warptweet.Enrollment.Rotate.{
  replace_authorization, rotating, rotated, write_rotation, resume_rotation, begin_rotation,
  is_rotated, rotate_again, rotate_now, rotate_client_public_key,
}
use warptweet.Enrollment.Lawful.{may_save, may_replace, effect_on, At, Holds, From}
use warptweet.Enrollment.Lawful.Steps.{
  from_seq, from_next, from_check, from_required, from_raise, from_lock, from_write, from_load,
  from_time, from_pure, from_call,
}

active_can_rotate : (s : Status) → same s active ≡ true → can_transition s rotation_pending ≡ true
unfolding can_transition
active_can_rotate (other a) e = ground arith
active_can_rotate _ e = ground arith

rotation_can_end : (s : Status) → same s rotation_pending ≡ true → can_transition s active ≡ true
unfolding can_transition
rotation_can_end (other a) e = ground arith
rotation_can_end _ e = ground arith

may_save-rotating :
    (asks : Bool) (c : ClientRecord) (r g : Bool) (key hash : Bytes) (now : Time)
    → same c.status active ≡ true
    → may_save asks (record { stored = c; removed_key = r; gone = g }) (rotating key hash now c)
      ≡ true
unfolding may_save rotating terminal
may_save-rotating asks c r g key hash now e =
    rw (equal_refl c.client_id, active_can_rotate c.status e) refl

module _ {H E : Type 0} (system : System H E) where
  may_save-rotated :
      (asks : Bool) (c : ClientRecord) (r g : Bool) (key hash : Bytes) (now : Time)
      → same c.status rotation_pending ≡ true
      → may_save asks
          (record { stored = c; removed_key = r; gone = g })
          (rotated system key hash now c)
        ≡ true
  unfolding may_save rotated terminal
  may_save-rotated asks c r g key hash now e =
      rw (equal_refl c.client_id, rotation_can_end c.status e) refl

  client_id-rotated :
      (c : ClientRecord) (key hash : Bytes) (now : Time)
      → (rotated system key hash now c).client_id ≡ c.client_id
  unfolding rotated
  client_id-rotated c key hash now = refl

-- The rotation to `key` is in the file.
abbrev Ready : {H : Type 0} → Bool → ClientRecord → Bytes → Bytes → ClientRecord → World H → Type 0
Ready asks start id key p w =
    (same p.status rotation_pending ≡ true)
    × (equal p.pending_public_key key ≡ true)
    × Holds asks start id p w

rotating-Ready :
    (key hash : Bytes) (now : Time) (c : ClientRecord)
    → (same (rotating key hash now c).status rotation_pending ≡ true)
      × (equal (rotating key hash now c).pending_public_key key ≡ true)
      × ((rotating key hash now c).client_id ≡ c.client_id)
unfolding rotating same
rotating-Ready key hash now c = (refl, equal_refl key, refl)

module _ {H E : Type 0} {asks : Bool} {start : ClientRecord} {id : Bytes} {c : ClientRecord} where
  from_replace :
      (replace : Option (Bytes → Bytes → H → H × Option E)) (old new : Bytes) (r g : Bool)
      → may_replace c old new ≡ true
      → From asks start id c r g
          (replace_authorization replace old new)
          (λ _. At asks start id c r g)
  unfolding replace_authorization effect_on
  from_replace replace old new r g may =
      from_required replace
        (λ f. from_call (replaced old new) (f old new) r g r g (rw may refl) (rw may refl))

  from_begin :
      (system : System H E) (key hash : Bytes) (now : Time) (r g : Bool)
      → (same c.status active ≡ false → same c.status rotation_pending ≡ true)
      → From asks start id c r g (begin_rotation system key hash now c) (Ready asks start id key)
  unfolding begin_rotation write_rotation resume_rotation pure
  from_begin system key hash now r g others = by_status (same c.status active) refl
    where
      by_status :
          (b : Bool)
          → same c.status active ≡ b
          → From asks start id c r g
              (if b
                then write_rotation system key hash now c
                else resume_rotation system key hash c)
              (Ready asks start id key)
      by_status true e =
          let (status, pending, same_id) = rotating-Ready key hash now c in
          from_write system (rotating key hash now c) (may_save-rotating asks c r g key hash now e)
            same_id (record { run = λ w at. (status, pending, (false, false, at)) })
      by_status false e =
          from_raise _ _ (λ matches. record { run = λ w at. (others e, ground arith, (r, g, at)) })

may_replace-pending :
    (c : ClientRecord) (key : Bytes)
    → same c.status rotation_pending ≡ true
    → equal c.pending_public_key key ≡ true
    → may_replace c c.public_key key ≡ true
unfolding may_replace
may_replace-pending c key status pending = rw (status, pending, equal_refl c.public_key) refl

may_replace-again :
    {H E : Type 0} (system : System H E) (c : ClientRecord) (request : ManagementRequest)
    (key hash : Bytes)
    → is_rotated system request key hash c ≡ true
    → may_replace c c.previous_public_key key ≡ true
unfolding may_replace is_rotated
may_replace-again system c request key hash e = rw (equal_refl c.previous_public_key) (ground arith)

module _ {H E : Type 0} {asks : Bool} {start : ClientRecord} {id : Bytes} (system : System H E)
    (replace : Option (Bytes → Bytes → H → H × Option E)) {c : ClientRecord} where
  from_ready :
      (key hash : Bytes) (now : Time) (r g : Bool)
      → same c.status rotation_pending ≡ true
      → equal c.pending_public_key key ≡ true
      → From asks start id c r g
          (do
            replace_authorization replace c.public_key key
            write_client_atomic system (rotated system key hash now c)
            pure (rotated system key hash now c))
          (Holds asks start id)
  from_ready key hash now r g status pending =
      from_next
        (from_replace replace c.public_key key r g (may_replace-pending c key status pending))
        (from_write system (rotated system key hash now c)
          (may_save-rotated system asks c r g key hash now status)
          (client_id-rotated system c key hash now) from_pure)

module _ {H E : Type 0} {asks : Bool} {start : ClientRecord} {id : Bytes} (system : System H E)
    (replace : Option (Bytes → Bytes → H → H × Option E)) {c : ClientRecord} where
  from_rotate_again :
      (request : ManagementRequest) (key hash : Bytes) (r g : Bool)
      → is_rotated system request key hash c ≡ true
      → From asks start id c r g (rotate_again system replace key c) (Holds asks start id)
  unfolding rotate_again
  from_rotate_again request key hash r g e =
      from_next
        (from_replace replace c.previous_public_key key r g
          (may_replace-again system c request key hash e))
        from_pure

  from_rotate_now :
      (request : ManagementRequest) (key hash : Bytes) (now : Time) (r g : Bool)
      → From asks start id c r g
          (rotate_now system replace request key hash now c)
          (Holds asks start id)
  unfolding rotate_now
  from_rotate_now request key hash now r g = from_check _ (λ _. from_raise _ _ (λ _.
      from_raise _ _ (λ allowed. from_raise _ _ (λ _.
        from_seq _ _ (Ready asks start id key) _
          (from_begin system key hash now r g (λ others. ground arith))
          (λ p w (status, pending, (r', g', at)).
            (from_ready system replace key hash now r' g' status pending).run w at)))))

  pub from_rotate_client_public_key :
      (request : ManagementRequest) (public_key : Bytes) (now : Time) (r g : Bool)
      → request.client_id ≡ id
      → From asks start id c r g
          (rotate_client_public_key system replace request public_key now)
          (Holds asks start id)
  unfolding rotate_client_public_key
  from_rotate_client_public_key request public_key given_now r g e =
      from_time system given_now _ (λ now. from_check _ (λ _. from_check _ (λ _.
        from_raise _ _ (λ _. from_lock system _ (
          from_load _ _ e
            (from_raise _ _ (λ _. by_retry now (is_rotated system request key hash c) refl)))))))
    where
      key : Bytes
      key = trim_space public_key

      hash : Bytes
      hash = hash_management_token system.sha256_hex request.next_management_token

      by_retry :
          (now : Time) (b : Bool)
          → is_rotated system request key hash c ≡ b
          → From asks start id c r g
              (if b
                then rotate_again system replace key c
                else rotate_now system replace request key hash now c)
              (Holds asks start id)
      by_retry now true e = from_rotate_again request key hash r g e
      by_retry now false e = from_rotate_now request key hash now r g
