-- ===== src/Enrollment/Lawful/Expiries.antt =====
-- The expiry of a client, along its events: `ExpireClient`.
use warptweet.Prelude.{
  Bool, true, false, ◌||◌, [], Bytes, equal, equal_refl, if◌then◌else◌, Result, ok, err, ◌≡◌, refl,
  arith,
}
use warptweet.Grant.Status.{
  Status, same, active, expiration_pending, expired, rotation_pending, can_transition, terminal,
  other,
}
use warptweet.Grant.Status.Paths.{is_ending, same_iff}
use warptweet.Grant.Time.{Time}
use warptweet.Grant.Expire.Gone.{validate_expire_plan-ok}
use warptweet.Grant.Expire.{ExpireError, validate_expire_plan, can_expire}
use warptweet.Enrollment.Client.{ClientRecord}
use warptweet.Enrollment.Store.{World, System, pure, ◌>>=◌, ◌>>◌, write_client_atomic}
use warptweet.Enrollment.Expire.{
  Expiry, execute, plan_of, with_burned, expiring, expired_at, write_expiry, begin_expiry,
  expire_now, expire_client, plan_error,
}
use warptweet.Enrollment.Lawful.{may_save, At, Holds, From}
use warptweet.Enrollment.Lawful.Steps.{
  from_seq, from_check, from_lift, from_raise, from_lock, from_write, from_load, from_time,
  from_pure,
}
use warptweet.Enrollment.Lawful.Expiring.{from_execute}

can_expire_from :
    (s : Status)
    → (same s active || same s rotation_pending) ≡ true
    → can_transition s expiration_pending ≡ true
unfolding can_transition
can_expire_from (other a) e = ground arith
can_expire_from _ e = ground arith

expiry_can_end : (s : Status) → same s expiration_pending ≡ true → can_transition s expired ≡ true
unfolding can_transition
expiry_can_end (other a) e = ground arith
expiry_can_end _ e = ground arith

may_save-expiring :
    (asks : Bool) (c : ClientRecord) (r g : Bool) (now : Time)
    → (same c.status active || same c.status rotation_pending) ≡ true
    → may_save asks (record { stored = c; removed_key = r; gone = g }) (expiring now c) ≡ true
unfolding may_save expiring terminal
may_save-expiring asks c r g now e = rw (equal_refl c.client_id, can_expire_from c.status e) refl

client_id-with_burned :
    (hash : Bytes) (c : ClientRecord) → (with_burned hash c).client_id ≡ c.client_id
unfolding with_burned
client_id-with_burned hash c = by_test (equal hash [])
  where
    by_test :
        (b : Bool)
        → (if b then c else record c {
          previous_management_token_sha256 = c.management_token_sha256;
          management_token_sha256 = hash;
        }).client_id
          ≡ c.client_id
    by_test true = refl
    by_test false = refl

expiring_is_ending : (s : Status) → same s expiration_pending ≡ true → is_ending s ≡ true
expiring_is_ending s e = rw ((same_iff s expiration_pending).0 e) refl

may_save-expired :
    (asks : Bool) (c : ClientRecord) (now : Time) (hash : Bytes)
    → same c.status expiration_pending ≡ true
    → may_save asks (record { stored = c; removed_key = true; gone = true }) (expired_at now hash c)
      ≡ true
unfolding may_save expired_at terminal
may_save-expired asks c now hash e =
    rw (client_id-with_burned hash c, equal_refl c.client_id, expiry_can_end c.status e)
      (ground arith)

client_id-expired_at :
    (now : Time) (hash : Bytes) (c : ClientRecord) → (expired_at now hash c).client_id ≡ c.client_id
unfolding expired_at
client_id-expired_at now hash c = client_id-with_burned hash c

expiring-pending :
    (now : Time) (c : ClientRecord)
    → (same (expiring now c).status expiration_pending ≡ true)
      × ((expiring now c).client_id ≡ c.client_id)
unfolding expiring same
expiring-pending now c = (refl, refl)

plan_error-ok :
    {E : Type 0} (r : Result (ExpireError E) (Unit {0})) → plan_error r ≡ ok tt → r ≡ ok tt
plan_error-ok (ok tt) e = refl
plan_error-ok (err x) e = cc

expirable-pending :
    (s : Status)
    → can_expire s ≡ true
    → (same s active || same s rotation_pending) ≡ false
    → same s expiration_pending ≡ true
unfolding same
expirable-pending (other a) e f = ground arith
expirable-pending _ e f = ground arith

valid-pending :
    {E : Type 0} (c : ClientRecord) (not_after now : Time)
    → plan_error {E = E} (validate_expire_plan (plan_of c not_after now)) ≡ ok tt
    → (same c.status active || same c.status rotation_pending) ≡ false
    → same c.status expiration_pending ≡ true
unfolding plan_of
valid-pending {E} c not_after now valid =
    expirable-pending c.status
      (validate_expire_plan-ok E (plan_of c not_after now) (plan_error-ok _ valid)).1

-- The record as it was, if its expiry is under way, or with the intent.
abbrev Expiring : {H : Type 0} → Bool → ClientRecord → Bytes → ClientRecord → World H → Type 0
Expiring asks start id p w = (same p.status expiration_pending ≡ true) × Holds asks start id p w

module _ {H E : Type 0} {asks : Bool} {start : ClientRecord} {id : Bytes} (system : System H E)
    {c : ClientRecord} where
  from_write_expiry :
      (now : Time) (r g : Bool)
      → (same c.status active || same c.status rotation_pending) ≡ true
      → From asks start id c r g (write_expiry system now c) (Expiring asks start id)
  unfolding write_expiry pure
  from_write_expiry now r g live = from_check _ (λ _.
      from_write system (expiring now c) (may_save-expiring asks c r g now live)
        (expiring-pending now c).1
        (record { run = λ w at. ((expiring-pending now c).0, (false, false, at)) }))

  from_begin_expiry :
      (now : Time) (r g : Bool)
      → ((same c.status active || same c.status rotation_pending) ≡ false
          → same c.status expiration_pending ≡ true)
      → From asks start id c r g (begin_expiry system now c) (Expiring asks start id)
  unfolding begin_expiry pure
  from_begin_expiry now r g others =
      by_status (same c.status active || same c.status rotation_pending) refl
    where
      by_status :
          (b : Bool)
          → (same c.status active || same c.status rotation_pending) ≡ b
          → From asks start id c r g
              (if b then write_expiry system now c else pure c)
              (Expiring asks start id)
      by_status true e = from_write_expiry now r g e
      by_status false e = record { run = λ w at. (others e, (r, g, at)) }

  from_expiring :
      (ops : Expiry H E) (not_after now : Time) (r g : Bool)
      → same c.status expiration_pending ≡ true
      → From asks start id c r g
          (do
            hash ← execute (plan_of c not_after now) ops
            write_client_atomic system (expired_at now hash c)
            pure (expired_at now hash c))
          (Holds asks start id)
  from_expiring ops not_after now r g e =
      from_seq _ _ (λ _. At asks start id c true true) _
        (from_execute ops not_after now r g (expiring_is_ending c.status e))
        (λ hash w at.
          (from_write system (expired_at now hash c) (may_save-expired asks c now hash e)
              (client_id-expired_at now hash c) from_pure).run
            w at)

module _ {H E : Type 0} {asks : Bool} {start : ClientRecord} {id : Bytes} (system : System H E)
    {c : ClientRecord} where
  from_expire_now :
      (ops : Expiry H E) (now : Time) (r g : Bool)
      → From asks start id c r g (expire_now system ops now c) (Holds asks start id)
  unfolding expire_now
  from_expire_now ops now r g = from_lift _ (λ not_after _. from_check _ (λ valid.
      from_seq _ _ (Expiring asks start id) _
        (from_begin_expiry system now r g (valid-pending c not_after now valid))
        (λ p w (pending, (r', g', at)).
          (from_expiring system ops not_after now r' g' pending).run w at)))

  pub from_expire_client :
      (ops : Expiry H E) (now : Time) (r g : Bool)
      → From asks start id c r g (expire_client system ops id now) (Holds asks start id)
  unfolding expire_client
  from_expire_client ops given_now r g = from_time system given_now _ (λ now.
      from_raise _ _
        (λ _. from_lock system _ (from_load _ _ refl (by_status now (same c.status expired)))))
    where
      by_status :
          (now : Time) (b : Bool)
          → From asks start id c r g
              (if b then pure c else expire_now system ops now c)
              (Holds asks start id)
      by_status now true = from_pure
      by_status now false = from_expire_now ops now r g
