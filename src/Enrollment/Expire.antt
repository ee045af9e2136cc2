-- ===== src/Enrollment/Expire.antt =====
-- Expiry of a client, and the reconciliation of what a crash left: internal/enrollment/clients.go.
use warptweet.Prelude.{
  Bool, true, false, not, ◌||◌, [], ◌∷◌, Bytes, equal, if◌then◌else◌, Option, none, some, Result,
  ok, err,
}
use warptweet.Grant.Status.{
  same, active, expiration_pending, expired, rotation_pending, TransitionError,
  authorize_transition,
}
use warptweet.Grant.Time.{Time, Stamp, DurationError, parse_utc}
use warptweet.Grant.Expire.{
  ExpirePlan, ExpireError, ExpireOps, Op, validate_expire_plan, execute_expire,
}
use warptweet.Enrollment.Texts.{is_hex_id}
use warptweet.Enrollment.Client.{
  ClientRecord, ClientError, bad_client_id, bad_expiry, conflicting, not_expired,
}
use warptweet.Enrollment.Store.{
  Event, removed, terminated, verified, World, System, Action, pure, lift, ◌>>=◌, ◌>>◌, raise_if,
  write_client_atomic, lock_client, load_client, time_or_now,
}

-- `grant.ExpireOps` as the caller gives them. `BurnManagementToken` is always given, as in
-- internal/command/enroll_server.go: ExpireClient calls it inside a function of its own, which is
-- never nil, so that ExecuteExpire does not see if it is missing.
pub record Expiry (H E : Type 0) : Type 0 where
  pub remove : Option (Bytes → H → H × Option E)
  pub verify_removed : Option (Bytes → H → H × Option E)
  pub terminate : Option (Bytes → Bytes → Bytes → H → H × Option E)
  pub verify_terminated : Option (Bytes → Bytes → Bytes → H → H × Option E)
  pub burn : H → H × Result E Bytes

-- What the operations run on: the world, and the variable `burnedHash`.
abbrev pub Burning : Type 0 → Type 0
Burning H = World H × Bytes

module _ {H E : Type 0} where
  abbrev pub happened : (Bool → Event) → (Burning H) → H × Option E → (Burning H) × Option E
  happened event (w, hash) (h, none) =
      ((record w { host = h; log = event true ∷ w.log }, hash), none)
  happened event (w, hash) (h, some e) =
      ((record w { host = h; log = event false ∷ w.log }, hash), some e)

  abbrev pub on_key :
      (Bytes → Bool → Event) → Option (Bytes → H → H × Option E) → Option (Bytes → Op (Burning H) E)
  on_key event none = none
  on_key event (some f) = some (λ key b. happened (event key) b (f key b.0.host))

  abbrev pub on_session :
      (Bytes → Bytes → Bool → Event)
      → Option (Bytes → Bytes → Bytes → H → H × Option E)
      → Option (Bytes → Bytes → Bytes → Op (Burning H) E)
  on_session event none = none
  on_session event (some f) = some (λ client generation digest b.
      happened (event client digest) b (f client generation digest b.0.host))

  -- a look at the authorized keys, which leaves no event
  abbrev pub looked : (Burning H) → H × Option E → (Burning H) × Option E
  looked (w, hash) (h, e) = ((record w { host = h }, hash), e)

  abbrev pub on_look : Option (Bytes → H → H × Option E) → Option (Bytes → Op (Burning H) E)
  on_look none = none
  on_look (some f) = some (λ key b. looked b (f key b.0.host))

  abbrev pub burned : (Burning H) → H × Result E Bytes → (Burning H) × Option E
  burned (w, hash) (h, ok new) = ((record w { host = h }, new), none)
  burned (w, hash) (h, err e) = ((record w { host = h }, hash), some e)

  -- the function around `ops.BurnManagementToken`
  abbrev pub on_burn : (H → H × Result E Bytes) → Op (Burning H) E
  on_burn f b = burned b (f b.0.host)

  -- `wrapped`
  unfoldable pub wrapped : Expiry H E → ExpireOps (Burning H) E
  wrapped ops = record {
    remove = on_key removed ops.remove;
    verify_removed = on_look ops.verify_removed;
    terminate = on_session terminated ops.terminate;
    verify_terminated = on_session verified ops.verify_terminated;
    burn = some (on_burn ops.burn);
  }

  abbrev pub ran :
      (Burning H) × Result (ExpireError E) (Unit {0}) → World H × Result (ClientError E) Bytes
  ran ((w, hash), ok _) = (w, ok hash)
  ran ((w, hash), err e) = (w, err (not_expired e))

  -- `grant.ExecuteExpire(plan, wrapped)`; the result is `burnedHash`
  unfoldable pub execute : ExpirePlan → Expiry H E → Action H E Bytes
  execute plan ops w = ran (execute_expire (Burning H) E plan (wrapped ops) (w, []))

module _ {E : Type 0} where
  abbrev pub plan_error : Result (ExpireError E) (Unit {0}) → Result (ClientError E) (Unit {0})
  plan_error (ok _) = ok tt
  plan_error (err e) = err (not_expired e)

  abbrev transition_error : Result TransitionError (Unit {0}) → Result (ClientError E) (Unit {0})
  transition_error (ok _) = ok tt
  transition_error (err e) = err (conflicting e)

  abbrev expiry_error : Result DurationError Time → Result (ClientError E) Time
  expiry_error (ok t) = ok t
  expiry_error (err e) = err (bad_expiry e)

  -- `grant.ParseUTC(record.AuthorizationNotAfter)`; it refuses an empty text too
  unfoldable pub not_after_of : Option Stamp → Result (ClientError E) Time
  not_after_of none = expiry_error (parse_utc Stamp.blank)
  not_after_of (some stamp) = expiry_error (parse_utc stamp)

-- the plan of an expiry
unfoldable pub plan_of : ClientRecord → Time → Time → ExpirePlan
plan_of client not_after now = record {
  client_id = client.client_id;
  generation = client.generation;
  public_key = client.public_key;
  public_key_sha256 = client.public_key_sha256;
  status = client.status;
  not_after = not_after;
  now = now;
}

-- the record with its token burned, if it was
unfoldable pub with_burned : Bytes → ClientRecord → ClientRecord
with_burned hash client = if equal hash [] then client else record client {
  previous_management_token_sha256 = client.management_token_sha256;
  management_token_sha256 = hash;
}

-- the record with the intent to expire it
unfoldable pub expiring : Time → ClientRecord → ClientRecord
expiring now client = record client { status = expiration_pending; operation_started_at = some now }

-- the record of a client that has expired
unfoldable pub expired_at : Time → Bytes → ClientRecord → ClientRecord
expired_at now hash client = record (with_burned hash client) {
  status = expired;
  expired_at = some now;
  operation_started_at = none;
}

module _ {H E : Type 0} (system : System H E) where
  -- the intent is written
  unfoldable pub write_expiry : Time → ClientRecord → Action H E ClientRecord
  write_expiry now client = do
    lift (transition_error (authorize_transition client.status expiration_pending))
    write_client_atomic system (expiring now client)
    pure (expiring now client)

  -- unless the expiry is under way
  unfoldable pub begin_expiry : Time → ClientRecord → Action H E ClientRecord
  begin_expiry now client =
      if same client.status active || same client.status rotation_pending
      then write_expiry now client
      else pure client

  -- `ExpireClient` on a client that has not expired
  unfoldable pub expire_now : Expiry H E → Time → ClientRecord → Action H E ClientRecord
  expire_now ops now client = do
    not_after ← lift (not_after_of client.authorization_not_after)
    lift (plan_error (validate_expire_plan (plan_of client not_after now)))
    pending ← begin_expiry now client
    hash ← execute (plan_of pending not_after now) ops
    write_client_atomic system (expired_at now hash pending)
    pure (expired_at now hash pending)

  -- `ExpireClient`
  unfoldable pub expire_client : Expiry H E → Bytes → Time → Action H E ClientRecord
  expire_client ops id given_now = do
    now ← time_or_now system given_now
    raise_if (not (is_hex_id id)) bad_client_id
    lock_client system id
    client ← load_client id
    if same client.status expired then pure client else expire_now ops now client
