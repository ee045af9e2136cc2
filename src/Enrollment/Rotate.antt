-- ===== src/Enrollment/Rotate.antt =====
-- Rotation of a client's key: internal/enrollment/clients.go.
use warptweet.Prelude.{
  Bool, not, ◌||◌, ◌&&◌, [], Bytes, equal, if◌then◌else◌, Option, none, some, Result, ok, err,
}
use warptweet.Grant.Status.{same, active, expiration_pending, expired, rotation_pending}
use warptweet.Grant.Time.{Time}
use warptweet.Enrollment.Texts.{
  trim_space, is_management_token, KeyLineError, validate_public_key_line,
}
use warptweet.Enrollment.Client.{
  ClientRecord, ManagementRequest, ClientError, tunnel_mismatch, token_mismatch, status_is,
  rotation_mismatch, bad_next_token, bad_public_key, validate_management_request_shape,
  authorization_still_valid, management_token_matches, hash_management_token, public_key_digest,
  constant_time_digest_equal,
}
use warptweet.Enrollment.Store.{
  replaced, System, Callbacks, Action, pure, lift, ◌>>=◌, ◌>>◌, raise_if, call, required,
  write_client_atomic, lock_client, load_client, time_or_now,
}
use warptweet.Enrollment.Revoke.{enforce}

abbrev key_line : {E : Type 0} → Result KeyLineError (Unit {0}) → Result (ClientError E) (Unit {0})
key_line (ok _) = ok tt
key_line (err e) = err (bad_public_key e)

-- the record with the key and the token that it is to have
unfoldable pub rotating : Bytes → Bytes → Time → ClientRecord → ClientRecord
rotating new_key next_hash now client = record client {
  pending_public_key = new_key;
  pending_management_token_sha256 = next_hash;
  status = rotation_pending;
  operation_started_at = some now;
}

module _ {H E : Type 0} (replace : Option (Bytes → Bytes → H → H × Option E)) where
  -- `replaceAuthorization(old, new)` behind the check for a nil callback
  unfoldable pub replace_authorization : Bytes → Bytes → Action H E (Unit {0})
  replace_authorization old new = do f ← required replace; call (replaced old new) (f old new)

module _ {H E : Type 0} (system : System H E) where
  -- the record with its new key and token
  unfoldable pub rotated : Bytes → Bytes → Time → ClientRecord → ClientRecord
  rotated new_key next_hash now client = record client {
    previous_public_key = client.public_key;
    previous_management_token_sha256 = client.management_token_sha256;
    public_key = new_key;
    public_key_sha256 = public_key_digest system.sha256_hex new_key;
    management_token_sha256 = next_hash;
    pending_public_key = [];
    pending_management_token_sha256 = [];
    operation_started_at = none;
    status = active;
    generation = system.generation_at now;
  }

  -- the rotation is written
  unfoldable pub write_rotation : Bytes → Bytes → Time → ClientRecord → Action H E ClientRecord
  write_rotation new_key next_hash now client = do
    write_client_atomic system (rotating new_key next_hash now client)
    pure (rotating new_key next_hash now client)

  -- a request while a rotation is pending is for that one
  unfoldable pub resume_rotation : Bytes → Bytes → ClientRecord → Action H E ClientRecord
  resume_rotation new_key next_hash client = do
    raise_if
        (not (equal client.pending_public_key new_key)
          || not (constant_time_digest_equal client.pending_management_token_sha256 next_hash))
        rotation_mismatch
    pure client

  unfoldable pub begin_rotation : Bytes → Bytes → Time → ClientRecord → Action H E ClientRecord
  begin_rotation new_key next_hash now client =
      if same client.status active
      then write_rotation new_key next_hash now client
      else resume_rotation new_key next_hash client

  -- the test for an exact retry of a rotation that is complete
  unfoldable pub is_rotated : ManagementRequest → Bytes → Bytes → ClientRecord → Bool
  is_rotated request new_key next_hash client =
      same client.status active
      && equal client.public_key new_key
      && constant_time_digest_equal client.management_token_sha256 next_hash
      && constant_time_digest_equal client.previous_management_token_sha256
          (hash_management_token system.sha256_hex request.management_token)

module _ {H E : Type 0} (system : System H E)
    (replace : Option (Bytes → Bytes → H → H × Option E)) where
  -- `RotateClientPublicKey` on an exact retry
  unfoldable pub rotate_again : Bytes → ClientRecord → Action H E ClientRecord
  rotate_again new_key client = do
    replace_authorization replace client.previous_public_key new_key
    pure client

  -- `RotateClientPublicKey` on any other request
  unfoldable pub rotate_now :
      ManagementRequest → Bytes → Bytes → Time → ClientRecord → Action H E ClientRecord
  rotate_now request new_key next_hash now client = do
    lift (authorization_still_valid client now)
    raise_if (same client.status expired || same client.status expiration_pending)
        (status_is client.status)
    raise_if (not (same client.status active) && not (same client.status rotation_pending))
        (status_is client.status)
    raise_if
        (not (
          management_token_matches system.sha256_hex client.management_token_sha256
            request.management_token))
        token_mismatch
    pending ← begin_rotation system new_key next_hash now client
    replace_authorization replace pending.public_key new_key
    write_client_atomic system (rotated system new_key next_hash now pending)
    pure (rotated system new_key next_hash now pending)

  -- `RotateClientPublicKey`
  unfoldable pub rotate_client_public_key :
      ManagementRequest → Bytes → Time → Action H E ClientRecord
  rotate_client_public_key request public_key given_now = do
    let new_key = trim_space public_key
    let next_hash = hash_management_token system.sha256_hex request.next_management_token
    now ← time_or_now system given_now
    lift (validate_management_request_shape request)
    lift (key_line (validate_public_key_line new_key))
    raise_if (not (is_management_token request.next_management_token)) bad_next_token
    lock_client system request.client_id
    client ← load_client request.client_id
    raise_if (not (equal client.tunnel_id request.tunnel_id)) tunnel_mismatch
    if is_rotated system request new_key next_hash client
        then rotate_again new_key client
        else rotate_now request new_key next_hash now client

module _ {H E : Type 0} (system : System H E) (callbacks : Callbacks H E) where
  -- `EvictPreviousKeySessions`
  unfoldable pub evict_previous_key_sessions : ClientRecord → Action H E (Unit {0})
  evict_previous_key_sessions client =
      if equal client.previous_public_key []
      then pure tt
      else enforce callbacks client.client_id
          (public_key_digest system.sha256_hex client.previous_public_key)
