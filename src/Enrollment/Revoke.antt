-- ===== src/Enrollment/Revoke.antt =====
-- Authentication and revocation of a client: internal/enrollment/clients.go.
use warptweet.Prelude.{
  Bool, true, false, not, ◌||◌, ◌&&◌, [], Bytes, equal, if◌then◌else◌, Option, none, some,
}
use warptweet.Grant.Status.{
  same, active, expiration_pending, rotation_pending, revocation_pending, revoked,
}
use warptweet.Grant.Time.{Time}
use warptweet.Enrollment.Texts.{is_hex_id}
use warptweet.Enrollment.Client.{
  ClientRecord, ManagementRequest, bad_client_id, tunnel_mismatch, token_mismatch, status_is,
  validate_management_request_shape, authenticate_client_record, management_token_matches,
  hash_management_token,
}
use warptweet.Enrollment.Store.{
  removed, terminated, verified, System, Callbacks, Action, pure, lift, ◌>>=◌, ◌>>◌, raise_if, when,
  call, call_if_given, required, write_client_atomic, lock_client, load_client, burn, time_or_now,
}

module _ {H E : Type 0} (system : System H E) where
  -- `AuthenticateManagement`
  unfoldable pub authenticate_management : ManagementRequest → Action H E ClientRecord
  authenticate_management request = do
    lift (validate_management_request_shape request)
    lock_client system request.client_id
    client ← load_client request.client_id
    lift (authenticate_client_record system.sha256_hex client request)
    pure client

-- `if removeAuthorization != nil { ... }`
abbrev pub remove_if_given :
    {H E : Type 0} → Option (Bytes → H → H × Option E) → Bytes → Action H E (Unit {0})
remove_if_given none key = pure tt
remove_if_given (some f) key = call (removed key) (f key)

abbrev pub hook :
    {H E : Type 0}
    → Option (Bytes → Bytes → Bytes → H → H × Option E)
    → Bytes
    → Bytes
    → Option (H → H × Option E)
hook none client digest = none
hook (some f) client digest = some (f client [] digest)

-- the record with the intent to revoke it
unfoldable pub intended : Time → ClientRecord → ClientRecord
intended now client = record client { status = revocation_pending; operation_started_at = some now }

-- the record of a revoked client, with its token burned
unfoldable pub revoked_at : (Bytes → Bytes) → Time → Bytes → ClientRecord → ClientRecord
revoked_at sha256_hex now token client = record client {
  previous_management_token_sha256 = client.management_token_sha256;
  management_token_sha256 = hash_management_token sha256_hex token;
  status = revoked;
  revoked_at = some now;
  operation_started_at = none;
}

module _ {H E : Type 0} (callbacks : Callbacks H E) where
  -- `removeAuthorization(key)` behind the check for a nil callback
  unfoldable pub remove_authorization : Bytes → Action H E (Unit {0})
  remove_authorization key = do remove ← required callbacks.remove; call (removed key) (remove key)

  -- `TerminateSession` and `VerifySessionGone`, those of them that are given
  unfoldable pub enforce : Bytes → Bytes → Action H E (Unit {0})
  enforce client digest = do
    call_if_given (terminated client digest) (hook callbacks.terminate client digest)
    call_if_given (verified client digest) (hook callbacks.verify client digest)

  -- the pending key is removed too, if there is one
  unfoldable pub remove_pending : ClientRecord → Action H E (Unit {0})
  remove_pending client =
      when
        (not (equal client.pending_public_key [])
          && not (equal client.pending_public_key client.public_key))
        (remove_authorization client.pending_public_key)

module _ {H E : Type 0} (system : System H E) where
  -- the token is burned and the record of the revoked client written
  unfoldable pub finish_revocation : Time → ClientRecord → Action H E ClientRecord
  finish_revocation now client = do
    token ← burn system
    write_client_atomic system (revoked_at system.sha256_hex now token client)
    pure (revoked_at system.sha256_hex now token client)

  -- the intent is written, if the test asks for it
  unfoldable pub intend_if : Bool → Time → ClientRecord → Action H E ClientRecord
  intend_if false now client = pure client
  intend_if true now client = do
    write_client_atomic system (intended now client)
    pure (intended now client)

module _ {H E : Type 0} (system : System H E) (callbacks : Callbacks H E) where
  -- `RevokeClient` on a client that is already revoked
  unfoldable pub revoke_again : ManagementRequest → ClientRecord → Action H E ClientRecord
  revoke_again request client = do
    raise_if
        (not (
          management_token_matches system.sha256_hex client.previous_management_token_sha256
            request.management_token))
        token_mismatch
    remove_authorization callbacks client.public_key
    pure client

  -- `RevokeClient` on any other
  unfoldable pub revoke_now : ManagementRequest → Time → ClientRecord → Action H E ClientRecord
  revoke_now request now client = do
    raise_if
        (not (same client.status active)
          && not (same client.status revocation_pending)
          && not (same client.status expiration_pending))
        (status_is client.status)
    raise_if
        (not (
          management_token_matches system.sha256_hex client.management_token_sha256
            request.management_token))
        token_mismatch
    pending ← intend_if system (same client.status active) now client
    remove_authorization callbacks pending.public_key
    enforce callbacks pending.client_id []
    finish_revocation system now pending

  -- `RevokeClient`
  unfoldable pub revoke_client : ManagementRequest → Time → Action H E ClientRecord
  revoke_client request given_now = do
    now ← time_or_now system given_now
    lift (validate_management_request_shape request)
    lock_client system request.client_id
    client ← load_client request.client_id
    raise_if (not (equal client.tunnel_id request.tunnel_id)) tunnel_mismatch
    if same client.status revoked
        then revoke_again request client
        else revoke_now request now client

  -- `RevokeClientAsHost` on a client that is already revoked
  unfoldable pub revoke_again_as_host : ClientRecord → Action H E ClientRecord
  revoke_again_as_host client = do
    remove_if_given callbacks.remove client.public_key
    enforce callbacks client.client_id []
    pure client

  -- `RevokeClientAsHost` on any other
  unfoldable pub revoke_now_as_host : Time → ClientRecord → Action H E ClientRecord
  revoke_now_as_host now client = do
    raise_if
        (not (same client.status active)
          && not (same client.status revocation_pending)
          && not (same client.status expiration_pending)
          && not (same client.status rotation_pending))
        (status_is client.status)
    _ ← required callbacks.remove
    pending ←
        intend_if system (same client.status active || same client.status rotation_pending) now
          client
    remove_authorization callbacks pending.public_key
    remove_pending callbacks pending
    enforce callbacks pending.client_id []
    finish_revocation system now
        (record pending { pending_public_key = []; pending_management_token_sha256 = [] })

  -- `RevokeClientAsHost`
  unfoldable pub revoke_client_as_host : Bytes → Time → Action H E ClientRecord
  revoke_client_as_host id given_now = do
    now ← time_or_now system given_now
    raise_if (not (is_hex_id id)) bad_client_id
    lock_client system id
    client ← load_client id
    if same client.status revoked
        then revoke_again_as_host client
        else revoke_now_as_host now client

  -- `completePendingRevocation` on the client that its file holds now
  unfoldable pub complete_now : Time → ClientRecord → Action H E ClientRecord
  complete_now now client = do
    raise_if (not (same client.status revocation_pending)) (status_is client.status)
    remove_authorization callbacks client.public_key
    enforce callbacks client.client_id []
    finish_revocation system now client

  -- `completePendingRevocation`
  unfoldable pub complete_pending_revocation : Bytes → Time → Action H E ClientRecord
  complete_pending_revocation id now = do
    lock_client system id
    client ← load_client id
    if same client.status revoked then pure client else complete_now now client
