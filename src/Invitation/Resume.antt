-- ===== src/Invitation/Resume.antt =====
-- Taking up an enrollment again: resumeAcceptedEnrollment and storeOrResumePendingClient of
-- internal/enrollment/accept.go, and the result.
use warptweet.Prelude.{
  ℤ, le_int, Bool, not, ◌&&◌, ◌||◌, [], ◌∷◌, Bytes, equal, ◌==◌, Option, none, some, Result, ok,
  err,
}
use warptweet.Grant.Status.{same, active, enrollment_pending}
use warptweet.Grant.Time.{Time, Stamp, parse_utc, timestamp_empty, DurationError}
use warptweet.Locator.Endpoint.{PublishedEndpointSet, canonical_set, set_equal}
use warptweet.Enrollment.Client.{ClientRecord, constant_time_digest_equal, hash_management_token}
use warptweet.Enrollment.Store.{load_client, store_client}
use warptweet.Invitation.Invite.{Record, Invite}
use warptweet.Invitation.Store.{
  Registry, InviteSystem, InviteError, no_installer, bad_not_after, already_consumed,
  no_client_state, retry_mismatch, conflicting_client, outside, Action, pure, raise, lift, ◌>>=◌,
  ◌>>◌, wrapped, raise_if, on_clients, or_else, with_host,
}
use warptweet.Invitation.Request.{EnrollmentRequest, AcceptInput, AcceptResult}

-- `ParseUTC` of a record's text, which may be empty
abbrev pub parse_stamp : Option Stamp → Result DurationError Time
parse_stamp none = err timestamp_empty
parse_stamp (some stamp) = parse_utc stamp

module _ {H E : Type 0} where
  abbrev pub installed_in :
      Bytes → Time → Registry H → H × Option E → Registry H × Result (InviteError E) (Unit {0})
  installed_in key t reg (h, none) =
      (record (with_host reg h) { installs = (key, t) ∷ reg.installs }, ok tt)
  installed_in key t reg (h, some e) = (with_host reg h, err (outside e))

  -- `input.InstallAuthorization(publicKey, notAfter)`
  unfoldable pub install : (Bytes → Time → H → H × Option E) → Bytes → Time → Action H E (Unit {0})
  install f key t reg = installed_in key t reg (f key t reg.world.host)

  abbrev pub required_installer :
      Option (Bytes → Time → H → H × Option E) → Action H E (Bytes → Time → H → H × Option E)
  required_installer none = raise no_installer
  required_installer (some f) = pure f

abbrev pub int_equal : ℤ → ℤ → Bool
int_equal a b = le_int a b && le_int b a

abbrev pub ok_or {ℓ κ} : {X : Type ℓ} {A : Type κ} → A → Result X A → A
ok_or a (ok b) = b
ok_or a (err e) = a

-- the proof and result of an invitation, with what its client's record holds
unfoldable pub accepted_as :
    Invite → Bytes → Bytes → Bytes → Option Stamp → ℤ → PublishedEndpointSet → AcceptResult
accepted_as invite client_id key accepted_at not_after seconds published = record {
  proof = record {
    invite_id = invite.invite_id;
    client_id = client_id;
    host_public_key = invite.host_public_key;
    public_key = key;
    target = (invite.target_address, invite.target_port);
    principal = invite.principal;
    profile_id = invite.profile_id;
    nonce = invite.nonce;
    accepted_at = accepted_at;
    authorization_not_after = not_after;
    authorization_duration_seconds = seconds;
    published = published;
  };
  public_key = key;
  invite = invite;
  client_id = client_id;
}

module _ {H E : Type 0} (system : InviteSystem H E) where
  abbrev pub hash_of : EnrollmentRequest → Bytes
  hash_of request = hash_management_token system.clients.sha256_hex request.management_token

  -- `acceptedResult`
  unfoldable pub accepted_result : AcceptInput H E → Record → ClientRecord → Bytes → AcceptResult
  accepted_result input loaded client key =
      accepted_as loaded.invite client.client_id key client.accepted_at
        client.authorization_not_after client.authorization_duration_seconds
        (ok_or client.published_endpoint_set (canonical_set system.net input.published))

  -- an exact retry of the request that was accepted
  unfoldable pub is_retry : AcceptInput H E → Record → Bytes → ClientRecord → Bool
  is_retry input loaded key client =
      same client.status active
      && equal client.invite_id loaded.invite.invite_id
      && equal client.tunnel_id input.request.tunnel_id
      && equal client.public_key key
      && constant_time_digest_equal client.management_token_sha256 (hash_of input.request)
      && set_equal system.net client.published_endpoint_set input.published

  -- `resumeAcceptedEnrollment`
  unfoldable pub resume_accepted_enrollment :
      AcceptInput H E → Record → Bytes → Bytes → Action H E AcceptResult
  resume_accepted_enrollment input loaded client_id key = do
    raise_if (not (equal loaded.client_id client_id) || equal input.clients_directory [])
        already_consumed
    client ← or_else (on_clients (load_client client_id)) (raise no_client_state)
    raise_if (not (is_retry input loaded key client)) retry_mismatch
    installer ← required_installer input.install_authorization
    not_after ← lift (wrapped bad_not_after (parse_stamp client.authorization_not_after))
    install installer key not_after
    pure (accepted_result input loaded client key)

  unfoldable pub is_resumable : ClientRecord → ClientRecord → Bool
  is_resumable existing want =
      (same existing.status enrollment_pending || same existing.status active)
      && equal existing.invite_id want.invite_id
      && equal existing.tunnel_id want.tunnel_id
      && equal existing.public_key want.public_key
      && constant_time_digest_equal existing.management_token_sha256 want.management_token_sha256
      && equal existing.principal want.principal
      && equal existing.profile_id want.profile_id
      && set_equal system.net existing.published_endpoint_set want.published_endpoint_set
      && int_equal existing.authorization_duration_seconds want.authorization_duration_seconds
      && equal existing.target_address want.target_address
      && existing.target_port == want.target_port

  -- behind the StoreClient that failed, whose error the caller gets if there is no record
  unfoldable pub resume_pending : ClientRecord → InviteError E → Action H E ClientRecord
  resume_pending want e = do
    existing ← or_else (on_clients (load_client want.client_id)) (raise e)
    raise_if (not (is_resumable existing want)) conflicting_client
    pure existing

  abbrev pub stored_or :
      ClientRecord
      → Registry H × Result (InviteError E) (Unit {0})
      → Registry H × Result (InviteError E) ClientRecord
  stored_or want (reg, ok _) = (reg, ok want)
  stored_or want (reg, err e) = resume_pending want e reg

  -- `storeOrResumePendingClient`
  unfoldable pub store_or_resume_pending_client : ClientRecord → Action H E ClientRecord
  store_or_resume_pending_client want reg =
      stored_or want (on_clients (store_client system.clients want) reg)
