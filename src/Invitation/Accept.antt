-- ===== src/Invitation/Accept.antt =====
-- Accepting an enrollment: Accept of internal/enrollment/accept.go, which holds its invitation's lock
-- from the load to its end.
use warptweet.Prelude.{ℤ, not, [], Bytes, equal, if◌then◌else◌, Option, none, some}
use warptweet.Grant.Status.{same, active, enrollment_pending}
use warptweet.Grant.Time.{Time, Stamp, before}
use warptweet.Grant.Duration.{authorization_not_after}
use warptweet.Locator.Endpoint.{PublishedEndpointSet, canonical_set, set_equal}
use warptweet.Enrollment.Texts.{trim_space}
use warptweet.Enrollment.Client.{ClientRecord, public_key_digest}
use warptweet.Enrollment.Store.{update_client}
use warptweet.Invitation.Invite.{Record, published_set, int_is}
use warptweet.Invitation.Store.{
  InviteSystem, bad_set, unknown_invite, set_mismatch, no_duration, bad_not_after, Action, pure,
  raise, lift, ◌>>=◌, ◌>>◌, wrapped, raise_if, on_clients, or_else, lock_invite, time_or_now, load,
}
use warptweet.Invitation.Request.{
  AcceptInput, AcceptResult, client_id_for, grant_id_for, check_input, check_binding,
}
use warptweet.Invitation.Use.{is_consumed, invite_expiry, require_time, consume, expire_record}
use warptweet.Invitation.Resume.{
  parse_stamp, install, required_installer, accepted_as, hash_of, resume_accepted_enrollment,
  store_or_resume_pending_client,
}

module _ {H E : Type 0} (system : InviteSystem H E) where
  -- `wantClient`
  unfoldable pub want_client :
      AcceptInput H E → Record → PublishedEndpointSet → Bytes → Bytes → Time → Stamp → ClientRecord
  want_client input loaded published client_id key now not_after = record {
    client_id = client_id;
    grant_id = grant_id_for system.clients.sha256_hex loaded.invite.invite_id key;
    tunnel_id = input.request.tunnel_id;
    route_id = input.request.tunnel_id;
    invite_id = loaded.invite.invite_id;
    public_key = key;
    public_key_sha256 = public_key_digest system.clients.sha256_hex key;
    management_token_sha256 = hash_of system input.request;
    principal = loaded.invite.principal;
    profile_id = loaded.invite.profile_id;
    artifact_profile_id = loaded.invite.artifact_profile_id;
    published_endpoint_set = published;
    target_address = loaded.invite.target_address;
    target_port = loaded.invite.target_port;
    status = enrollment_pending;
    accepted_at = system.format_nano now;
    authorization_not_after = some not_after;
    authorization_duration_seconds = loaded.invite.authorization_duration_seconds;
    revoked_at = none;
    expired_at = none;
    generation = system.clients.generation_at now;
    previous_public_key = [];
    previous_management_token_sha256 = [];
    pending_public_key = [];
    pending_management_token_sha256 = [];
    operation_started_at = none;
  }

  -- `if client.Status == ClientStatusEnrollmentPending { … UpdateClient … }`
  unfoldable pub activate : ClientRecord → Action H E (Unit {0})
  activate client =
      if same client.status enrollment_pending
      then on_clients (update_client system.clients (record client { status = active }))
      else pure tt

  -- Consume, and the result
  unfoldable pub consume_as :
      Record
      → Bytes
      → Bytes
      → Time
      → Bytes
      → Option Stamp
      → ℤ
      → PublishedEndpointSet
      → Action H E AcceptResult
  consume_as loaded client_id key now accepted_at not_after seconds published = do
    used ← consume system loaded.invite.invite_id client_id now
    pure (accepted_as used.invite client_id key accepted_at not_after seconds published)

  -- Accept with a directory of clients, from the record that is wanted on
  unfoldable pub accept_client :
      Record
      → (Bytes → Time → H → H × Option E)
      → ClientRecord
      → Time
      → PublishedEndpointSet
      → Action H E AcceptResult
  accept_client loaded installer want now published = do
    client ← store_or_resume_pending_client system want
    not_after ← lift (wrapped bad_not_after (parse_stamp client.authorization_not_after))
    install installer want.public_key not_after
    activate client
    consume_as loaded want.client_id want.public_key now client.accepted_at
        client.authorization_not_after client.authorization_duration_seconds published

  -- Accept from `acceptedAt` on, with the time and the text of the authorization's end
  unfoldable pub accept_until :
      AcceptInput H E
      → Record
      → PublishedEndpointSet
      → Bytes
      → Bytes
      → Time
      → (Bytes → Time → H → H × Option E)
      → Time × Stamp
      → Action H E AcceptResult
  accept_until input loaded published client_id key now installer (not_after, stamp) =
      if not (equal input.clients_directory [])
      then accept_client loaded installer
          (want_client input loaded published client_id key now stamp) now published
      else (install installer key not_after
          >> consume_as loaded client_id key now (system.format_nano now) (some stamp)
              loaded.invite.authorization_duration_seconds published)

  -- Accept from the test of the expiry on
  unfoldable pub accept_before :
      AcceptInput H E
      → Record
      → PublishedEndpointSet
      → Bytes
      → Bytes
      → Time
      → (Bytes → Time → H → H × Option E)
      → Time
      → Action H E AcceptResult
  accept_before input loaded published client_id key now installer expires =
      if not (before now expires) then expire_record system loaded.invite.invite_id loaded else (do
        raise_if (int_is 0 loaded.invite.authorization_duration_seconds) no_duration
        end ← lift (
            wrapped bad_not_after
              (authorization_not_after now loaded.invite.authorization_duration_seconds))
        accept_until input loaded published client_id key now installer end)

  unfoldable pub accept_issued :
      AcceptInput H E
      → Record
      → PublishedEndpointSet
      → Bytes
      → Bytes
      → Time
      → Action H E AcceptResult
  accept_issued input loaded published client_id key now = do
    lift (check_binding input loaded)
    expires ← require_time (invite_expiry system loaded)
    installer ← required_installer input.install_authorization
    accept_before input loaded published client_id key now installer expires

  -- Accept from the record on
  unfoldable pub accept_loaded :
      AcceptInput H E → PublishedEndpointSet → Time → Record → Action H E AcceptResult
  accept_loaded input published now loaded = do
    record_set ← lift (wrapped bad_set (published_set system.net loaded.invite))
    raise_if (not (set_equal system.net record_set published)) set_mismatch
    let key = trim_space input.request.public_key
    let client_id = client_id_for system.clients.sha256_hex loaded.invite.invite_id key
    if is_consumed loaded.status
        then resume_accepted_enrollment system input loaded client_id key
        else accept_issued input loaded published client_id key now

  -- `Accept`
  unfoldable pub accept : Bytes → AcceptInput H E → Action H E AcceptResult
  accept current_id input = do
    lift (check_input current_id input)
    published ← lift (wrapped bad_set (canonical_set system.net input.published))
    now ← time_or_now system input.now
    lock_invite system input.request.invite_id
    loaded ← or_else (load system input.request.invite_id) (raise unknown_invite)
    accept_loaded input published now loaded
