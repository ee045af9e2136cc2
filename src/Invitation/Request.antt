-- ===== src/Invitation/Request.antt =====
-- What a client asks for, and the answer: EnrollmentRequest and EnrollmentProof of
-- internal/enrollment/client.go, and the checks and ids of accept.go. The target of a proof, the text
-- `address:port`, is kept as the pair. The id of the profile in use, a constant, is a parameter.
use warptweet.Prelude.{
  ℕ, ℤ, not, ◌||◌, [], ◌∷◌, ◌++◌, Bytes, codes, equal, ◌==◌, take, Option, Result, ◌>>◌, reject,
}
use warptweet.Grant.Time.{Time, Stamp}
use warptweet.Locator.Endpoint.{PublishedEndpointSet}
use warptweet.Enrollment.Texts.{
  trim_space, is_hex_id, is_management_token, validate_public_key_line, any_of,
}
use warptweet.Invitation.Invite.{Invite, Record, is_issued, is_safe_name, is_line_break}
use warptweet.Invitation.Store.{
  InviteError, missing_fields, bad_invite_id, bad_nonce, bad_client_name, bad_listen,
  bad_management_token, bad_key_line, no_directory, bad_host_key, no_principal, unsupported_profile,
  no_target, wrapped, status_is, nonce_mismatch, name_mismatch, profile_mismatch,
  principal_mismatch, target_mismatch, host_key_mismatch,
}

pub record EnrollmentRequest : Type 0 where
  pub invite_id : Bytes
  pub nonce : Bytes
  pub client_name : Bytes
  pub public_key : Bytes
  pub profile_id : Bytes
  pub tunnel_id : Bytes
  pub listen_address : Bytes
  pub listen_port : ℕ
  pub management_token : Bytes

pub record EnrollmentProof : Type 0 where
  pub invite_id : Bytes
  pub client_id : Bytes
  pub host_public_key : Bytes
  pub public_key : Bytes
  pub target : Bytes × ℕ
  pub principal : Bytes
  pub profile_id : Bytes
  pub nonce : Bytes
  pub accepted_at : Bytes
  pub authorization_not_after : Option Stamp
  pub authorization_duration_seconds : ℤ
  pub published : PublishedEndpointSet

-- `AcceptInput`; an installer that is nil is none
pub record AcceptInput (H E : Type 0) : Type 0 where
  pub directory : Bytes
  pub clients_directory : Bytes
  pub request : EnrollmentRequest
  pub host_public_key : Bytes
  pub principal : Bytes
  pub profile_id : Bytes
  pub target_address : Bytes
  pub target_port : ℕ
  pub published : PublishedEndpointSet
  pub now : Time
  pub install_authorization : Option (Bytes → Time → H → H × Option E)

pub record AcceptResult : Type 0 where
  pub proof : EnrollmentProof
  pub public_key : Bytes
  pub invite : Invite
  pub client_id : Bytes

-- `clientIDFor` and `grantIDFor`: 16 bytes of the digest, in hex
unfoldable pub client_id_for : (Bytes → Bytes) → Bytes → Bytes → Bytes
client_id_for sha256_hex invite_id public_key =
    take 32 (sha256_hex (invite_id ++ 0 ∷ trim_space public_key))

unfoldable pub grant_id_for : (Bytes → Bytes) → Bytes → Bytes → Bytes
grant_id_for sha256_hex invite_id public_key =
    take 32 (sha256_hex (invite_id ++ 1 ∷ trim_space public_key))

module _ {E : Type 0} where
  -- `validateEnrollmentRequest`
  unfoldable pub validate_enrollment_request : EnrollmentRequest → Result (InviteError E) (Unit {0})
  validate_enrollment_request request = do
    reject (equal request.invite_id [] || equal request.nonce [] || equal request.client_name [])
        missing_fields
    reject (not (is_hex_id request.invite_id)) bad_invite_id
    reject (not (is_hex_id request.nonce)) bad_nonce
    reject (not (is_safe_name request.client_name)) bad_client_name
    reject (equal request.profile_id [] || equal request.tunnel_id []) missing_fields
    reject (not (equal request.listen_address (codes "127.0.0.1"))) bad_listen
    reject (request.listen_port == 0) bad_listen
    reject (not (is_management_token request.management_token)) bad_management_token
    wrapped bad_key_line (validate_public_key_line request.public_key)

  -- the checks of Accept before it takes the lock
  unfoldable pub check_input :
      {H : Type 0} → Bytes → AcceptInput H E → Result (InviteError E) (Unit {0})
  check_input current_id input = do
    reject (equal input.directory []) no_directory
    validate_enrollment_request input.request
    reject
        (equal (trim_space input.host_public_key) [] || any_of is_line_break input.host_public_key)
        bad_host_key
    reject (equal input.principal [] || equal input.profile_id []) no_principal
    reject
        (not (equal input.profile_id current_id) || not (equal input.request.profile_id current_id))
        unsupported_profile
    reject (equal input.target_address [] || input.target_port == 0) no_target

  -- what binds a request to an invitation that is issued
  unfoldable pub check_binding :
      {H : Type 0} → AcceptInput H E → Record → Result (InviteError E) (Unit {0})
  check_binding input loaded = do
    reject (not (is_issued loaded.status)) (status_is loaded.status)
    reject (not (equal loaded.invite.nonce input.request.nonce)) nonce_mismatch
    reject (not (equal loaded.invite.client_name input.request.client_name)) name_mismatch
    reject
        (not (equal loaded.invite.profile_id input.request.profile_id)
          || not (equal loaded.invite.profile_id input.profile_id))
        profile_mismatch
    reject (not (equal loaded.invite.principal input.principal)) principal_mismatch
    reject
        (not (equal loaded.invite.target_address input.target_address)
          || not (loaded.invite.target_port == input.target_port))
        target_mismatch
    reject (not (equal loaded.invite.host_public_key (trim_space input.host_public_key)))
        host_key_mismatch
