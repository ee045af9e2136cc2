-- ===== src/Enrollment/Client.antt =====
-- A client's record and the checks of a request: internal/enrollment/clients.go.
-- A text is its bytes, and an empty one stands for a field that JSON leaves out. A time that is
-- only ever written is kept as the time. SHA-256 in hex is a parameter.
use warptweet.Prelude.{
  ℕ, ℤ, Bool, false, not, ◌||◌, [], Bytes, equal, if◌then◌else◌, Option, none, some, Result, ok,
  err, ◌>>◌, reject,
}
use warptweet.Grant.Status.{Status, active, same, TransitionError}
use warptweet.Grant.Time.{Time, Stamp, DurationError, parse_utc}
use warptweet.Grant.Expire.{ExpireError, ready_to_expire}
use warptweet.Locator.Endpoint.{PublishedEndpointSet}
use warptweet.Enrollment.Texts.{trim_space, is_hex_id, is_management_token, KeyLineError}

-- `AuthorizationNotAfter == ""` is none, and so are the empty `RevokedAt`, `ExpiredAt` and
-- `OperationStartedAt`.
pub record ClientRecord : Type 0 where
  pub client_id : Bytes
  pub grant_id : Bytes
  pub tunnel_id : Bytes
  pub route_id : Bytes
  pub invite_id : Bytes
  pub public_key : Bytes
  pub public_key_sha256 : Bytes
  pub management_token_sha256 : Bytes
  pub principal : Bytes
  pub profile_id : Bytes
  pub artifact_profile_id : Bytes
  pub published_endpoint_set : PublishedEndpointSet
  pub target_address : Bytes
  pub target_port : ℕ
  pub status : Status
  pub accepted_at : Bytes
  pub authorization_not_after : Option Stamp
  pub authorization_duration_seconds : ℤ
  pub revoked_at : Option Time
  pub expired_at : Option Time
  pub generation : Bytes
  pub previous_public_key : Bytes
  pub previous_management_token_sha256 : Bytes
  pub pending_public_key : Bytes
  pub pending_management_token_sha256 : Bytes
  pub operation_started_at : Option Time

pub record ManagementRequest : Type 0 where
  pub client_id : Bytes
  pub management_token : Bytes
  pub tunnel_id : Bytes
  pub new_public_key : Bytes
  pub next_management_token : Bytes

-- The refusals of the operations, and the errors `E` of what they call.
pub data ClientError (E : Type 0) : Type 0 where
  missing_names bad_client_id bad_token bad_next_token unknown_client : ClientError E
  already_exists tunnel_mismatch token_mismatch no_callback : ClientError E
  no_expiry authorization_expired rotation_mismatch : ClientError E
  status_is : Status → ClientError E
  bad_expiry : DurationError → ClientError E
  bad_public_key : KeyLineError → ClientError E
  conflicting : TransitionError → ClientError E
  not_expired : ExpireError E → ClientError E
  outside : E → ClientError E

-- `constantTimeDigestEqual`
unfoldable pub constant_time_digest_equal : Bytes → Bytes → Bool
constant_time_digest_equal left right = equal left right

module _ (sha256_hex : Bytes → Bytes) where
  -- `HashManagementToken`
  unfoldable pub hash_management_token : Bytes → Bytes
  hash_management_token token = sha256_hex (trim_space token)

  -- `PublicKeyDigest`
  unfoldable pub public_key_digest : Bytes → Bytes
  public_key_digest public_key = sha256_hex (trim_space public_key)

  -- `managementTokenMatches`
  unfoldable pub management_token_matches : Bytes → Bytes → Bool
  management_token_matches want_hash token =
      if equal want_hash [] || not (is_management_token token)
      then false
      else constant_time_digest_equal want_hash (hash_management_token token)

module _ {E : Type 0} where
  -- `validateManagementRequestShape`
  unfoldable pub validate_management_request_shape :
      ManagementRequest → Result (ClientError E) (Unit {0})
  validate_management_request_shape request = do
    reject
        (equal request.client_id []
          || equal request.management_token []
          || equal request.tunnel_id [])
        missing_names
    reject (not (is_hex_id request.client_id)) bad_client_id
    reject (not (is_management_token request.management_token)) bad_token

  -- `authenticateClientRecord`
  unfoldable pub authenticate_client_record :
      (Bytes → Bytes) → ClientRecord → ManagementRequest → Result (ClientError E) (Unit {0})
  authenticate_client_record sha256_hex client request = do
    reject (not (same client.status active)) (status_is client.status)
    reject (not (equal client.tunnel_id request.tunnel_id)) tunnel_mismatch
    reject
        (not (
          management_token_matches sha256_hex client.management_token_sha256
            request.management_token))
        token_mismatch

  abbrev check_not_after : Time → Result DurationError Time → Result (ClientError E) (Unit {0})
  check_not_after now (err e) = err (bad_expiry e)
  check_not_after now (ok not_after) = reject (ready_to_expire not_after now) authorization_expired

  abbrev check_stamp : Time → Option Stamp → Result (ClientError E) (Unit {0})
  check_stamp now none = err no_expiry
  check_stamp now (some stamp) = check_not_after now (parse_utc stamp)

  -- `authorizationStillValid`
  unfoldable pub authorization_still_valid : ClientRecord → Time → Result (ClientError E) (Unit {0})
  authorization_still_valid client now = check_stamp now client.authorization_not_after
