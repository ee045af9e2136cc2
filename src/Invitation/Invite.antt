-- ===== src/Invitation/Invite.antt =====
-- An invitation and its record: the types and the checks of internal/enrollment/invite.go,
-- PublishedSet of client.go. The key of a locator is its host and port. `ExpiresAt` is a text, read
-- by `time.Parse`; the other times of a record are only written and kept as times.
use warptweet.Prelude.{
  ℕ, ℤ, pos, le_int, Bool, true, false, not, ◌&&◌, ◌||◌, [], ◌∷◌, Bytes, codes, equal, ◌==◌, ltb,
  leb, length, if◌then◌else◌, Option, none, Result, ok, err, ◌>>=◌, ◌>>◌, reject,
}
use warptweet.Grant.Time.{Time, DurationError}
use warptweet.Grant.Duration.{duration_from_seconds}
use warptweet.Locator.Host.{Net, HostError, is_some, parse_dial_host, canonical_host}
use warptweet.Locator.Endpoint.{PublishedEndpointSet, EndpointError, in_host, canonical_set}
use warptweet.Enrollment.Texts.{any_of, is_digit, is_hex_id, is_lower_hex_digest}

-- `Invite`, with the fields of `InviteDial` and `InviteEnrollment`
pub record Invite : Type 0 where
  pub kind : Bytes
  pub schema_version : ℤ
  pub invite_id : Bytes
  pub client_name : Bytes
  pub data_host : Bytes
  pub data_port : ℕ
  pub enrollment_host : Bytes
  pub enrollment_port : ℕ
  pub tls_spki_sha256 : Bytes
  pub published_endpoint_generation : ℕ
  pub target_address : Bytes
  pub target_port : ℕ
  pub principal : Bytes
  pub profile_id : Bytes
  pub artifact_profile_id : Bytes
  pub host_public_key : Bytes
  pub issued_at : Bytes
  pub expires_at : Bytes
  pub authorization_duration_seconds : ℤ
  pub nonce : Bytes

-- `Status`, whose other texts are not one of the five
pub data InviteStatus : Type 0 where
  issued consumed cancelled revoked expired : InviteStatus
  unknown : Bytes → InviteStatus

-- `Record`, whose empty times are none
pub record Record : Type 0 where
  pub invite : Invite
  pub status : InviteStatus
  pub consumed_at : Option Time
  pub revoked_at : Option Time
  pub client_id : Bytes

-- `Record{Invite: invite, Status: StatusIssued}`
abbrev pub new_record : Invite → Record
new_record invite = record {
  invite = invite;
  status = issued;
  consumed_at = none;
  revoked_at = none;
  client_id = [];
}

abbrev pub is_issued : InviteStatus → Bool
is_issued issued = true
is_issued _ = false

pub data ShapeError : Type 0 where
  bad_kind missing_fields bad_invite_id generation_zero bad_target ports_zero : ShapeError
  shared_locator bad_digest : ShapeError
  bad_data_host bad_enrollment_host : HostError → ShapeError
  bad_duration : DurationError → ShapeError

abbrev pub kind_invite : Bytes
kind_invite = codes "warptweet.invite"

abbrev pub int_is : ℕ → ℤ → Bool
int_is n i = le_int (pos n) i && le_int i (pos n)

abbrev pub in_shape {ℓ κ} :
    {X : Type ℓ} {A : Type κ} → (X → ShapeError) → Result X A → Result ShapeError A
in_shape wrap (ok a) = ok a
in_shape wrap (err e) = err (wrap e)

module _ (net : Net) where
  -- `canonicalInviteHost`
  unfoldable pub canonical_invite_host : Bytes → Result HostError Bytes
  canonical_invite_host value = do host ← parse_dial_host net value; canonical_host net host

  -- `validateInviteShape`
  unfoldable pub validate_invite_shape : Invite → Result ShapeError (Unit {0})
  validate_invite_shape invite = do
    reject (not (equal invite.kind kind_invite) || not (int_is 3 invite.schema_version)) bad_kind
    reject (equal invite.invite_id [] || equal invite.client_name [] || equal invite.nonce [])
        missing_fields
    reject (not (is_hex_id invite.invite_id)) bad_invite_id
    reject (invite.published_endpoint_generation == 0) generation_zero
    data_at ← in_shape bad_data_host (canonical_invite_host invite.data_host)
    enroll_at ← in_shape bad_enrollment_host (canonical_invite_host invite.enrollment_host)
    reject (not (is_some (net.parse_addr invite.target_address))) bad_target
    reject (invite.data_port == 0 || invite.target_port == 0 || invite.enrollment_port == 0)
        ports_zero
    reject (equal data_at enroll_at && invite.data_port == invite.enrollment_port) shared_locator
    reject (not (is_lower_hex_digest invite.tls_spki_sha256)) bad_digest
    _ ← in_shape bad_duration (duration_from_seconds invite.authorization_duration_seconds)
    ok tt

  -- `canonicalizeStoredInvite`
  unfoldable pub canonicalize_stored_invite : Invite → Result ShapeError Invite
  canonicalize_stored_invite invite = do
    data_at ← in_shape bad_data_host (canonical_invite_host invite.data_host)
    enroll_at ← in_shape bad_enrollment_host (canonical_invite_host invite.enrollment_host)
    let canonical = record invite { data_host = data_at; enrollment_host = enroll_at }
    validate_invite_shape canonical
    ok canonical

  -- `Invite.PublishedSet`
  unfoldable pub published_set : Invite → Result EndpointError PublishedEndpointSet
  published_set invite = do
    data_to ← in_host EndpointError.data_host (parse_dial_host net invite.data_host)
    enroll_to ← in_host EndpointError.enrollment_host (parse_dial_host net invite.enrollment_host)
    canonical_set net (record {
      generation = invite.published_endpoint_generation;
      data_endpoint = record { host = data_to; port = invite.data_port };
      enrollment = record { host = enroll_to; port = invite.enrollment_port };
    })

-- `isSafeName`; a rune above 127 has bytes above 127 only
abbrev pub is_mark : ℕ → Bool
is_mark c = c == b'.' || c == b'_' || c == b'-'

abbrev pub is_word : ℕ → Bool
is_word c = (leb b'a' c && leb c b'z') || (leb b'A' c && leb c b'Z') || is_digit c

abbrev pub starts_with_word : Bytes → Bool
starts_with_word [] = false
starts_with_word (c ∷ _) = is_word c

unfoldable pub is_safe_name : Bytes → Bool
is_safe_name value =
    if equal value [] || ltb 64 (length value)
    then false
    else starts_with_word value && not (any_of (λ c. not (is_word c || is_mark c)) value)

abbrev pub is_line_break : ℕ → Bool
is_line_break c = c == 13 || c == 10 || c == 0
