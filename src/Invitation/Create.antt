-- ===== src/Invitation/Create.antt =====
-- Making an invitation: Create and validateCreateInput of internal/enrollment/invite.go.
use warptweet.Prelude.{
  ℕ, ◌*◌, ℤ, pos, le_int, not, ◌&&◌, ◌||◌, [], Bytes, equal, ◌==◌, if◌then◌else◌, Result, ok, err,
  ◌>>=◌, ◌>>◌, reject,
}
use warptweet.Grant.Time.{Time, second, add, is_zero}
use warptweet.Grant.Duration.{positive_part}
use warptweet.Grant.Policy.{Policy, PolicyError, installed_default, resolve_duration}
use warptweet.Locator.Address.{Addr, has_zone, is_valid, is_unspecified}
use warptweet.Locator.Host.{Net}
use warptweet.Enrollment.Texts.{any_of, trim_space, is_lower_hex_digest}
use warptweet.Invitation.Invite.{
  Invite, Record, new_record, ShapeError, kind_invite, int_is, canonical_invite_host,
  validate_invite_shape, is_safe_name, is_line_break, ports_zero, generation_zero, shared_locator,
  bad_digest, bad_data_host, bad_enrollment_host,
}

-- `CreateInput`
pub record CreateInput : Type 0 where
  pub client_name : Bytes
  pub data_host : Bytes
  pub data_port : ℕ
  pub enrollment_host : Bytes
  pub enrollment_port : ℕ
  pub tls_spki_sha256 : Bytes
  pub published_endpoint_generation : ℕ
  pub target_address : Addr
  pub target_port : ℕ
  pub principal : Bytes
  pub profile_id : Bytes
  pub artifact_profile_id : Bytes
  pub host_public_key : Bytes
  pub ttl : ℤ
  pub authorization_duration_seconds : ℤ
  pub maximum_authorization_duration_seconds : ℤ
  pub now : Time

pub data CreateError : Type 0 where
  bad_client_name bad_target_address no_profile bad_host_key ttl_too_long : CreateError
  bad_policy : PolicyError → CreateError
  bad_shape : ShapeError → CreateError

abbrev pub default_enrollment_port : ℕ
default_enrollment_port = 29722

-- nanoseconds
abbrev pub default_ttl : ℕ
default_ttl = 15 * 60 * second

abbrev pub port_or_default : ℕ → ℕ
port_or_default port = if port == 0 then default_enrollment_port else port

abbrev pub in_create {ℓ κ} :
    {X : Type ℓ} {A : Type κ} → (X → CreateError) → Result X A → Result CreateError A
in_create wrap (ok a) = ok a
in_create wrap (err e) = err (wrap e)

-- `validateCreateInput`
unfoldable pub validate_create_input : Net → CreateInput → Result CreateError (Unit {0})
validate_create_input net input = do
  reject (equal input.client_name [] || not (is_safe_name input.client_name)) bad_client_name
  data_at ← in_create (λ e. bad_shape (bad_data_host e)) (canonical_invite_host net input.data_host)
  enroll_at ←
      in_create (λ e. bad_shape (bad_enrollment_host e))
        (canonical_invite_host net input.enrollment_host)
  reject
      (not (is_valid input.target_address)
        || is_unspecified input.target_address
        || has_zone input.target_address)
      bad_target_address
  reject (input.data_port == 0 || input.target_port == 0) (bad_shape ports_zero)
  reject (input.published_endpoint_generation == 0) (bad_shape generation_zero)
  reject (equal data_at enroll_at && input.data_port == port_or_default input.enrollment_port)
      (bad_shape shared_locator)
  reject
      (equal input.principal [] || equal input.profile_id [] || equal input.artifact_profile_id [])
      no_profile
  reject (equal (trim_space input.host_public_key) [] || any_of is_line_break input.host_public_key)
      bad_host_key
  reject (not (is_lower_hex_digest input.tls_spki_sha256)) (bad_shape bad_digest)

abbrev pub ttl_or_default : ℤ → ℤ
ttl_or_default ttl = if le_int ttl (pos 0) then pos default_ttl else ttl

abbrev pub policy_of : ℤ → Policy
policy_of maximum =
    if int_is 0 maximum
    then installed_default
    else record installed_default { maximum_seconds = maximum }

-- `Create`, with the texts of the 16 bytes each that `rand.Read` gives for the nonce and the id,
-- and the clock's time
unfoldable pub create :
    Net → (Time → Bytes) → Time → Bytes → Bytes → CreateInput → Result CreateError (Invite × Record)
create net format clock nonce id input = do
  validate_create_input net input
  let ttl = ttl_or_default input.ttl
  reject (not (le_int ttl (pos default_ttl))) ttl_too_long
  seconds ← in_create bad_policy (
      resolve_duration (policy_of input.maximum_authorization_duration_seconds)
        input.authorization_duration_seconds)
  let now = if is_zero input.now then clock else input.now
  data_at ← in_create (λ e. bad_shape (bad_data_host e)) (canonical_invite_host net input.data_host)
  enroll_at ←
      in_create (λ e. bad_shape (bad_enrollment_host e))
        (canonical_invite_host net input.enrollment_host)
  let invite : Invite = record {
    kind = kind_invite;
    schema_version = pos 3;
    invite_id = id;
    client_name = input.client_name;
    data_host = data_at;
    data_port = input.data_port;
    enrollment_host = enroll_at;
    enrollment_port = port_or_default input.enrollment_port;
    tls_spki_sha256 = trim_space input.tls_spki_sha256;
    published_endpoint_generation = input.published_endpoint_generation;
    target_address = net.addr_string input.target_address;
    target_port = input.target_port;
    principal = input.principal;
    profile_id = input.profile_id;
    artifact_profile_id = input.artifact_profile_id;
    host_public_key = trim_space input.host_public_key;
    issued_at = format now;
    expires_at = format (add now (positive_part ttl));
    authorization_duration_seconds = seconds;
    nonce = nonce;
  }
  in_create bad_shape (validate_invite_shape net invite)
  ok (invite, new_record invite)
