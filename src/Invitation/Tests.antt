-- ===== src/Invitation/Tests.antt =====
-- Runs of the operations on an invitation, on a host that keeps the list of its keys.
use warptweet.Prelude.{
  ℕ, ◌+◌, ◌*◌, ◌%◌, pos, true, false, List, [], ◌∷◌, ◌++◌, Bytes, codes, equal, length,
  if◌then◌else◌, none, some, Result, ok, err, inl, inr, ◌≡◌, ◌≢◌, refl, arith, ◌⊎◌, Bool-cases,
  equal_iff,
}
use warptweet.Grant.Time.{Time, zero_time, second}
use warptweet.Locator.Address.{invalid, ip4}
use warptweet.Locator.Host.{Net, ip_literal, parse_dial_host, canonical_host, canonical_dns_name}
use warptweet.Locator.Host
use warptweet.Locator.Endpoint.{PublishedEndpointSet, DialEndpoint}
use warptweet.Enrollment.Store.{Written, written, unwritten, World, System}
use warptweet.Invitation.Invite.{Invite, Record, consumed, new_record}
use warptweet.Invitation.Store.{Registry, InviteSystem, InviteError}
use warptweet.Invitation.Request.{EnrollmentRequest, AcceptInput, AcceptResult, client_id_for}
use warptweet.Invitation.Invite
use warptweet.Invitation.Store
use warptweet.Invitation.Use
use warptweet.Invitation.Request
use warptweet.Invitation.Accept
use warptweet.Invitation.Resume
use warptweet.Invitation.Accept.{accept}
use warptweet.Invitation.Create.{CreateInput, create, validate_create_input}
use warptweet.Invitation.Lifetimes.{IsMade, create-IsMade}
use warptweet.Grant.Policy.{resolve_duration, validate, installed_default}
use warptweet.Invitation.Moves.{InPlace}
use warptweet.Invitation.Active.{ClientsInPlace}
use warptweet.Invitation.Authorized.{Authorized, accept-Authorized}
use warptweet.Invitation.Refused.{Untouched, accept-refuses_stranger}
use warptweet.Invitation.Held.{WasAccepted}
use warptweet.Invitation.Runs.{Operation, accepts, run, run-one_client}
use warptweet.Locator.Endpoint
use warptweet.Enrollment.Store as Clients
use warptweet.Enrollment.Texts.{
  trim_space, is_hex_id, is_management_token, is_lower_hex_digest, validate_public_key_line, fields,
}
use warptweet.Enrollment.Client.{
  hash_management_token, public_key_digest, constant_time_digest_equal,
}
use warptweet.Grant.Status.{same}
use warptweet.Grant.Time.{parse_utc, format_utc}
use warptweet.Grant.Duration.{authorization_not_after, duration_from_seconds}
use warptweet.Locator.Address.{canonical_addr}

-- One address, 192.0.2.1, is known to the library.
abbrev address : Bytes
address = codes "192.0.2.1"

abbrev net : Net
net = record {
  parse_addr = λ s. if equal s address then some (ip4 3221225985) else none;
  addr_string = λ a. address;
  valid_utf8 = λ s. true;
}

-- A name may be accepted that is an address behind its dot, and then is no canonical host.
dotted_address :
    (parse_dial_host net (codes "192.0.2.1.") ≡ ok (record { ip = invalid; name = address }))
    × (canonical_host net (record { ip = invalid; name = address }) ≡ err ip_literal)
unfolding parse_dial_host canonical_host canonical_dns_name Host.checked_name Host.check_runes
    Host.check_labels Host.check_label equal
dotted_address = (refl, refl)

upper_case : canonical_dns_name net (codes "A.Example.") ≡ ok (codes "a.example")
unfolding canonical_dns_name Host.checked_name Host.check_runes Host.check_labels Host.check_label
    equal
upper_case = refl

-- A digest that tells the lengths of texts apart.
abbrev sha : Bytes → Bytes
sha s = (48 + length s % 10) ∷ []

abbrev Keys : Type 0
Keys = List Bytes

abbrev some_day : Time
some_day = zero_time + 63_900_000_000 * second

abbrev clients : System Keys Bytes
clients = record {
  sha256_hex = sha;
  generation_at = λ t. codes "g";
  clock = λ h. some_day;
  lock = λ id h. (h, none);
  write = λ c h. (h, written);
  random_token = λ h. (h, ok (codes "t"));
}

-- The write of a record fails at the next turn, when the host has an empty key.
abbrev fails_once : Keys → Keys × Written Bytes
fails_once ([] ∷ keys) = (keys, unwritten (codes "no space"))
fails_once keys = (keys, written)

abbrev system : InviteSystem Keys Bytes
system = record {
  clients = clients;
  net = net;
  parse_nano = λ s. some (some_day + 60 * second);
  parse_rfc3339 = λ s. none;
  format_nano = λ t. codes "2026";
  lock_invite = λ id h. (h, none);
  write_record = λ id r h. fails_once h;
}

abbrev digits64 : Bytes
digits64 = codes "0123456789abcdef0123456789abcdef0123456789abcdef0123456789abcdef"

abbrev profile_id : Bytes
profile_id = codes "profile"

abbrev invite : Invite
invite = record {
  kind = codes "warptweet.invite";
  schema_version = pos 3;
  invite_id = codes "ab";
  client_name = codes "laptop";
  data_host = codes "a.example";
  data_port = 22;
  enrollment_host = codes "b.example";
  enrollment_port = 29722;
  tls_spki_sha256 = digits64;
  published_endpoint_generation = 1;
  target_address = address;
  target_port = 22;
  principal = codes "p";
  profile_id = profile_id;
  artifact_profile_id = codes "artifact";
  host_public_key = codes "host";
  issued_at = codes "now";
  expires_at = codes "soon";
  authorization_duration_seconds = pos 3600;
  nonce = codes "cd";
}

abbrev endpoint : Bytes → ℕ → DialEndpoint
endpoint name port = record { host = record { ip = invalid; name = name }; port = port }

abbrev published : PublishedEndpointSet
published = record {
  generation = 1;
  data_endpoint = endpoint (codes "a.example") 22;
  enrollment = endpoint (codes "B.example.") 29722;
}

abbrev key_of : Bytes → Bytes
key_of blob = codes "ssh-mldsa44-ed25519@openssh.com " ++ blob

abbrev request : Bytes → Bytes → EnrollmentRequest
request nonce blob = record {
  invite_id = codes "ab";
  nonce = nonce;
  client_name = codes "laptop";
  public_key = key_of blob;
  profile_id = profile_id;
  tunnel_id = codes "t";
  listen_address = codes "127.0.0.1";
  listen_port = 1080;
  management_token = digits64;
}

abbrev input : Bytes → Bytes → AcceptInput Keys Bytes
input nonce blob = record {
  directory = codes "invites";
  clients_directory = codes "clients";
  request = request nonce blob;
  host_public_key = codes "host";
  principal = codes "p";
  profile_id = profile_id;
  target_address = address;
  target_port = 22;
  published = published;
  now = some_day;
  install_authorization = some (λ key t keys. (keys ++ key ∷ [], none));
}

-- An invitation is issued, and the host has these keys.
abbrev registry : Keys → Registry Keys
registry keys = record {
  invites = λ id. if equal id (codes "ab") then some (new_record invite) else none;
  world = record { files = λ id. none; host = keys; log = [] };
  installs = [];
}

abbrev try : Bytes → Registry Keys → Registry Keys × Result (InviteError Bytes) AcceptResult
try blob reg = accept system profile_id (input (codes "cd") blob) reg

abbrev first : Registry Keys × Result (InviteError Bytes) AcceptResult
first = try (codes "AAAA") (registry [])

abbrev result_of : Result (InviteError Bytes) AcceptResult → AcceptResult
result_of (ok result) = result
result_of (err e) = Resume.accepted_as invite [] [] [] none (pos 0) published

abbrev retried : List (Operation Keys Bytes)
retried =
    accepts (input (codes "cd") (codes "AAAA")) ∷ accepts (input (codes "cd") (codes "AAAA")) ∷ []

-- The first write of the invitation's record fails, after a key was installed; then a request with
-- another key is accepted.
abbrev interrupted : Registry Keys
interrupted = (try (codes "AAAA") (registry ([] ∷ []))).0

-- What these runs do: one key is installed, and its request may be sent again; but both keys are
-- installed when the first request was interrupted.
outcomes :
    (first ≡ (first.0, ok (result_of first.1)))
    × (first.0.world.host ≡ key_of (codes "AAAA") ∷ [])
    × ((run system profile_id retried (registry [])).1
        ≡ (codes "ab", key_of (codes "AAAA")) ∷ (codes "ab", key_of (codes "AAAA")) ∷ [])
    × ((try (codes "AAAAB") interrupted).0.world.host
        ≡ key_of (codes "AAAA") ∷ key_of (codes "AAAAB") ∷ [])
unfolding Invite.canonical_invite_host Invite.validate_invite_shape
    Invite.canonicalize_stored_invite Invite.published_set Invite.is_safe_name Store.pure
    Store.raise Store.lift Store.◌>>=◌ Store.◌>>◌ Store.raise_if Store.on_clients Store.or_else
    Store.ignore Store.write_record Store.lock_invite Store.time_or_now Store.load Use.invite_expiry
    Use.expire_record Use.finish_consume Use.consume Request.client_id_for Request.grant_id_for
    Request.validate_enrollment_request Request.check_input Request.check_binding Resume.install
    Resume.accepted_as Resume.is_resumable Resume.resume_pending
    Resume.store_or_resume_pending_client Accept.want_client Accept.activate Accept.consume_as
    Accept.accept_client Accept.accept_until Accept.accept_before Accept.accept_issued
    Accept.accept_loaded accept Host.check_runes Host.check_label Host.check_labels
    Host.checked_name Host.canonical_dns_name Host.ip_dial_host Host.parse_dial_host
    Host.canonical_host Host.host_equal Endpoint.endpoint_equal Endpoint.same_published_locators
    Endpoint.canonical_set Endpoint.set_equal Clients.put Clients.pure Clients.raise Clients.lift
    Clients.◌>>=◌ Clients.◌>>◌ Clients.raise_if Clients.write_client_atomic Clients.lock_client
    Clients.load_client Clients.store_client Clients.update_client equal trim_space is_hex_id
    is_management_token is_lower_hex_digest validate_public_key_line fields hash_management_token
    public_key_digest constant_time_digest_equal same parse_utc format_utc authorization_not_after
    duration_from_seconds canonical_addr Resume.resume_accepted_enrollment Resume.accepted_result
    Resume.is_retry
outcomes = (refl, refl, refl, refl)

-- The theorems at these runs

clients_given : equal (codes "clients") [] ≡ false
unfolding equal
clients_given = refl

no_clients : ClientsInPlace (registry []).world.files
no_clients id c e = cc

registry-InPlace : InPlace (registry []).invites
registry-InPlace id r = by_id (Bool-cases (equal id (codes "ab")))
  where
    by_id :
        (equal id (codes "ab") ≡ true) ⊎ (equal id (codes "ab") ≡ false)
        → (registry []).invites id ≡ some r
        → r.invite.invite_id ≡ id
    by_id (inl e) f = ground (arith, equal_iff id (codes "ab"))
    by_id (inr e) f = ground arith

invite_in_file : (registry []).invites (codes "ab") ≡ some (new_record invite)
unfolding equal
invite_in_file = refl

other_nonce : codes "cd" ≢ codes "ee"
other_nonce e = ground arith

accept-Authorized_example :
    Authorized (key_of (codes "AAAA")) (result_of first.1) first.0.world.files first.0.installs
unfolding trim_space
accept-Authorized_example =
    accept-Authorized system profile_id (input (codes "cd") (codes "AAAA")) (registry []) first.0
      (result_of first.1) clients_given no_clients outcomes.0

retried_accepted :
    WasAccepted (codes "ab") (key_of (codes "AAAA")) (run system profile_id retried (registry [])).1
retried_accepted = rw (outcomes.2) (inl (refl, refl))

run-one_client_example :
    client_id_for sha (codes "ab") (key_of (codes "AAAA"))
    ≡ client_id_for sha (codes "ab") (key_of (codes "AAAA"))
run-one_client_example =
    run-one_client system profile_id retried (registry []) (codes "ab") (key_of (codes "AAAA"))
      (key_of (codes "AAAA")) registry-InPlace retried_accepted retried_accepted

accept-refuses_stranger_example :
    Untouched
      (registry [])
      (accept system profile_id (input (codes "ee") (codes "AAAA")) (registry []))
accept-refuses_stranger_example =
    accept-refuses_stranger system (input (codes "ee") (codes "AAAA")) profile_id (registry [])
      (new_record invite) invite_in_file (inl (refl, other_nonce))

abbrev create_input : CreateInput
create_input = record {
  client_name = codes "laptop";
  data_host = codes "A.example";
  data_port = 22;
  enrollment_host = codes "b.example.";
  enrollment_port = 0;
  tls_spki_sha256 = digits64;
  published_endpoint_generation = 1;
  target_address = ip4 3221225985;
  target_port = 22;
  principal = codes "p";
  profile_id = profile_id;
  artifact_profile_id = codes "artifact";
  host_public_key = codes " host ";
  ttl = pos 0;
  authorization_duration_seconds = pos 3600;
  maximum_authorization_duration_seconds = pos 0;
  now = zero_time;
}

abbrev made : Invite
made = record invite { issued_at = codes "2026"; expires_at = codes "2026" }

created :
    create net (λ t. codes "2026") some_day (codes "cd") (codes "ab") create_input
    ≡ ok (made, new_record made)
unfolding create validate_create_input Invite.validate_invite_shape Invite.canonical_invite_host
    Invite.is_safe_name Host.canonical_dns_name Host.checked_name Host.check_runes Host.check_labels
    Host.check_label Host.ip_dial_host Host.parse_dial_host Host.canonical_host equal trim_space
    is_hex_id is_lower_hex_digest duration_from_seconds resolve_duration validate installed_default
    canonical_addr
created = refl

create-IsMade_example : IsMade net (λ t. codes "2026") some_day create_input made (new_record made)
create-IsMade_example =
    create-IsMade net (λ t. codes "2026") some_day (codes "cd") (codes "ab") create_input made
      (new_record made) created
