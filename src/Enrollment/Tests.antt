-- ===== src/Enrollment/Tests.antt =====
-- Runs of the operations on a client, on a host with one key and one session.
use warptweet.Prelude.{
  ℕ, ◌+◌, ◌*◌, Bool, true, false, [], ◌∷◌, Bytes, codes, equal, if◌then◌else◌, none, some, ok, err,
  ◌≡◌, refl, ◌⊎◌, pos,
}
use warptweet.Locator.Address.{ip4}
use warptweet.Locator.Endpoint.{DialEndpoint}
use warptweet.Grant.Status.{active, same}
use warptweet.Grant.Status.Paths.{is_ending}
use warptweet.Grant.Time.{Time, zero_time, second}
use warptweet.Enrollment.Texts.{
  trim_space, is_hex_id, is_management_token, is_lower_hex_digest, validate_public_key_line,
  private_material, fields,
}
use warptweet.Enrollment.Client.{
  ClientRecord, ManagementRequest, validate_management_request_shape, management_token_matches,
  hash_management_token, constant_time_digest_equal,
}
use warptweet.Enrollment.Store.{
  saved, removed, terminated, verified, written, World, System, Callbacks, pure, raise, lift, ◌>>=◌,
  ◌>>◌, raise_if, call, call_if_given, required, put, write_client_atomic, lock_client, load_client,
  burn, time_or_now,
}
use warptweet.Enrollment.Revoke.{
  authenticate_management, remove_authorization, enforce, revoked_at, finish_revocation, intended,
  intend_if, revoke_now, revoke_client,
}
use warptweet.Enrollment.Lawful.{Lawful}
use warptweet.Enrollment.Lawful.Order.{Follows}
use warptweet.Enrollment.Lawful.Clients.{
  Runs, none_yet, revoke, Begins, Runs-Lawful, Runs-Follows, Runs-removed,
}
use warptweet.Enrollment.Rotate.{rotate_client_public_key}
use warptweet.Enrollment.Refused.{Untouched}
use warptweet.Enrollment.Refused.Strangers.{IsStranger, stranger_refused}

-- Texts

trimmed : trim_space (codes "  key \n") ≡ codes "key"
unfolding trim_space
trimmed = refl

two_fields : fields (codes " type  blob ") ≡ codes "type" ∷ codes "blob" ∷ []
unfolding fields
two_fields = refl

seed_refused :
    validate_public_key_line (codes "ssh-mldsa44-ed25519@openssh.com AAAA my SEED")
    ≡ err private_material
unfolding validate_public_key_line trim_space fields equal
seed_refused = refl

-- A host

abbrev token : Bytes
token = codes "0123456789abcdef0123456789abcdef0123456789abcdef0123456789abcdef"

abbrev guess : Bytes
guess = codes "1123456789abcdef0123456789abcdef0123456789abcdef0123456789abcdef"

-- whether the key is on, and whether there is a session
abbrev Host : Type 0
Host = Bool × Bool

abbrev Fault : Type 0
Fault = ℕ

abbrev system : System Host Fault
system = record {
  sha256_hex = λ text. 104 ∷ text;
  generation_at = λ now. codes "1";
  clock = λ h. zero_time + 63_900_000_000 * second;
  lock = λ name h. (h, none);
  write = λ client h. (h, written);
  random_token = λ h. (h, ok guess);
}

abbrev callbacks : Callbacks Host Fault
callbacks = record {
  remove = some (λ key h. ((false, h.1), none));
  terminate = some (λ client generation digest h. ((h.0, false), none));
  verify = some (λ client generation digest h. (h, (if h.1 then some 1 else none)));
}

abbrev laptop : ClientRecord
laptop = record {
  client_id = codes "ab";
  grant_id = codes "g";
  tunnel_id = codes "t";
  route_id = codes "r";
  invite_id = codes "i";
  public_key = codes "key";
  public_key_sha256 = codes "d";
  management_token_sha256 = 104 ∷ token;
  principal = codes "p";
  profile_id = codes "profile";
  artifact_profile_id = codes "artifact";
  published_endpoint_set =
      let at : DialEndpoint = record { host = record { ip = ip4 1; name = [] }; port = 22 } in
      record { generation = 1; data_endpoint = at; enrollment = at };
  target_address = codes "127.0.0.1";
  target_port = 22;
  status = active;
  accepted_at = codes "2026";
  authorization_not_after = none;
  authorization_duration_seconds = pos 60;
  revoked_at = none;
  expired_at = none;
  generation = codes "1";
  previous_public_key = [];
  previous_management_token_sha256 = [];
  pending_public_key = [];
  pending_management_token_sha256 = [];
  operation_started_at = none;
}

abbrev request : Bytes → ManagementRequest
request with_token = record {
  client_id = codes "ab";
  management_token = with_token;
  tunnel_id = codes "t";
  new_public_key = [];
  next_management_token = [];
}

abbrev world : World Host
world = record {
  files = λ name. if equal name (codes "ab") then some laptop else none;
  host = (true, true);
  log = [];
}

abbrev some_day : Time
some_day = zero_time + 63_900_000_000 * second

abbrev ended : World Host
ended = (revoke_client system callbacks (request token) some_day world).0

events :
    ended.log
    ≡ saved (revoked_at system.sha256_hex some_day guess (intended some_day laptop))
      ∷ verified (codes "ab") [] true
      ∷ terminated (codes "ab") [] true
      ∷ removed (codes "key") true
      ∷ saved (intended some_day laptop)
      ∷ []
unfolding revoke_client revoke_now time_or_now ◌>>=◌ ◌>>◌ lift raise_if call call_if_given required
    put write_client_atomic lock_client load_client burn pure raise remove_authorization enforce
    finish_revocation intend_if equal same validate_management_request_shape is_hex_id
    is_management_token is_lower_hex_digest management_token_matches hash_management_token
    constant_time_digest_equal trim_space intended
events = refl

-- The theorems at this run

laptop-Begins : Begins (codes "ab") laptop world
unfolding equal
laptop-Begins = record { in_file = refl; in_place = refl; no_events = refl }

one_revocation : Runs system true (codes "ab") world ended
one_revocation = revoke none_yet callbacks (request token) some_day (λ _. refl) refl

Runs-Lawful_example : Lawful true laptop (codes "ab") ended
Runs-Lawful_example =
    Runs-Lawful system true (codes "ab") laptop world ended laptop-Begins one_revocation

Runs-Follows_example :
    ((intended some_day laptop).client_id ≡ laptop.client_id)
    × Follows laptop.status (intended some_day laptop).status
Runs-Follows_example =
    Runs-Follows system true (codes "ab") laptop world ended
      (saved (revoked_at system.sha256_hex some_day guess (intended some_day laptop))
        ∷ verified (codes "ab") [] true
        ∷ terminated (codes "ab") [] true
        ∷ removed (codes "key") true
        ∷ [])
      [] (intended some_day laptop) laptop-Begins one_revocation events

Runs-removed_example :
    (is_ending (intended some_day laptop).status ≡ true)
    × ((codes "key" ≡ (intended some_day laptop).public_key)
        ⊎ (codes "key" ≡ (intended some_day laptop).pending_public_key))
Runs-removed_example =
    Runs-removed system true (codes "ab") laptop world ended
      (saved (revoked_at system.sha256_hex some_day guess (intended some_day laptop))
        ∷ verified (codes "ab") [] true
        ∷ terminated (codes "ab") [] true
        ∷ [])
      (saved (intended some_day laptop) ∷ []) (codes "key") true laptop-Begins one_revocation events

guess-IsStranger : IsStranger system.sha256_hex laptop (request guess)
unfolding constant_time_digest_equal hash_management_token equal trim_space
guess-IsStranger = record { not_current = refl; not_previous = refl }

laptop_in_file : world.files (codes "ab") ≡ some laptop
unfolding equal
laptop_in_file = refl

stranger_refused_example :
    Untouched world (authenticate_management system (request guess) world)
    × Untouched world (revoke_client system callbacks (request guess) some_day world)
    × Untouched world (
        rotate_client_public_key system
          (some (λ old new h. (h, none)))
          (request guess)
          (codes "key")
          some_day
          world)
stranger_refused_example =
    stranger_refused system world laptop (request guess) laptop_in_file guess-IsStranger callbacks
      (some (λ old new h. (h, none))) (codes "key") some_day
