-- ===== src/Session/Tests.antt =====
-- Concrete runs, and the theorems at concrete inputs.
use warptweet.Prelude.{Bytes, ◌+◌, ◌*◌, ◌≡◌, refl, [], ◌∷◌, none, some, ok, err, codes, equal}
use warptweet.Grant.Status.{active, revoked}
use warptweet.Grant.Time.{Time, utc, second, zero_time, parse_utc}
use warptweet.Grant.Expire.{ready_to_expire}
use warptweet.Session.Match.{
  ClientRecord, has_digest, is_live, is_over, check_expiry, check_grant, matches_of, matching_grant,
  several_grants,
}
use warptweet.Session.Fields.{split_fields, scan, scan_byte, finish, unterminated}
use warptweet.Session.Fields.Kept.{line_of, whole, split_fields-line_of}
use warptweet.Session.Sole.{Sole, here, there, Live, matching_grant-Sole, matching_grant-finds}

abbrev now : Time
now = zero_time + 1000 * second

abbrev alice : ClientRecord
alice = record {
  grant_id = codes "a";
  key_digest = some (codes "aa");
  status = active;
  authorization_not_after = some (utc (now + second));
}

-- a client whose grant is revoked, with another key
abbrev bob : ClientRecord
bob = record {
  grant_id = codes "b";
  key_digest = some (codes "bb");
  status = revoked;
  authorization_not_after = none;
}

alice_matches : matching_grant now (codes "aa") (bob ∷ alice ∷ []) ≡ ok alice
unfolding matching_grant matches_of has_digest check_grant is_live check_expiry is_over parse_utc
    ready_to_expire equal
alice_matches = refl

two_alices : matching_grant now (codes "aa") (alice ∷ alice ∷ []) ≡ err several_grants
unfolding matching_grant matches_of has_digest check_grant is_live check_expiry is_over parse_utc
    ready_to_expire equal
two_alices = refl

alice-Sole : Sole (codes "aa") alice (bob ∷ alice ∷ [])
unfolding has_digest equal
alice-Sole = there bob (alice ∷ []) refl (here [] refl tt)

alice-Live : Live now alice
unfolding is_live parse_utc ready_to_expire
alice-Live = record {
  stamp = utc (now + second);
  not_after = now + second;
  status_live = refl;
  has_stamp = refl;
  stamp_parses = refl;
  not_due = refl;
}

matching_grant-Sole_example : Sole (codes "aa") alice (bob ∷ alice ∷ []) × Live now alice
matching_grant-Sole_example =
    matching_grant-Sole now (codes "aa") (bob ∷ alice ∷ []) alice alice_matches

matching_grant-finds_example : matching_grant now (codes "aa") (bob ∷ alice ∷ []) ≡ ok alice
matching_grant-finds_example =
    matching_grant-finds now (codes "aa") (bob ∷ alice ∷ []) alice alice-Sole alice-Live

abbrev quoted_option : Bytes
quoted_option = codes "a=\"b c\""

split_fields-line_of_example :
    split_fields (line_of (quoted_option ∷ codes "ssh-rsa" ∷ []))
    ≡ ok (quoted_option ∷ codes "ssh-rsa" ∷ [])
unfolding whole
split_fields-line_of_example =
    split_fields-line_of (quoted_option ∷ codes "ssh-rsa" ∷ [])
      (((λ e. cc), refl), (((λ e. cc), refl), tt))

split_open : split_fields (codes "a \"b") ≡ err unterminated
unfolding split_fields scan scan_byte finish
split_open = refl
