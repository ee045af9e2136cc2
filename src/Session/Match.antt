-- ===== src/Session/Match.antt =====
-- The grant that a key belongs to: `matchingGrant` of internal/grantsession/authority.go.
-- A client's key comes with the digest that `KeyBlobDigest` gives for it, if it gives one.
use warptweet.Prelude.{
  Bool, true, false, List, [], ◌∷◌, Option, none, some, Bytes, equal, Result, ok, err, ◌>>=◌, ◌>>◌,
  reject, not,
}
use warptweet.Grant.Status.{Status, active, rotation_pending}
use warptweet.Grant.Time.{Time, Stamp, DurationError, parse_utc}
use warptweet.Grant.Expire.{ready_to_expire}

-- Of `enrollment.ClientRecord` the fields that the function reads, and the grant's id.
-- `AuthorizationNotAfter == ""` is none.
pub record ClientRecord : Type 0 where
  pub grant_id : Bytes
  pub key_digest : Option Bytes
  pub status : Status
  pub authorization_not_after : Option Stamp

pub data MatchError : Type 0 where
  status_is : Status → MatchError
  missing_expiry grant_expired no_active_grant several_grants : MatchError

-- `err != nil || digest != keyBlobSHA256`, negated
unfoldable pub has_digest : Bytes → Option Bytes → Bool
has_digest wanted none = false
has_digest wanted (some digest) = equal digest wanted

-- the `switch` on the status
unfoldable pub is_live : Status → Bool
is_live active = true
is_live rotation_pending = true
is_live _ = false

-- `err != nil || grant.ReadyToExpire(notAfter, now)`
unfoldable pub is_over : Time → Result DurationError Time → Bool
is_over now (err _) = true
is_over now (ok not_after) = ready_to_expire not_after now

unfoldable pub check_expiry : Time → Option Stamp → Result MatchError (Unit {0})
check_expiry now none = err missing_expiry
check_expiry now (some stamp) = reject (is_over now (parse_utc stamp)) grant_expired

unfoldable pub check_grant : Time → ClientRecord → Result MatchError (Unit {0})
check_grant now client = do
  reject (not (is_live client.status)) (status_is client.status)
  check_expiry now client.authorization_not_after

-- one turn of the loop: the matches of the others go behind this one, if it is one
abbrev pub add_match :
    Time
    → ClientRecord
    → Bool
    → Result MatchError (List ClientRecord)
    → Result MatchError (List ClientRecord)
add_match now client false rest = rest
add_match now client true rest = do check_grant now client; matches ← rest; ok (client ∷ matches)

-- the loop
unfoldable pub matches_of : Time → Bytes → List ClientRecord → Result MatchError (List ClientRecord)
matches_of now wanted [] = ok []
matches_of now wanted (r ∷ rs) =
    add_match now r (has_digest wanted r.key_digest) (matches_of now wanted rs)

abbrev pub only_match : List ClientRecord → Result MatchError ClientRecord
only_match [] = err no_active_grant
only_match (r ∷ []) = ok r
only_match (_ ∷ _ ∷ _) = err several_grants

-- `matchingGrant`, of the clients that are listed
unfoldable pub matching_grant : Time → Bytes → List ClientRecord → Result MatchError ClientRecord
matching_grant now wanted clients = matches_of now wanted clients >>= only_match
