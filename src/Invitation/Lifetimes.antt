-- ===== src/Invitation/Lifetimes.antt =====
-- What Create of internal/enrollment/invite.go gives.
use warptweet.Prelude.{
  ℕ, ◌≤◌, ◌<◌, ℤ, pos, negsuc, le_int, true, Bytes, if◌then◌else◌, ok, ◌≡◌, arith,
}
use warptweet.Grant.Time.{Time, add, is_zero}
use warptweet.Grant.Duration.{positive_part}
use warptweet.Grant.Policy.{resolve_duration}
use warptweet.Locator.Host.{Net}
use warptweet.Invitation.Invite.{Invite, Record, new_record, validate_invite_shape}
use warptweet.Invitation.Create.{
  CreateInput, default_ttl, ttl_or_default, policy_of, validate_create_input, create,
}

-- An invitation that is made from checked input, with a lifetime.
pub record IsMade (net : Net) (format : Time → Bytes) (now : Time) (input : CreateInput)
    (invite : Invite) (new : Record) : Type 0 where
  pub as_new : new ≡ new_record invite
  pub checked : validate_create_input net input ≡ ok tt
  pub shaped : validate_invite_shape net invite ≡ ok tt
  pub allowed :
      resolve_duration
        (policy_of input.maximum_authorization_duration_seconds)
        input.authorization_duration_seconds
      ≡ ok invite.authorization_duration_seconds
  pub lifetime : ℕ
  pub lasts : 0 < lifetime
  pub in_bounds : lifetime ≤ default_ttl
  pub issued : invite.issued_at ≡ format now
  pub expires : invite.expires_at ≡ format (add now lifetime)

ttl_bounds :
    (ttl : ℤ)
    → le_int (ttl_or_default ttl) (pos default_ttl) ≡ true
    → (0 < positive_part (ttl_or_default ttl)) × (positive_part (ttl_or_default ttl) ≤ default_ttl)
ttl_bounds (pos n) h = ground arith
ttl_bounds (negsuc n) h = ground arith

-- Create succeeds only on checked input. The record is new, the invitation has the required shape and
-- the duration that the policy resolves, and it expires after more than nothing and at most 15
-- minutes from its issue, at the time that was given or the clock's.
pub create-IsMade :
    (net : Net) (format : Time → Bytes) (clock : Time) (nonce id : Bytes) (input : CreateInput)
    (invite : Invite) (new : Record)
    → create net format clock nonce id input ≡ ok (invite, new)
    → IsMade net format (if is_zero input.now then clock else input.now) input invite new
unfolding create
create-IsMade net format clock nonce id input invite new e =
    let (lasts, in_bounds) = ttl_bounds input.ttl (ground arith) in
    record {
      as_new = ground arith;
      checked = ground arith;
      shaped = ground arith;
      allowed = ground arith;
      lifetime = positive_part (ttl_or_default input.ttl);
      lasts = lasts;
      in_bounds = in_bounds;
      issued = ground arith;
      expires = ground arith;
    }
