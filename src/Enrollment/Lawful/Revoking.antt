-- ===== src/Enrollment/Lawful/Revoking.antt =====
-- The revocation of a client, along its events.
use warptweet.Prelude.{
  Bool, true, false, not, ◌||◌, ◌&&◌, [], Bytes, equal, equal_refl, ◌≡◌, refl, arith,
}
use mathlib.Core.Path.{subst}
use warptweet.Grant.Status.{
  Status, same, active, expiration_pending, revocation_pending, revoked, other, can_transition,
  terminal,
}
use warptweet.Grant.Status.Paths.{is_ending}
use warptweet.Grant.Time.{Time}
use warptweet.Enrollment.Client.{ClientRecord}
use warptweet.Enrollment.Store.{World, System, Callbacks, pure, ◌>>◌, when}
use warptweet.Enrollment.Revoke.{
  remove_authorization, enforce, revoked_at, finish_revocation, intended, intend_if, remove_pending,
}
use warptweet.Enrollment.Lawful.{may_save, may_remove, At, Holds, From}
use warptweet.Enrollment.Lawful.Steps.{from_after, from_next, from_write, from_burn, from_pure}
use warptweet.Enrollment.Lawful.Ending.{from_remove, is_given, may_remove-own, Clear, from_enforce}

-- A status from which the client may be reported as revoked.
abbrev pub is_pending : Status → Bool
is_pending s = same s revocation_pending || same s expiration_pending

pub active_can_be_revoked :
    (s : Status) → same s active ≡ true → can_transition s revocation_pending ≡ true
unfolding can_transition
active_can_be_revoked (other a) e = ground arith
active_can_be_revoked _ e = ground arith

-- The tests of the two revocations leave these statuses.
pub revocable-pending :
    (s : Status)
    → (not (same s active) && not (same s revocation_pending) && not (same s expiration_pending))
      ≡ false
    → same s active ≡ false
    → is_pending s ≡ true
unfolding same
revocable-pending (other a) e f = ground arith
revocable-pending _ e f = ground arith

own_removed : (r : Bool) (key : Bytes) → (r || equal key key) ≡ true
own_removed r key = rw (equal_refl key) (ground arith)

may_remove-pending :
    (c : ClientRecord) → is_ending c.status ≡ true → may_remove c c.pending_public_key ≡ true
unfolding may_remove
may_remove-pending c e = rw (e, equal_refl c.pending_public_key) (ground arith)

ended_from_pending :
    (s : Status)
    → is_pending s ≡ true
    → (can_transition s revoked || (same s expiration_pending && same revoked revoked)) ≡ true
unfolding can_transition
ended_from_pending (other a) e = ground arith
ended_from_pending _ e = ground arith

pub ending_pending : (s : Status) → is_pending s ≡ true → is_ending s ≡ true
unfolding same
ending_pending (other a) e = ground arith
ending_pending _ e = ground arith

may_save-intended :
    (asks : Bool) (c : ClientRecord) (r g : Bool) (now : Time)
    → can_transition c.status revocation_pending ≡ true
    → may_save asks (record { stored = c; removed_key = r; gone = g }) (intended now c) ≡ true
unfolding may_save intended terminal
may_save-intended asks c r g now e = rw (equal_refl c.client_id, e) refl

client_id-intended : (c : ClientRecord) (now : Time) → (intended now c).client_id ≡ c.client_id
unfolding intended
client_id-intended c now = refl

is_pending-intended : (c : ClientRecord) (now : Time) → is_pending (intended now c).status ≡ true
unfolding intended same
is_pending-intended c now = refl

may_save-revoked :
    (asks : Bool) (c client : ClientRecord) (g : Bool)
    → client.client_id ≡ c.client_id
    → is_pending c.status ≡ true
    → (not asks || g) ≡ true
    → client.status ≡ revoked
    → may_save asks (record { stored = c; removed_key = true; gone = g }) client ≡ true
unfolding may_save terminal
may_save-revoked asks c client g same_id pending clear e =
    rw (same_id, e, equal_refl c.client_id, ended_from_pending c.status pending, clear) refl

-- The record as it was, if its revocation or expiry is pending already, or with the intent.
abbrev pub Intended : {H : Type 0} → Bool → ClientRecord → Bytes → ClientRecord → World H → Type 0
Intended asks start id p w = (is_pending p.status ≡ true) × Holds asks start id p w

module _ {H E : Type 0} {asks : Bool} {start : ClientRecord} {id : Bytes} (system : System H E)
    {c : ClientRecord} where
  -- `client` is the record in the file, or that without what is pending.
  from_finish :
      (now : Time) (client : ClientRecord) (g : Bool)
      → client.client_id ≡ c.client_id
      → is_pending c.status ≡ true
      → (not asks || g) ≡ true
      → From asks start id c true g (finish_revocation system now client) (Holds asks start id)
  unfolding finish_revocation revoked_at
  from_finish now client g same_id pending clear = from_burn system _ (λ token.
      from_write system (revoked_at system.sha256_hex now token client)
        (may_save-revoked asks c (revoked_at system.sha256_hex now token client) g same_id pending
          clear refl)
        same_id from_pure)

  pub from_intend :
      (b : Bool) (now : Time) (r g : Bool)
      → (b ≡ true → can_transition c.status revocation_pending ≡ true)
      → (b ≡ false → is_pending c.status ≡ true)
      → From asks start id c r g (intend_if system b now c) (Intended asks start id)
  unfolding intend_if pure
  from_intend false now r g can pending = record { run = λ w at. (pending refl, (r, g, at)) }
  from_intend true now r g can pending =
      from_write system (intended now c) (may_save-intended asks c r g now (can refl))
        (client_id-intended c now)
        (record { run = λ w at. (is_pending-intended c now, (false, false, at)) })

module _ {H E : Type 0} {asks : Bool} {start : ClientRecord} {id : Bytes} (system : System H E)
    (callbacks : Callbacks H E) (given : asks ≡ true → is_given callbacks.verify ≡ true)
    {c : ClientRecord} where
  -- What follows once the intent is in the file.
  from_removed :
      (now : Time) (client : ClientRecord) (g : Bool)
      → client.client_id ≡ c.client_id
      → is_pending c.status ≡ true
      → From asks start id c true g
          (enforce callbacks c.client_id [] >> finish_revocation system now client)
          (Holds asks start id)
  from_removed now client g same_id pending =
      from_after _ (Clear asks start id c true)
        (from_enforce callbacks true g given (ending_pending c.status pending))
        (λ w (g', clear, at).
          (from_finish system now client g' same_id pending (clear refl)).run w at)

  pub from_remove_own :
      (r g : Bool)
      → is_ending c.status ≡ true
      → From asks start id c r g
          (remove_authorization callbacks c.public_key)
          (λ _. At asks start id c true g)
  from_remove_own r g e =
      subst
        (λ (b : Bool).
          From asks start id c r g (remove_authorization callbacks c.public_key)
            (λ _. At asks start id c b g))
        (own_removed r c.public_key) (from_remove callbacks c.public_key r g (may_remove-own c e))

  pub from_remove_pending :
      (g : Bool)
      → is_ending c.status ≡ true
      → From asks start id c true g (remove_pending callbacks c) (λ _. At asks start id c true g)
  unfolding remove_pending when pure
  from_remove_pending g e = go _
    where
      go :
          (b : Bool)
          → From asks start id c true g
              (when b (remove_authorization callbacks c.pending_public_key))
              (λ _. At asks start id c true g)
      go true = from_remove callbacks c.pending_public_key true g (may_remove-pending c e)
      go false = record { run = λ w at. at }

  pub from_pending :
      (now : Time) (r g : Bool)
      → is_pending c.status ≡ true
      → From asks start id c r g
          (do
            remove_authorization callbacks c.public_key
            enforce callbacks c.client_id []
            finish_revocation system now c)
          (Holds asks start id)
  from_pending now r g pending =
      from_next (from_remove_own r g (ending_pending c.status pending))
        (from_removed now c g refl pending)

  pub from_pending_as_host :
      (now : Time) (r g : Bool)
      → is_pending c.status ≡ true
      → From asks start id c r g
          (do
            remove_authorization callbacks c.public_key
            remove_pending callbacks c
            enforce callbacks c.client_id []
            finish_revocation system now
                (record c { pending_public_key = []; pending_management_token_sha256 = [] }))
          (Holds asks start id)
  from_pending_as_host now r g pending =
      from_next (from_remove_own r g (ending_pending c.status pending)) (
        from_next (from_remove_pending g (ending_pending c.status pending)) (
          from_removed now
            (record c { pending_public_key = []; pending_management_token_sha256 = [] }) g refl
            pending))
