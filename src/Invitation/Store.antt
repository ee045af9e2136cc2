-- ===== src/Invitation/Store.antt =====
-- The directory of invitations: internal/enrollment/invite.go. A registry is the records of the
-- invitations, the world of the clients' records, and the keys that were installed, which are only
-- for the theorems. An action changes a registry; what it has changed stays when it fails.
use warptweet.Prelude.{
  Bool, not, List, Bytes, equal, if◌then◌else◌, Option, none, some, Result, ok, err, reject,
}
use warptweet.Grant.Time.{Time, is_zero, DurationError}
use warptweet.Locator.Host.{Net}
use warptweet.Locator.Endpoint.{EndpointError}
use warptweet.Enrollment.Texts.{is_hex_id, KeyLineError}
use warptweet.Enrollment.Client.{ClientError}
use warptweet.Enrollment.Store.{Written, written, unwritten, unsynced, World, System}
use warptweet.Enrollment.Store
use warptweet.Invitation.Invite.{
  Invite, Record, InviteStatus, ShapeError, canonicalize_stored_invite,
}

pub record Registry (H : Type 0) : Type 0 where
  pub invites : Bytes → Option Record
  pub world : World H
  pub installs : List (Bytes × Time)

-- What an invitation's operations use of the operating system and Go's library.
pub record InviteSystem (H E : Type 0) : Type 0 where
  pub clients : System H E
  pub net : Net
  pub parse_nano : Bytes → Option Time
  pub parse_rfc3339 : Bytes → Option Time
  pub format_nano : Time → Bytes
  pub lock_invite : Bytes → H → H × Option E
  pub write_record : Bytes → Record → H → H × Written E

pub data InviteError (E : Type 0) : Type 0 where
  bad_invite_id no_record already_exists invite_expired bad_expires_at : InviteError E
  no_directory missing_fields bad_nonce bad_client_name bad_listen bad_management_token :
      InviteError E
  bad_host_key no_principal unsupported_profile no_target : InviteError E
  unknown_invite set_mismatch nonce_mismatch name_mismatch profile_mismatch : InviteError E
  principal_mismatch target_mismatch host_key_mismatch no_installer no_duration : InviteError E
  already_consumed no_client_state retry_mismatch conflicting_client : InviteError E
  status_is : InviteStatus → InviteError E
  bad_record : ShapeError → InviteError E
  bad_set : EndpointError → InviteError E
  bad_key_line : KeyLineError → InviteError E
  bad_not_after : DurationError → InviteError E
  client_failed : ClientError E → InviteError E
  outside : E → InviteError E

module _ (H E : Type 0) where
  abbrev pub Action : Type 0 → Type 0
  Action A = Registry H → Registry H × Result (InviteError E) A

-- The records after one is written under an id.
abbrev pub update : Bytes → Record → (Bytes → Option Record) → Bytes → Option Record
update id new invites i = if equal i id then some new else invites i

module _ {H E : Type 0} where
  module _ {A : Type 0} where
    unfoldable pub pure : A → Action H E A
    pure a reg = (reg, ok a)

    unfoldable pub raise : InviteError E → Action H E A
    raise e reg = (reg, err e)

    unfoldable pub lift : Result (InviteError E) A → Action H E A
    lift r reg = (reg, r)

    abbrev pub and_then :
        {B : Type 0}
        → Registry H × Result (InviteError E) A
        → (A → Action H E B)
        → Registry H × Result (InviteError E) B
    and_then (reg, ok a) f = f a reg
    and_then (reg, err e) f = (reg, err e)

infixl 5 ◌>>=◌ ◌>>◌
unfoldable pub ◌>>=◌ : {H E A B : Type 0} → Action H E A → (A → Action H E B) → Action H E B
◌>>=◌ m f reg = and_then (m reg) f

unfoldable pub ◌>>◌ : {H E B : Type 0} → Action H E (Unit {0}) → Action H E B → Action H E B
m >> k = m >>= λ _. k

module _ {H : Type 0} where
  abbrev pub with_host : Registry H → H → Registry H
  with_host reg h = record reg { world = record (reg.world) { host = h } }

  abbrev pub put : Bytes → Record → Registry H → Registry H
  put id new reg = record reg { invites = update id new reg.invites }

-- an error with another in it
abbrev pub wrapped {ℓ κ} :
    {E : Type 0} {X : Type ℓ} {A : Type κ}
    → (X → InviteError E)
    → Result X A
    → Result (InviteError E) A
wrapped wrap (ok a) = ok a
wrapped wrap (err e) = err (wrap e)

module _ {H E : Type 0} where
  unfoldable pub raise_if : Bool → InviteError E → Action H E (Unit {0})
  raise_if b e = lift (reject b e)

  abbrev pub ended :
      {A : Type 0}
      → Registry H
      → World H × Result (ClientError E) A
      → Registry H × Result (InviteError E) A
  ended reg (w, r) = (record reg { world = w }, wrapped client_failed r)

  -- an action on the clients' records
  unfoldable pub on_clients : {A : Type 0} → Store.Action H E A → Action H E A
  on_clients m reg = ended reg (m reg.world)

  abbrev pub recovered :
      {A : Type 0}
      → Result (InviteError E) A
      → Action H E A
      → Registry H
      → Registry H × Result (InviteError E) A
  recovered (ok a) m reg = (reg, ok a)
  recovered (err e) m reg = m reg

  -- the other action, if the first fails
  unfoldable pub or_else : {A : Type 0} → Action H E A → Action H E A → Action H E A
  or_else m m' reg = recovered (m reg).1 m' (m reg).0

  -- `_ = f(...)`
  unfoldable pub ignore : Action H E (Unit {0}) → Action H E (Unit {0})
  ignore m reg = ((m reg).0, ok tt)

  abbrev pub finish_write :
      Bytes → Record → Registry H → H × Written E → Registry H × Result (InviteError E) (Unit {0})
  finish_write id new reg (h, written) = (put id new (with_host reg h), ok tt)
  finish_write id new reg (h, unsynced e) = (put id new (with_host reg h), err (outside e))
  finish_write id new reg (h, unwritten e) = (with_host reg h, err (outside e))

  module _ (system : InviteSystem H E) where
    -- `writeJSONAtomic` of the record of an invitation
    unfoldable pub write_record : Bytes → Record → Action H E (Unit {0})
    write_record id new reg = finish_write id new reg (system.write_record id new reg.world.host)

    abbrev pub locked : Registry H → H × Option E → Registry H × Result (InviteError E) (Unit {0})
    locked reg (h, none) = (with_host reg h, ok tt)
    locked reg (h, some e) = (with_host reg h, err (outside e))

    -- `lockInvite`; the lock is held to the end of the operation
    unfoldable pub lock_invite : Bytes → Action H E (Unit {0})
    lock_invite id reg = locked reg (system.lock_invite id reg.world.host)

    -- `if now.IsZero() { now = time.Now().UTC() }`
    unfoldable pub time_or_now : Time → Action H E Time
    time_or_now now reg =
        (reg, ok (if is_zero now then system.clients.clock reg.world.host else now))

    abbrev pub canonical_record : Record → Result ShapeError Invite → Result (InviteError E) Record
    canonical_record stored (ok invite) = ok (record stored { invite = invite })
    canonical_record stored (err e) = err (bad_record e)

    abbrev pub read : Option Record → Result (InviteError E) Record
    read none = err no_record
    read (some stored) =
        canonical_record stored (canonicalize_stored_invite system.net stored.invite)

    -- `Load`
    unfoldable pub load : Bytes → Action H E Record
    load id reg = (reg, if not (is_hex_id id) then err bad_invite_id else read (reg.invites id))

    -- The directory of an invitation exists exactly when its record does: one without a record is
    -- not modelled.
    abbrev pub absent : Option Record → Result (InviteError E) (Unit {0})
    absent none = ok tt
    absent (some _) = err already_exists

    -- `Store` and `storeIssuedAtomic`, whose directory takes its name at the end
    unfoldable pub store : Record → Action H E (Unit {0})
    store new = do
      raise_if (not (is_hex_id new.invite.invite_id)) bad_invite_id
      (λ reg. (reg, absent (reg.invites new.invite.invite_id)))
      write_record new.invite.invite_id new
