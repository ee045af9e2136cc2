-- ===== src/Invitation/Use.antt =====
-- What ends an invitation: Consume, Cancel, Revoke, List and UnusedIssuedForGeneration of
-- internal/enrollment/invite.go.
use warptweet.Prelude.{
  ℕ, Bool, true, false, not, ◌||◌, List, [], ◌∷◌, Bytes, ◌==◌, if◌then◌else◌, Option, none, some,
}
use warptweet.Grant.Time.{Time, before}
use warptweet.Enrollment.Texts.{is_hex_id}
use warptweet.Locator.Host.{first_is}
use warptweet.Invitation.Invite.{
  Record, InviteStatus, consumed, cancelled, revoked, expired, is_issued,
}
use warptweet.Invitation.Store.{
  InviteSystem, invite_expired, bad_expires_at, status_is, Action, pure, raise, ◌>>=◌, ◌>>◌,
  raise_if, ignore, write_record, lock_invite, time_or_now, load,
}

abbrev pub is_cancelled : InviteStatus → Bool
is_cancelled cancelled = true
is_cancelled _ = false

abbrev pub is_revoked : InviteStatus → Bool
is_revoked revoked = true
is_revoked _ = false

abbrev pub is_consumed : InviteStatus → Bool
is_consumed consumed = true
is_consumed _ = false

abbrev pub or_time : Option Time → Option Time → Option Time
or_time (some t) other = some t
or_time none other = other

abbrev pub is_due : Time → Option Time → Bool
is_due now none = true
is_due now (some expires) = not (before now expires)

abbrev pub consumed_by : Bytes → Time → Record → Record
consumed_by client_id now loaded = record loaded {
  status = consumed;
  consumed_at = some now;
  client_id = client_id;
}

abbrev pub keep_if : Bool → Record → List Record → List Record
keep_if true loaded rest = loaded ∷ rest
keep_if false loaded rest = rest

module _ {H E : Type 0} where
  abbrev pub require_time : Option Time → Action H E Time
  require_time none = raise bad_expires_at
  require_time (some t) = pure t

module _ {H E : Type 0} (system : InviteSystem H E) where
  -- `InviteExpiry`
  unfoldable pub invite_expiry : Record → Option Time
  invite_expiry loaded =
      or_time (system.parse_nano loaded.invite.expires_at)
        (system.parse_rfc3339 loaded.invite.expires_at)

  -- `InviteExpired`, at a time that is not zero
  unfoldable pub invite_expired_at : Record → Time → Bool
  invite_expired_at loaded now = is_due now (invite_expiry loaded)

  -- `record.Status = StatusExpired`, the write, and the refusal
  unfoldable pub expire_record : {A : Type 0} → Bytes → Record → Action H E A
  expire_record id loaded = do
    ignore (write_record system id (record loaded { status = expired }))
    raise invite_expired

  unfoldable pub finish_consume : Bytes → Bytes → Time → Record → Action H E Record
  finish_consume id client_id now loaded = do
    write_record system id (consumed_by client_id now loaded)
    pure (consumed_by client_id now loaded)

  -- `Consume`
  unfoldable pub consume : Bytes → Bytes → Time → Action H E Record
  consume id client_id given = do
    loaded ← load system id
    raise_if (not (is_issued loaded.status)) (status_is loaded.status)
    now ← time_or_now system given
    expires ← require_time (system.parse_nano loaded.invite.expires_at)
    if not (before now expires)
        then expire_record id loaded
        else finish_consume id client_id now loaded

  unfoldable pub write_cancelled : Bytes → Time → Record → Action H E Record
  write_cancelled id given loaded = do
    raise_if (is_consumed loaded.status || is_revoked loaded.status) (status_is loaded.status)
    now ← time_or_now system given
    write_record system id (record loaded { status = cancelled; revoked_at = some now })
    pure (record loaded { status = cancelled; revoked_at = some now })

  -- `Cancel`
  unfoldable pub cancel : Bytes → Time → Action H E Record
  cancel id now = do
    lock_invite system id
    loaded ← load system id
    if is_cancelled loaded.status then pure loaded else write_cancelled id now loaded

  unfoldable pub write_revoked : Bytes → Time → Record → Action H E Record
  write_revoked id given loaded = do
    raise_if (is_issued loaded.status || is_cancelled loaded.status) (status_is loaded.status)
    now ← time_or_now system given
    write_record system id (record loaded { status = revoked; revoked_at = some now })
    pure (record loaded { status = revoked; revoked_at = some now })

  -- `Revoke` behind its `Load`
  unfoldable pub revoke_loaded : Bytes → Time → Record → Action H E Record
  revoke_loaded id now loaded =
      if is_revoked loaded.status then pure loaded else write_revoked id now loaded

  -- `Revoke`, which takes no lock
  unfoldable pub revoke : Bytes → Time → Action H E Record
  revoke id now = do loaded ← load system id; revoke_loaded id now loaded

  -- `List`, of the names of the directories
  unfoldable pub list_invites : List Bytes → Action H E (List Record)
  list_invites [] = pure []
  list_invites (name ∷ names) =
      let rest = list_invites names in
      if first_is b'.' name || not (is_hex_id name)
      then rest
      else (do loaded ← load system name; records ← rest; pure (loaded ∷ records))

  -- One turn of UnusedIssuedForGeneration: whether the record is an unused invitation.
  unfoldable pub unused_turn : ℕ → Time → Record → Action H E Bool
  unused_turn generation now loaded =
      if not (is_issued loaded.status)
        || not (loaded.invite.published_endpoint_generation == generation)
      then pure false
      else if invite_expired_at loaded now
      then (ignore
            (write_record system loaded.invite.invite_id (record loaded { status = expired }))
          >> pure false)
      else pure true

  unfoldable pub unused_loop : ℕ → Time → List Record → Action H E (List Record)
  unused_loop generation now [] = pure []
  unused_loop generation now (loaded ∷ records) = do
    unused ← unused_turn generation now loaded
    rest ← unused_loop generation now records
    pure (keep_if unused loaded rest)

  -- `UnusedIssuedForGeneration`, which takes no lock
  unfoldable pub unused_issued_for_generation : List Bytes → ℕ → Time → Action H E (List Record)
  unused_issued_for_generation names generation given = do
    now ← time_or_now system given
    records ← list_invites names
    unused_loop generation now records
