-- ===== src/Enrollment/Lawful.antt =====
-- The order of what the operations on a client do: internal/enrollment/clients.go.
pub mod Steps
pub mod Ending
pub mod Revoking
pub mod Revocations
pub mod Rotating
pub mod Expiring
pub mod Expiries
pub mod Order
pub mod Clients
use warptweet.Prelude.{
  Bool, true, false, not, ◌||◌, ◌&&◌, List, [], ◌∷◌, Bytes, equal, equal_refl, if◌then◌else◌,
  Option, none, some, Result, ok, err, reject, ◌≡◌, refl, ap, sym, ◌∙◌, arith,
}
use warptweet.Grant.Status.{
  Status, same, can_transition, terminal, active, expiration_pending, rotation_pending, revoked,
}
use warptweet.Grant.Status.Paths.{is_ending}
use warptweet.Grant.Time.{Time}
use warptweet.Enrollment.Client.{ClientRecord, ClientError}
use warptweet.Enrollment.Store.{
  Event, saved, removed, replaced, terminated, verified, Written, written, unwritten, unsynced,
  World, System, Callbacks, Action, pure, lift, and_then, ◌>>=◌, ◌>>◌, raise_if, call, required,
  put, write_client_atomic, lock_client, load_client, burn, time_or_now,
}
use warptweet.Enrollment.Texts.{is_hex_id}

-- What the events leave: the record in the file, whether its key has been removed since that was
-- written, and whether its sessions were seen to be gone after that.
pub record Tracked : Type 0 where
  pub stored : ClientRecord
  pub removed_key : Bool
  pub gone : Bool

-- `revoked` over an expiry that is under way, which RevokeClient writes straight and
-- `CanTransition` refuses.
abbrev pub over_expiry : Status → Status → Bool
over_expiry s t = same s expiration_pending && same t revoked

-- The rule for a write, which is a specification and no code. A status is replaced along the
-- grant's state machine, with the exception of `revoked` over an expiry that is under way. It ends
-- only when the key has been removed and, where the host asks for it, the sessions are gone.
unfoldable pub may_save : Bool → Tracked → ClientRecord → Bool
may_save asks t client =
    equal client.client_id t.stored.client_id
    && (can_transition t.stored.status client.status || over_expiry t.stored.status client.status)
    && (not (terminal client.status) || (t.removed_key && (not asks || t.gone)))

-- A key is removed only while the client is being ended, or has ended.
unfoldable pub may_remove : ClientRecord → Bytes → Bool
may_remove client key =
    is_ending client.status && (equal key client.public_key || equal key client.pending_public_key)

-- A key is replaced only by the one that the file holds as pending, or, after that, again.
unfoldable pub may_replace : ClientRecord → Bytes → Bytes → Bool
may_replace client old new =
    (same client.status rotation_pending
      && equal old client.public_key
      && equal client.pending_public_key new)
    || (same client.status active
        && equal old client.previous_public_key
        && equal client.public_key new)

unfoldable pub may_end : ClientRecord → Bytes → Bool
may_end client id = is_ending client.status && equal id client.client_id

-- none is an event out of order
unfoldable pub effect_on : Bool → Event → Tracked → Option Tracked
effect_on asks (saved client) t =
    if may_save asks t client
    then some (record { stored = client; removed_key = false; gone = false })
    else none
effect_on asks (removed key done) t =
    if may_remove t.stored key
    then some (record t { removed_key = t.removed_key || (done && equal key t.stored.public_key) })
    else none
effect_on asks (replaced old new done) t = if may_replace t.stored old new then some t else none
effect_on asks (terminated id digest done) t = if may_end t.stored id then some t else none
effect_on asks (verified id digest done) t =
    if may_end t.stored id
    then some (record t { gone = t.gone || (t.removed_key && done) })
    else none

abbrev pub go_on : (Tracked → Option Tracked) → Option Tracked → Option Tracked
go_on next none = none
go_on next (some t) = next t

-- The events from a record on, latest first.
unfoldable pub track : Bool → ClientRecord → List Event → Option Tracked
track asks start [] = some (record { stored = start; removed_key = false; gone = false })
track asks start (event ∷ log) = go_on (effect_on asks event) (track asks start log)

module _ {H : Type 0} (asks : Bool) (start : ClientRecord) (id : Bytes) where
  -- The file holds the record that the events, all of them in order, have left.
  pub record At (client : ClientRecord) (removed_key gone : Bool) (w : World H) : Type 0 where
    pub in_file : w.files id ≡ some client
    pub in_place : client.client_id ≡ id
    pub tracked :
        track asks start w.log
        ≡ some (record { stored = client; removed_key = removed_key; gone = gone })

  abbrev pub Holds : ClientRecord → World H → Type 0
  Holds client w = (r : Bool) × (g : Bool) × At client r g w

  abbrev pub Lawful : World H → Type 0
  Lawful w = (client : ClientRecord) × Holds client w

module _ {H E : Type 0} (asks : Bool) (start : ClientRecord) (id : Bytes) {A : Type 0} where
  -- What an action leaves: `Q` of its result, or an error in a lawful world.
  abbrev pub Post : (A → World H → Type 0) → World H × Result (ClientError E) A → Type 0
  Post Q (w, ok a) = Q a w
  Post Q (w, err e) = Lawful asks start id w

  pub record From (c : ClientRecord) (r g : Bool) (m : Action H E A) (Q : A → World H → Type 0)
      : Type 0 where
    pub run : (w : World H) → At asks start id c r g w → Post Q (m w)
