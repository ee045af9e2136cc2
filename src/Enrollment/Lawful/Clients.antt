-- ===== src/Enrollment/Lawful/Clients.antt =====
-- Any number of operations on a client, whatever the host does with their calls:
-- internal/enrollment/clients.go.
use warptweet.Prelude.{
  Bool, true, false, List, [], ◌∷◌, ◌++◌, Bytes, Option, some, Result, ok, err, ◌≡◌, ap, sym, ◌∙◌,
  ◌⊎◌,
}
use warptweet.Grant.Status.Paths.{is_ending}
use warptweet.Grant.Time.{Time}
use warptweet.Enrollment.Client.{ClientRecord, ManagementRequest, ClientError}
use warptweet.Enrollment.Store.{Event, saved, removed, World, System, Callbacks, Action}
use warptweet.Enrollment.Revoke.{revoke_client, revoke_client_as_host, complete_pending_revocation}
use warptweet.Enrollment.Rotate.{rotate_client_public_key}
use warptweet.Enrollment.Expire.{Expiry, expire_client}
use warptweet.Enrollment.Lawful.{track, Holds, Lawful, Post, From}
use warptweet.Enrollment.Lawful.Ending.{is_given}
use warptweet.Enrollment.Lawful.Revocations.{
  from_revoke_client, from_revoke_client_as_host, from_complete_pending_revocation,
}
use warptweet.Enrollment.Lawful.Rotating.{from_rotate_client_public_key}
use warptweet.Enrollment.Lawful.Expiries.{from_expire_client}
use warptweet.Enrollment.Lawful.Order.{
  last_saved, track-suffix, Follows, saved-Follows, removed-in_order,
}

-- The operations on one client, one after the other, each with any arguments and callbacks. If
-- the host asks for the sessions, every revocation is given the look for them.
module _ {H E : Type 0} (system : System H E) (asks : Bool) (id : Bytes) where
  pub data Runs (w : World H) : World H → Type 0 where
    none_yet : Runs w w
    revoke :
        {v : World H}
        → Runs w v
        → (callbacks : Callbacks H E) (request : ManagementRequest) (now : Time)
        → (asks ≡ true → is_given callbacks.verify ≡ true)
        → request.client_id ≡ id
        → Runs w (revoke_client system callbacks request now v).0
    revoke_as_host :
        {v : World H}
        → Runs w v
        → (callbacks : Callbacks H E) (now : Time)
        → (asks ≡ true → is_given callbacks.verify ≡ true)
        → Runs w (revoke_client_as_host system callbacks id now v).0
    complete :
        {v : World H}
        → Runs w v
        → (callbacks : Callbacks H E) (now : Time)
        → (asks ≡ true → is_given callbacks.verify ≡ true)
        → Runs w (complete_pending_revocation system callbacks id now v).0
    rotate :
        {v : World H}
        → Runs w v
        → (replace : Option (Bytes → Bytes → H → H × Option E)) (request : ManagementRequest)
          (public_key : Bytes) (now : Time)
        → request.client_id ≡ id
        → Runs w (rotate_client_public_key system replace request public_key now v).0
    expire :
        {v : World H}
        → Runs w v
        → (ops : Expiry H E) (now : Time) → Runs w (expire_client system ops id now v).0

-- The file holds the record `first` of the client, and nothing has happened yet.
pub record Begins {H : Type 0} (id : Bytes) (first : ClientRecord) (w : World H) : Type 0 where
  pub in_file : w.files id ≡ some first
  pub in_place : first.client_id ≡ id
  pub no_events : w.log ≡ []

module _ {H E : Type 0} (system : System H E) (asks : Bool) (id : Bytes)
    (first : ClientRecord) where
  Begins-Lawful : (w : World H) → Begins id first w → Lawful asks first id w
  unfolding track
  Begins-Lawful w b = (
    first,
    (
      false,
      false,
      record {
        in_file = b.in_file;
        in_place = b.in_place;
        tracked = ap (track asks first) b.no_events;
      },
    ),
  )

  after :
      (m : Action H E ClientRecord) (w : World H)
      → Lawful asks first id w
      → ((c : ClientRecord) (r g : Bool) → From asks first id c r g m (Holds asks first id))
      → Lawful asks first id (m w).0
  after m w (c, (r, g, at)) from = outcome (m w) ((from c r g).run w at)
    where
      outcome :
          (x : World H × Result (ClientError E) ClientRecord)
          → Post asks first id (Holds asks first id) x
          → Lawful asks first id x.0
      outcome (w, ok c) holds = (c, holds)
      outcome (w, err e) lawful = lawful

  -- After any number of operations on a client, whether they succeed, fail or are cut off by a
  -- call that fails, the file holds the record of the client that the events left, and all that was
  -- done so far was done in order: each write kept the client's id and replaced the status as
  -- CanTransition allows, with the exception of `revoked` written straight over
  -- `expiration_pending`, which CanTransition refuses; a terminal status was written only after the
  -- key was removed and, where the host asks for it, the sessions were seen to be gone; a key was
  -- removed, and a session ended, only while the client was being ended or had ended; and a key was
  -- replaced only by the one that the file held as pending, or again by the file's own.
  pub Runs-Lawful :
      (w v : World H) → Begins id first w → Runs system asks id w v → Lawful asks first id v
  Runs-Lawful w v begins none_yet = Begins-Lawful w begins
  Runs-Lawful w v begins (revoke {v = u} runs callbacks request now given same_id) =
      after (revoke_client system callbacks request now) u (Runs-Lawful w u begins runs)
        (λ c r g. from_revoke_client system callbacks given request now r g same_id)
  Runs-Lawful w v begins (revoke_as_host {v = u} runs callbacks now given) =
      after (revoke_client_as_host system callbacks id now) u (Runs-Lawful w u begins runs)
        (λ c r g. from_revoke_client_as_host system callbacks given now r g)
  Runs-Lawful w v begins (complete {v = u} runs callbacks now given) =
      after (complete_pending_revocation system callbacks id now) u (Runs-Lawful w u begins runs)
        (λ c r g. from_complete_pending_revocation system callbacks given now r g)
  Runs-Lawful w v begins (rotate {v = u} runs replace request public_key now same_id) =
      after (rotate_client_public_key system replace request public_key now) u
        (Runs-Lawful w u begins runs)
        (λ c r g. from_rotate_client_public_key system replace request public_key now r g same_id)
  Runs-Lawful w v begins (expire {v = u} runs ops now) =
      after (expire_client system ops id now) u (Runs-Lawful w u begins runs)
        (λ c r g. from_expire_client system ops now r g)

  -- Each write of a client's file follows the grant's state machine, with one exception: in any
  -- number of operations on the client, whatever they and the host do, each record that is written
  -- is of the client whose record the file held before, and its status is one that
  -- AuthorizeTransition allows after the status of that record, unless it is `revoked` and is
  -- written over `expiration_pending`, which AuthorizeTransition refuses.
  pub Runs-Follows :
      (w v : World H) (recent log : List Event) (client : ClientRecord)
      → Begins id first w
      → Runs system asks id w v
      → v.log ≡ recent ++ saved client ∷ log
      → (client.client_id ≡ (last_saved first log).client_id)
        × Follows (last_saved first log).status client.status
  Runs-Follows w v recent log client begins runs e =
      let (c, (r, g, at)) = Runs-Lawful w v begins runs in
      let (t, tracked) =
        track-suffix asks first recent (saved client ∷ log) _
          (ap (track asks first) (sym e) ∙ at.tracked) in
      saved-Follows asks first log client t tracked

  -- Whenever an operation asks for the removal of a key, the file holds already that the client
  -- is being ended, or has ended, and the key is that record's key or its pending one.
  pub Runs-removed :
      (w v : World H) (recent log : List Event) (key : Bytes) (done : Bool)
      → Begins id first w
      → Runs system asks id w v
      → v.log ≡ recent ++ removed key done ∷ log
      → (is_ending (last_saved first log).status ≡ true)
        × ((key ≡ (last_saved first log).public_key)
            ⊎ (key ≡ (last_saved first log).pending_public_key))
  Runs-removed w v recent log key done begins runs e =
      let (c, (r, g, at)) = Runs-Lawful w v begins runs in
      let (t, tracked) =
        track-suffix asks first recent (removed key done ∷ log) _
          (ap (track asks first) (sym e) ∙ at.tracked) in
      removed-in_order asks first log key done t tracked
