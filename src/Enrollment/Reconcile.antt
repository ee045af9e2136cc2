-- ===== src/Enrollment/Reconcile.antt =====
-- The list of clients, and what the host finishes for them when it starts:
-- internal/enrollment/clients.go.
use warptweet.Prelude.{
  ℕ, Bool, not, ◌&&◌, List, [], ◌∷◌, ◌++◌, Bytes, codes, equal, if◌then◌else◌, Option, none, some,
  Result, ok, err,
}
use warptweet.Grant.Status.{same, active, expiration_pending, rotation_pending, revocation_pending}
use warptweet.Grant.Time.{Time, Stamp, DurationError, parse_utc}
use warptweet.Grant.Expire.{ready_to_expire}
use warptweet.Enrollment.Texts.{is_hex_id}
use warptweet.Enrollment.Client.{ClientRecord, ClientError, bad_expiry, outside}
use warptweet.Enrollment.Store.{World, System, Callbacks, Action, pure, raise, ◌>>=◌, load_client}
use warptweet.Enrollment.Revoke.{complete_pending_revocation}
use warptweet.Enrollment.Expire.{Expiry, expire_client}

pub record DirEntry : Type 0 where
  pub name : Bytes
  pub is_dir : Bool

-- What `os.ReadDir` finds.
pub data Listing (E : Type 0) : Type 0 where
  missing : Listing E
  unreadable : E → Listing E
  entries : List DirEntry → Listing E

-- `strings.HasSuffix(name, ".json")` and `strings.TrimSuffix(name, ".json")`
abbrev longer : ℕ → Option Bytes → Option Bytes
longer c none = none
longer c (some id) = some (c ∷ id)

abbrev json_id : Bytes → Option Bytes
json_id [] = none
json_id (c ∷ s) =
    let rest = json_id s in if equal (c ∷ s) (codes ".json") then some [] else longer c rest

abbrev hex_only : Option Bytes → Option Bytes
hex_only none = none
hex_only (some id) = if is_hex_id id then some id else none

-- the client that a directory entry is the file of
unfoldable pub id_of : DirEntry → Option Bytes
id_of entry = if entry.is_dir then none else hex_only (json_id entry.name)

module _ {H E : Type 0} where
  -- the loop of `ListClients`
  abbrev load_then : Option Bytes → Action H E (List ClientRecord) → Action H E (List ClientRecord)
  load_then none rest = rest
  load_then (some id) rest = do client ← load_client id; clients ← rest; pure (client ∷ clients)

  unfoldable pub load_all : List DirEntry → Action H E (List ClientRecord)
  load_all [] = pure []
  load_all (entry ∷ more) = load_then (id_of entry) (load_all more)

  -- `ListClients`
  abbrev load_listed : Listing E → Action H E (List ClientRecord)
  load_listed missing = pure []
  load_listed (unreadable e) = raise (outside e)
  load_listed (entries found) = load_all found

  unfoldable pub list_clients : (H → Listing E) → Action H E (List ClientRecord)
  list_clients read_dir w = load_listed (read_dir w.host) w

-- A reconciliation carries the errors, in order, that `errors.Join` joins.
module _ (H E : Type 0) where
  abbrev pub Rounds : Type 0
  Rounds = List (ClientError E) → World H → World H × List (ClientError E)

module _ {H E : Type 0} where
  -- one client, whose error is kept while the others go on
  abbrev collect :
      Rounds H E
      → List (ClientError E)
      → World H × Result (ClientError E) ClientRecord
      → World H × List (ClientError E)
  collect next errs (w, ok _) = next errs w
  collect next errs (w, err e) = next (errs ++ e ∷ []) w

  abbrev listed :
      (List ClientRecord → World H → World H × List (ClientError E))
      → World H × Result (ClientError E) (List ClientRecord)
      → World H × List (ClientError E)
  listed next (w, ok clients) = next clients w
  listed next (w, err e) = (w, e ∷ [])

  -- the loop of `ReconcilePendingRevocations`
  unfoldable pub complete_all : System H E → Callbacks H E → Time → List ClientRecord → Rounds H E
  complete_all system callbacks now [] errs w = (w, errs)
  complete_all system callbacks now (client ∷ clients) errs w =
      let next = complete_all system callbacks now clients in
      if not (same client.status revocation_pending)
      then next errs w
      else collect next errs (complete_pending_revocation system callbacks client.client_id now w)

  -- `ReconcilePendingRevocations`
  unfoldable pub reconcile_pending_revocations :
      System H E → Callbacks H E → (H → Listing E) → Time → World H → World H × List (ClientError E)
  reconcile_pending_revocations system callbacks read_dir now w =
      listed (λ clients. complete_all system callbacks now clients []) (list_clients read_dir w)

  -- `if record.Status != ClientStatusExpirationPending && !grant.ReadyToExpire(notAfter, now)`
  abbrev expire_due :
      System H E
      → (ClientRecord → Expiry H E)
      → Time
      → ClientRecord
      → Result DurationError Time
      → Rounds H E
      → Rounds H E
  expire_due system ops_for now client (err e) next errs w = (w, bad_expiry e ∷ [])
  expire_due system ops_for now client (ok not_after) next errs w =
      if not (same client.status expiration_pending) && not (ready_to_expire not_after now)
      then next errs w
      else collect next errs (expire_client system (ops_for client) client.client_id now w)

  abbrev expire_stamped :
      System H E
      → (ClientRecord → Expiry H E)
      → Time
      → ClientRecord
      → Option Stamp
      → Rounds H E
      → Rounds H E
  expire_stamped system ops_for now client none next = next
  expire_stamped system ops_for now client (some stamp) next =
      expire_due system ops_for now client (parse_utc stamp) next

  -- the loop of `ReconcileExpiredClients`
  unfoldable pub expire_all :
      System H E → (ClientRecord → Expiry H E) → Time → List ClientRecord → Rounds H E
  expire_all system ops_for now [] errs w = (w, errs)
  expire_all system ops_for now (client ∷ clients) errs w =
      let next = expire_all system ops_for now clients in
      if not (same client.status active)
        && not (same client.status expiration_pending)
        && not (same client.status rotation_pending)
      then next errs w
      else expire_stamped system ops_for now client client.authorization_not_after next errs w

  -- `ReconcileExpiredClients`
  unfoldable pub reconcile_expired_clients :
      System H E
      → (ClientRecord → Expiry H E)
      → (H → Listing E)
      → Time
      → World H
      → World H × List (ClientError E)
  reconcile_expired_clients system ops_for read_dir now w =
      listed (λ clients. expire_all system ops_for now clients []) (list_clients read_dir w)
