-- ===== src/Enrollment/Store.antt =====
-- The directory of client records and what the operations call: internal/enrollment/clients.go
-- and invite.go. The rest of the host is a type `H` of states, which the calls read and change.
-- An operation is an action on a world: what it has changed stays changed when it fails.
use warptweet.Prelude.{
  Bool, true, false, not, ◌||◌, List, [], ◌∷◌, Bytes, equal, if◌then◌else◌, Option, none, some,
  Result, ok, err, reject,
}
use warptweet.Grant.Time.{Time, is_zero}
use warptweet.Enrollment.Texts.{is_hex_id}
use warptweet.Enrollment.Client.{
  ClientRecord, ClientError, unknown_client, bad_client_id, already_exists, no_callback, outside,
}

-- What the operations did to the outside, and whether a call of the caller's succeeded.
pub data Event : Type 0 where
  saved : ClientRecord → Event
  removed : Bytes → Bool → Event
  replaced : Bytes → Bytes → Bool → Event
  terminated : Bytes → Bytes → Bool → Event
  verified : Bytes → Bytes → Bool → Event

-- How a write by `writeFileAtomic` ends: the file is replaced, or kept with an error, or replaced
-- with an error, when the directory does not sync after the rename.
pub data Written (E : Type 0) : Type 0 where
  written : Written E
  unwritten : E → Written E
  unsynced : E → Written E

-- A directory has at most one record for a client: none stands for a file that is
-- missing. A file that is there but does not decode is not modelled. The log lists the events, latest first.
pub record World (H : Type 0) : Type 0 where
  pub files : Bytes → Option ClientRecord
  pub host : H
  pub log : List Event

-- The operating system, Go's library, and the clock.
pub record System (H E : Type 0) : Type 0 where
  pub sha256_hex : Bytes → Bytes
  pub generation_at : Time → Bytes
  pub clock : H → Time
  pub lock : Bytes → H → H × Option E
  pub write : ClientRecord → H → H × Written E
  pub random_token : H → H × Result E Bytes

-- The callbacks of the caller; one that is nil is none.
pub record Callbacks (H E : Type 0) : Type 0 where
  pub remove : Option (Bytes → H → H × Option E)
  pub terminate : Option (Bytes → Bytes → Bytes → H → H × Option E)
  pub verify : Option (Bytes → Bytes → Bytes → H → H × Option E)

module _ (H E : Type 0) where
  abbrev pub Action : Type 0 → Type 0
  Action A = World H → World H × Result (ClientError E) A

unfoldable pub put : {H : Type 0} → ClientRecord → World H → World H
put client w = record w {
  files = λ id. if equal id client.client_id then some client else w.files id;
  log = saved client ∷ w.log;
}

abbrev pub absent : {E : Type 0} → Option ClientRecord → Result (ClientError E) (Unit {0})
absent none = ok tt
absent (some _) = err already_exists

module _ {H E : Type 0} where
  module _ {A : Type 0} where
    unfoldable pub pure : A → Action H E A
    pure a w = (w, ok a)

    unfoldable pub raise : ClientError E → Action H E A
    raise e w = (w, err e)

    -- a check that reads no state
    unfoldable pub lift : Result (ClientError E) A → Action H E A
    lift r w = (w, r)

    abbrev pub and_then :
        {B : Type 0}
        → World H × Result (ClientError E) A
        → (A → Action H E B)
        → World H × Result (ClientError E) B
    and_then (w, ok a) f = f a w
    and_then (w, err e) f = (w, err e)

infixl 5 ◌>>=◌ ◌>>◌
unfoldable pub ◌>>=◌ : {H E A B : Type 0} → Action H E A → (A → Action H E B) → Action H E B
◌>>=◌ m f w = and_then (m w) f

unfoldable pub ◌>>◌ : {H E B : Type 0} → Action H E (Unit {0}) → Action H E B → Action H E B
m >> k = m >>= λ _. k

module _ {H E : Type 0} where
  unfoldable pub raise_if : Bool → ClientError E → Action H E (Unit {0})
  raise_if b e = lift (reject b e)

  unfoldable pub when : Bool → Action H E (Unit {0}) → Action H E (Unit {0})
  when true m = m
  when false m = pure tt

  -- an outcome of a call, with the event that it is
  abbrev pub logged :
      (Bool → Event) → World H → H × Option E → World H × Result (ClientError E) (Unit {0})
  logged event w (h, none) = (record w { host = h; log = event true ∷ w.log }, ok tt)
  logged event w (h, some e) = (record w { host = h; log = event false ∷ w.log }, err (outside e))

  unfoldable pub call : (Bool → Event) → (H → H × Option E) → Action H E (Unit {0})
  call event f w = logged event w (f w.host)

  -- `if hook != nil { if err := hook(...) ... }`
  unfoldable pub call_if_given : (Bool → Event) → Option (H → H × Option E) → Action H E (Unit {0})
  call_if_given event none = pure tt
  call_if_given event (some f) = call event f

  -- `if callback == nil { return error }` and the call
  unfoldable pub required : {A : Type 0} → Option A → Action H E A
  required none = raise no_callback
  required (some f) = pure f

  abbrev pub finish_write :
      ClientRecord → World H → H × Written E → World H × Result (ClientError E) (Unit {0})
  finish_write client w (h, written) = (put client (record w { host = h }), ok tt)
  finish_write client w (h, unsynced e) = (put client (record w { host = h }), err (outside e))
  finish_write client w (h, unwritten e) = (record w { host = h }, err (outside e))

  -- `writeClientAtomic`
  unfoldable pub write_client_atomic : System H E → ClientRecord → Action H E (Unit {0})
  write_client_atomic system client w = finish_write client w (system.write client w.host)

  abbrev pub outcome_of : World H → H × Option E → World H × Result (ClientError E) (Unit {0})
  outcome_of w (h, none) = (record w { host = h }, ok tt)
  outcome_of w (h, some e) = (record w { host = h }, err (outside e))

  -- `lockClient`
  unfoldable pub lock_client : System H E → Bytes → Action H E (Unit {0})
  lock_client system id w =
      if not (is_hex_id id) then (w, err bad_client_id) else outcome_of w (system.lock id w.host)

  abbrev pub found : Option ClientRecord → Action H E ClientRecord
  found none = raise unknown_client
  found (some client) = pure client

  -- `LoadClient`
  unfoldable pub load_client : Bytes → Action H E ClientRecord
  load_client id w = if not (is_hex_id id) then (w, err bad_client_id) else found (w.files id) w

  abbrev pub drawn : World H → H × Result E Bytes → World H × Result (ClientError E) Bytes
  drawn w (h, ok bytes) = (record w { host = h }, ok bytes)
  drawn w (h, err e) = (record w { host = h }, err (outside e))

  -- 32 bytes of `rand.Read`, in hex
  unfoldable pub burn : System H E → Action H E Bytes
  burn system w = drawn w (system.random_token w.host)

  -- `if now.IsZero() { now = time.Now().UTC() }`
  unfoldable pub time_or_now : System H E → Time → Action H E Time
  time_or_now system now w = (w, ok (if is_zero now then system.clock w.host else now))

  -- `StoreClient`, behind the check of the directory
  unfoldable pub store_client : System H E → ClientRecord → Action H E (Unit {0})
  store_client system client = do
    raise_if (equal client.client_id [] || not (is_hex_id client.client_id)) bad_client_id
    (λ w. (w, absent (w.files client.client_id)))
    write_client_atomic system client

  -- `UpdateClient`
  unfoldable pub update_client : System H E → ClientRecord → Action H E (Unit {0})
  update_client system client = do
    raise_if (not (is_hex_id client.client_id)) bad_client_id
    lock_client system client.client_id
    _ ← load_client client.client_id
    write_client_atomic system client
