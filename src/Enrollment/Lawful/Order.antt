-- ===== src/Enrollment/Lawful/Order.antt =====
-- What a lawful order of events says of its parts.
use warptweet.Prelude.{
  Bool, true, false, ◌||◌, ◌&&◌, List, [], ◌∷◌, ◌++◌, Bytes, equal, equal_iff, if◌then◌else◌,
  Option, none, some, ok, ◌≡◌, refl, sym, ◌∙◌, ◌⊎◌, arith,
}
use mathlib.Core.Path.{subst}
use mathlib.Core.Option.{some-injective}
use warptweet.Grant.Status.{
  Status, can_transition, terminal, expiration_pending, revoked, authorize_transition,
}
use warptweet.Grant.Status.Paths.{is_ending, same_iff}
use warptweet.Enrollment.Client.{ClientRecord}
use warptweet.Enrollment.Store.{Event, saved, removed, replaced, terminated, verified}
use warptweet.Enrollment.Lawful.{
  over_expiry, Tracked, may_save, may_remove, may_replace, may_end, effect_on, go_on, track,
}

-- The record that the file holds after these events.
abbrev pub last_saved : ClientRecord → List Event → ClientRecord
last_saved first [] = first
last_saved first (saved client ∷ log) = client
last_saved first (removed _ _ ∷ log) = last_saved first log
last_saved first (replaced _ _ _ ∷ log) = last_saved first log
last_saved first (terminated _ _ _ ∷ log) = last_saved first log
last_saved first (verified _ _ _ ∷ log) = last_saved first log

abbrev pub is_saved : Event → Bool
is_saved (saved _) = true
is_saved _ = false

-- A removal of the key succeeded after the last write.
pub data RemovedIn (key : Bytes) : List Event → Type 0 where
  at_last : {log : List Event} → RemovedIn key (removed key true ∷ log)
  before :
      {event : Event} {log : List Event}
      → is_saved event ≡ false
      → RemovedIn key log
      → RemovedIn key (event ∷ log)

-- After that, a look for the client's sessions found none.
pub data GoneIn (key : Bytes) : List Event → Type 0 where
  seen :
      {id digest : Bytes} {log : List Event}
      → RemovedIn key log
      → GoneIn key (verified id digest true ∷ log)
  earlier :
      {event : Event} {log : List Event}
      → is_saved event ≡ false
      → GoneIn key log
      → GoneIn key (event ∷ log)

-- An event in order was in order after the events before it.
pub go_on-some :
    (asks : Bool) (event : Event) (o : Option Tracked) (t : Tracked)
    → go_on (effect_on asks event) o ≡ some t
    → (s : Tracked) × (o ≡ some s) × (effect_on asks event s ≡ some t)
go_on-some asks event none t e = cc
go_on-some asks event (some s) t e = (s, refl, e)

pub track-suffix :
    (asks : Bool) (first : ClientRecord) (recent log : List Event) (t : Tracked)
    → track asks first (recent ++ log) ≡ some t
    → (s : Tracked) × (track asks first log ≡ some s)
unfolding track
track-suffix asks first [] log t e = (t, e)
track-suffix asks first (event ∷ recent) log t e =
    let (s, f, _) = go_on-some asks event (track asks first (recent ++ log)) t e in
    track-suffix asks first recent log s f

-- What the flags and the record of `Tracked` stand for.
pub record Means (asks : Bool) (first : ClientRecord) (log : List Event) (t : Tracked)
    : Type 0 where
  pub stored_is : t.stored ≡ last_saved first log
  pub removed_is : t.removed_key ≡ true → RemovedIn t.stored.public_key log
  pub gone_is : t.gone ≡ true → GoneIn t.stored.public_key log

if_some :
    {A : Type 0} (b : Bool) (x t : A)
    → ◌≡◌ {A = Option A} (if b then some x else none) (some t)
    → (b ≡ true) × (x ≡ t)
if_some true x t e = (refl, some-injective x t e)
if_some false x t e = cc

removed_step :
    (r done : Bool) (key own : Bytes) (log : List Event)
    → (r ≡ true → RemovedIn own log)
    → (r || (done && equal key own)) ≡ true
    → RemovedIn own (removed key done ∷ log)
removed_step true done key own log was e = before refl (was refl)
removed_step false false key own log was e = cc
removed_step false true key own log was e =
    subst (λ (k : Bytes). RemovedIn own (removed k true ∷ log)) (sym ((equal_iff key own).0 e))
      at_last

gone_step :
    (g r done : Bool) (id digest own : Bytes) (log : List Event)
    → (r ≡ true → RemovedIn own log)
    → (g ≡ true → GoneIn own log)
    → (g || (r && done)) ≡ true
    → GoneIn own (verified id digest done ∷ log)
gone_step true r done id digest own log was gone e = earlier refl (gone refl)
gone_step false true true id digest own log was gone e = seen (was refl)
gone_step false true false id digest own log was gone e = cc
gone_step false false done id digest own log was gone e = cc

-- an event that leaves the record and the flags
kept_step :
    (asks : Bool) (first : ClientRecord) (log : List Event) (event : Event) (s : Tracked)
    → is_saved event ≡ false
    → last_saved first (event ∷ log) ≡ last_saved first log
    → Means asks first log s
    → Means asks first (event ∷ log) s
kept_step asks first log event s unsaved same_last m = record {
  stored_is = m.stored_is ∙ sym same_last;
  removed_is = λ h. before unsaved (m.removed_is h);
  gone_is = λ h. earlier unsaved (m.gone_is h);
}

step-Means :
    (asks : Bool) (first : ClientRecord) (log : List Event) (event : Event) (s t : Tracked)
    → Means asks first log s
    → effect_on asks event s ≡ some t
    → Means asks first (event ∷ log) t
unfolding effect_on
step-Means asks first log (saved client) s t m e =
    let (_, is) = if_some (may_save asks s client) _ t e in
    subst (Means asks first (saved client ∷ log)) is
      (record { stored_is = refl; removed_is = λ h. cc; gone_is = λ h. cc })
step-Means asks first log (removed key done) s t m e =
    let (_, is) = if_some (may_remove s.stored key) _ t e in
    subst (Means asks first (removed key done ∷ log)) is (record {
      stored_is = m.stored_is;
      removed_is = removed_step s.removed_key done key s.stored.public_key log m.removed_is;
      gone_is = λ h. earlier refl (m.gone_is h);
    })
step-Means asks first log (replaced old new done) s t m e =
    let (_, is) = if_some (may_replace s.stored old new) s t e in
    subst (Means asks first (replaced old new done ∷ log)) is
      (kept_step asks first log (replaced old new done) s refl refl m)
step-Means asks first log (terminated id digest done) s t m e =
    let (_, is) = if_some (may_end s.stored id) s t e in
    subst (Means asks first (terminated id digest done ∷ log)) is
      (kept_step asks first log (terminated id digest done) s refl refl m)
step-Means asks first log (verified id digest done) s t m e =
    let (_, is) = if_some (may_end s.stored id) _ t e in
    subst (Means asks first (verified id digest done ∷ log)) is (record {
      stored_is = m.stored_is;
      removed_is = λ h. before refl (m.removed_is h);
      gone_is =
          gone_step s.gone s.removed_key done id digest s.stored.public_key log m.removed_is
            m.gone_is;
    })

pub track-Means :
    (asks : Bool) (first : ClientRecord) (log : List Event) (t : Tracked)
    → track asks first log ≡ some t
    → Means asks first log t
unfolding track
track-Means asks first [] t e =
    subst (Means asks first []) (some-injective _ t e)
      (record { stored_is = refl; removed_is = λ h. cc; gone_is = λ h. cc })
track-Means asks first (event ∷ log) t e =
    let (s, f, h) = go_on-some asks event (track asks first log) t e in
    step-Means asks first log event s t (track-Means asks first log s f) h

-- What may be written over a status: what the state machine allows, or the exception.
pub data Follows (s t : Status) : Type 0 where
  authorized : authorize_transition s t ≡ ok tt → Follows s t
  revoked_over_expiry : s ≡ expiration_pending → t ≡ revoked → Follows s t

may-Follows : (s t : Status) → (can_transition s t || over_expiry s t) ≡ true → Follows s t
unfolding authorize_transition
may-Follows s t e = by_step (can_transition s t) refl e
  where
    by_step : (b : Bool) → can_transition s t ≡ b → (b || over_expiry s t) ≡ true → Follows s t
    by_step true c e = authorized (rw c refl)
    by_step false c e =
        revoked_over_expiry ((same_iff s expiration_pending).0 (ground arith))
          ((same_iff t revoked).0 (ground arith))

-- A write in order: it is of the same client, and its status may follow.
pub saved-Follows :
    (asks : Bool) (first : ClientRecord) (log : List Event) (client : ClientRecord) (t : Tracked)
    → track asks first (saved client ∷ log) ≡ some t
    → (client.client_id ≡ (last_saved first log).client_id)
      × Follows (last_saved first log).status client.status
unfolding track effect_on may_save
saved-Follows asks first log client t e =
    let (s, f, h) = go_on-some asks (saved client) (track asks first log) t e in
    let (may, _) = if_some (may_save asks s client) _ t h in
    let means = track-Means asks first log s f in
    subst (λ (c : ClientRecord). (client.client_id ≡ c.client_id) × Follows c.status client.status)
      means.stored_is
      (
        (equal_iff client.client_id s.stored.client_id).0 (ground arith),
        may-Follows s.stored.status client.status (ground arith),
      )

-- A removal in order: the file held a client that is being ended, or has ended, and its key.
pub removed-in_order :
    (asks : Bool) (first : ClientRecord) (log : List Event) (key : Bytes) (done : Bool)
    (t : Tracked)
    → track asks first (removed key done ∷ log) ≡ some t
    → (is_ending (last_saved first log).status ≡ true)
      × ((key ≡ (last_saved first log).public_key)
          ⊎ (key ≡ (last_saved first log).pending_public_key))
unfolding track effect_on may_remove
removed-in_order asks first log key done t e =
    let (s, f, h) = go_on-some asks (removed key done) (track asks first log) t e in
    let (may, _) = if_some (may_remove s.stored key) _ t h in
    let means = track-Means asks first log s f in
    subst
      (λ (c : ClientRecord).
        (is_ending c.status ≡ true) × ((key ≡ c.public_key) ⊎ (key ≡ c.pending_public_key)))
      means.stored_is
      (ground (arith, equal_iff key s.stored.public_key, equal_iff key s.stored.pending_public_key))

-- A write of a terminal status in order: the key was removed, and the sessions gone.
pub saved-in_order :
    (asks : Bool) (first : ClientRecord) (log : List Event) (client : ClientRecord) (t : Tracked)
    → track asks first (saved client ∷ log) ≡ some t
    → terminal client.status ≡ true
    → RemovedIn (last_saved first log).public_key log
      × (asks ≡ true → GoneIn (last_saved first log).public_key log)
unfolding track effect_on may_save
saved-in_order asks first log client t e ends =
    let (s, f, h) = go_on-some asks (saved client) (track asks first log) t e in
    let (may, _) = if_some (may_save asks s client) _ t h in
    let means = track-Means asks first log s f in
    subst
      (λ (c : ClientRecord). RemovedIn c.public_key log × (asks ≡ true → GoneIn c.public_key log))
      means.stored_is (means.removed_is (ground arith), (λ asked. means.gone_is (ground arith)))
