-- ===== src/Invitation/Enrolled.antt =====
-- The record of a client that is enrolled, and the key that is installed: internal/enrollment/accept.go.
use warptweet.Prelude.{
  Bool, true, false, not, ◌||◌, List, [], ◌∷◌, Bytes, equal_iff, if◌then◌else◌, Option, none, some,
  Result, ok, err, ◌≡◌, refl, arith,
}
use mathlib.Core.Path.{subst}
use warptweet.Grant.Status.{Status, same, active, enrollment_pending, other}
use warptweet.Grant.Time.{Time, Stamp}
use warptweet.Enrollment.Texts.{is_hex_id}
use warptweet.Enrollment.Client.{ClientRecord, ClientError}
use warptweet.Enrollment.Store.{
  Written, written, unwritten, unsynced, World, System, load_client, store_client, update_client,
}
use warptweet.Enrollment.Store
use warptweet.Invitation.Store.{
  Registry, InviteSystem, InviteError, pure, raise, on_clients, ended, or_else, recovered,
}
use warptweet.Invitation.Resume.{
  install, installed_in, is_resumable, resume_pending, stored_or, store_or_resume_pending_client,
}
use warptweet.Invitation.Accept.{activate}
use warptweet.Invitation.Active.{
  OkPost, Ends, ends_seq, ends_check, Files, ClientsInPlace, On, InOrder, Enrolled,
}
use warptweet.Invitation.Clients.{Stored, store_client-Stored, update-Stored}

abbrev is_live : Status → Bool
is_live s = same s enrollment_pending || same s active

-- A record of the client that is waiting for its activation, or is active.
abbrev pub Pending : Bytes → Bytes → ClientRecord → Files → List (Bytes × Time) → Type 0
Pending client_id key c files installs = Enrolled client_id key c files × (is_live c.status ≡ true)

-- The latest key to be installed.
abbrev pub IsLast : Bytes × Time → List (Bytes × Time) → Type 0
IsLast p [] = ⊥
IsLast p (q ∷ _) = q ≡ p

module _ {H E : Type 0} where
  pub load_client-Ends :
      (id : Bytes) (e : InviteError E)
      → Ends
          (On {H = H} InOrder)
          (or_else (on_clients (load_client id)) (raise e))
          (λ c. On (λ files _. (files id ≡ some c) × ClientsInPlace files))
  unfolding or_else on_clients load_client raise Store.raise Store.pure
  load_client-Ends id e = record { run = λ reg h. by_id reg h (not (is_hex_id id)) }
    where
      after : Registry H × Result (InviteError E) ClientRecord → Type 0
      after = OkPost (λ c. On (λ files _. (files id ≡ some c) × ClientsInPlace files))

      by_found :
          (reg : Registry H)
          → ClientsInPlace reg.world.files
          → (o : Option ClientRecord) → reg.world.files id ≡ o
          → after (
              recovered
                (ended {E = E} reg (Store.found o reg.world)).1
                (λ reg. (reg, err e))
                (ended {E = E} reg (Store.found o reg.world)).0)
      by_found reg h none o = tt
      by_found reg h (some c) o = (o, h)

      by_id :
          (reg : Registry H)
          → ClientsInPlace reg.world.files
          → (bad : Bool)
          → after (
              recovered
                (ended {E = E} reg (
                  if bad
                  then (reg.world, err ClientError.bad_client_id)
                  else Store.found (reg.world.files id) reg.world)).1
                (λ reg. (reg, err e))
                (ended {E = E} reg (
                  if bad
                  then (reg.world, err ClientError.bad_client_id)
                  else Store.found (reg.world.files id) reg.world)).0)
      by_id reg h true = tt
      by_id reg h false = by_found reg h (reg.world.files id) refl

  pub install-Ends :
      (T : Files → Type 0) (i : Bytes → Time → H → H × Option E) (key : Bytes) (t : Time)
      → Ends
          (On (λ files _. T files))
          (install i key t)
          (λ _. On (λ files installs. T files × IsLast (key, t) installs))
  unfolding install
  install-Ends T i key t = record { run = λ reg h. by_call reg h (i key t reg.world.host) }
    where
      by_call :
          (reg : Registry H)
          → T reg.world.files
          → (x : H × Option E)
          → OkPost
              (λ _. On (λ files installs. T files × IsLast (key, t) installs))
              (installed_in key t reg x)
      by_call reg h (g, none) = (h, refl)
      by_call reg h (g, some e) = tt

  module _ (system : InviteSystem H E) (want : ClientRecord) where
    resume_pending-Ends :
        (e : InviteError E)
        → Ends
            (On InOrder)
            (resume_pending system want e)
            (λ c. On (Pending want.client_id want.public_key c))
    unfolding resume_pending pure is_resumable
    resume_pending-Ends e = ends_seq _ _ (load_client-Ends want.client_id e) (λ c.
        ends_check (not (is_resumable system c want)) InviteError.conflicting_client (pure c)
          (λ b. record { run = λ reg (f, h). found c b reg f h }))
      where
        found :
            (c : ClientRecord)
            → not (is_resumable system c want) ≡ false
            → (reg : Registry H) → reg.world.files want.client_id ≡ some c
            → ClientsInPlace reg.world.files
            → Pending want.client_id want.public_key c reg.world.files reg.installs
        found c b reg f h = (
          record {
            in_file = f;
            files_in_place = h;
            key_same = (equal_iff c.public_key want.public_key).0 (ground arith);
          },
          ground arith,
        )

    pub store_or_resume-Ends :
        want.status ≡ enrollment_pending
        → Ends
            (On InOrder)
            (store_or_resume_pending_client system want)
            (λ c. On (Pending want.client_id want.public_key c))
    unfolding store_or_resume_pending_client on_clients same
    store_or_resume-Ends pending = record {
      run = λ reg h.
          by_stored reg (store_client system.clients want reg.world)
            (store_client-Stored system.clients want reg.world h);
    }
      where
        by_stored :
            (reg : Registry H) (x : World H × Result (ClientError E) (Unit {0}))
            → Stored system.clients want x
            → OkPost
                (λ c. On (Pending want.client_id want.public_key c))
                (stored_or system want (ended reg x))
        by_stored reg (w, ok a) (f, h) =
            (record { in_file = f; files_in_place = h; key_same = refl }, rw pending refl)
        by_stored reg (w, err e) h =
            (resume_pending-Ends (InviteError.client_failed e)).run (record reg { world = w }) h

pub same_active : (s : Status) → same s active ≡ true → s ≡ active
unfolding same
same_active active e = refl
same_active (other t) e = cc
same_active _ e = cc

-- The record of the client is active, with the end of its authorization.
pub record IsActive (client_id key : Bytes) (until : Option Stamp) (c : ClientRecord)
    (files : Files) : Type 0 where
  pub enrolled : Enrolled client_id key c files
  pub active_now : c.status ≡ active
  pub until_same : c.authorization_not_after ≡ until

module _ {H E : Type 0} (system : InviteSystem H E) (client_id key : Bytes) (c : ClientRecord)
    (T : List (Bytes × Time) → Type 0) where
  abbrev Activated : Files → List (Bytes × Time) → Type 0
  Activated files installs =
      ((c' : ClientRecord) × IsActive client_id key c.authorization_not_after c' files) × T installs

  pub activate-Ends :
      Ends
        (On {H = H} (λ files installs. Pending client_id key c files installs × T installs))
        (activate system c)
        (λ _. On (λ files installs.
          ((c' : ClientRecord) × IsActive client_id key c.authorization_not_after c' files)
          × T installs))
  unfolding activate on_clients pure
  activate-Ends = record { run = λ reg ((enrolled, live), t). by_status reg enrolled live t _ refl }
    where
      by_updated :
          (reg : Registry H) (x : World H × Result (ClientError E) (Unit {0}))
          → c.client_id ≡ client_id
          → c.public_key ≡ key
          → Stored system.clients (record c { status = active }) x
          → T reg.installs
          → OkPost (λ _. On Activated) (ended reg x)
      by_updated reg (w, ok a) same_id same_key (f, h) t = (
        (
          record c { status = active },
          record {
            enrolled = record {
              in_file =
                  subst (λ (i : Bytes). w.files i ≡ some (record c { status = active })) same_id f;
              files_in_place = h;
              key_same = same_key;
            };
            active_now = refl;
            until_same = refl;
          },
        ),
        t,
      )
      by_updated reg (w, err e) same_id same_key s t = tt

      by_status :
          (reg : Registry H)
          → Enrolled client_id key c reg.world.files
          → is_live c.status ≡ true
          → T reg.installs
          → (b : Bool) → same c.status enrollment_pending ≡ b
          → OkPost
              (λ _. On Activated)
              ((if b
                  then on_clients (update_client system.clients (record c { status = active }))
                  else pure tt)
                reg)
      by_status reg enrolled live t true e =
          by_updated reg (update_client system.clients (record c { status = active }) reg.world)
            (enrolled.files_in_place client_id c enrolled.in_file) enrolled.key_same
            (update-Stored system.clients (record c { status = active }) reg.world
              enrolled.files_in_place)
            t
      by_status reg enrolled live t false e = (
        (
          c,
          record {
            enrolled = enrolled;
            active_now = same_active c.status (ground arith);
            until_same = refl;
          },
        ),
        t,
      )
