-- ===== src/Invitation/Active.antt =====
-- What the steps of internal/enrollment/accept.go leave of the clients' records and the keys.
use warptweet.Prelude.{
  Bool, true, false, not, List, Bytes, if◌then◌else◌, Option, none, some, Result, ok, err, ◌≡◌,
  refl, sym, ◌∙◌,
}
use mathlib.Core.Path.{subst}
use warptweet.Grant.Time.{Time, before}
use warptweet.Enrollment.Client.{ClientRecord}
use warptweet.Enrollment.Store.{Written, written, unwritten, unsynced}
use warptweet.Invitation.Invite.{Record, expired}
use warptweet.Invitation.Store.{
  Registry, InviteSystem, InviteError, Action, pure, raise, lift, and_then, ◌>>=◌, ◌>>◌, raise_if,
  or_else, recovered, ignore, finish_write, write_record, locked, lock_invite, time_or_now, load,
}
use warptweet.Invitation.Use.{require_time, consume, expire_record, finish_consume, consumed_by}

module _ {H E : Type 0} {A : Type 0} where
  abbrev pub OkPost : (A → Registry H → Type 0) → Registry H × Result (InviteError E) A → Type 0
  OkPost P (reg, ok a) = P a reg
  OkPost P (reg, err e) = Unit {0}

  -- An action that succeeds from a registry in `S` leaves `P`.
  pub record Ends (S : Registry H → Type 0) (m : Action H E A) (P : A → Registry H → Type 0)
      : Type 0 where
    pub run : (reg : Registry H) → S reg → OkPost P (m reg)

module _ {H E : Type 0} {A B : Type 0} {S : Registry H → Type 0} {P : B → Registry H → Type 0} where
  pub ends_seq :
      {m : Action H E A} (k : A → Action H E B) (Q : A → Registry H → Type 0)
      → Ends S m Q
      → ((a : A) → Ends (Q a) (k a) P)
      → Ends S (m >>= k) P
  unfolding ◌>>=◌
  ends_seq {m} k Q first go = record { run = λ reg s. after (m reg) (first.run reg s) }
    where
      after : (x : Registry H × Result (InviteError E) A) → OkPost Q x → OkPost P (and_then x k)
      after (reg, ok a) q = (go a).run reg q
      after (reg, err e) q = tt

  pub ends_lift :
      (r : Result (InviteError E) A) (k : A → Action H E B)
      → ((a : A) → r ≡ ok a → Ends S (k a) P)
      → Ends S (lift r >>= k) P
  unfolding lift ◌>>=◌
  ends_lift (ok a) k go = record { run = λ reg s. (go a refl).run reg s }
  ends_lift (err e) k go = record { run = λ reg s. tt }

module _ {H E : Type 0} {B : Type 0} {S : Registry H → Type 0} {P : B → Registry H → Type 0} where
  pub ends_then :
      {m : Action H E (Unit {0})} (k : Action H E B) (Q : Registry H → Type 0)
      → Ends S m (λ _. Q)
      → Ends Q k P
      → Ends S (m >> k) P
  unfolding ◌>>◌
  ends_then k Q first go = ends_seq (λ _. k) (λ _. Q) first (λ _. go)

  pub ends_check :
      (b : Bool) (bad : InviteError E) (k : Action H E B)
      → (b ≡ false → Ends S k P)
      → Ends S (raise_if b bad >> k) P
  unfolding raise_if lift ◌>>◌ ◌>>=◌
  ends_check true bad k go = record { run = λ reg s. tt }
  ends_check false bad k go = go refl

abbrev pub Files : Type 0
Files = Bytes → Option ClientRecord

-- The record of each client is in its place.
abbrev pub ClientsInPlace : Files → Type 0
ClientsInPlace files = (id : Bytes) (c : ClientRecord) → files id ≡ some c → c.client_id ≡ id

-- What is said of the clients' records and the keys installed.
abbrev pub On : {H : Type 0} → (Files → List (Bytes × Time) → Type 0) → Registry H → Type 0
On T reg = T reg.world.files reg.installs

abbrev pub InOrder : Files → List (Bytes × Time) → Type 0
InOrder files installs = ClientsInPlace files

-- A record of the client and of a key, in its file.
pub record Enrolled (client_id key : Bytes) (c : ClientRecord) (files : Files) : Type 0 where
  pub in_file : files client_id ≡ some c
  pub files_in_place : ClientsInPlace files
  pub key_same : c.public_key ≡ key

-- What neither writes a client's record nor installs a key.
module _ {H E : Type 0} where
  pub record Still {A : Type 0} (m : Action H E A) : Type 0 where
    pub files_same : (reg : Registry H) → (m reg).0.world.files ≡ reg.world.files
    pub installs_same : (reg : Registry H) → (m reg).0.installs ≡ reg.installs

  pub Still-Ends :
      {A : Type 0} (T : Files → List (Bytes × Time) → Type 0) (m : Action H E A)
      → Still m
      → Ends (On T) m (λ _. On T)
  Still-Ends {A} T m still = record { run = λ reg t. after (m reg) (moved reg t) }
    where
      moved : (reg : Registry H) → On T reg → On T (m reg).0
      moved reg t =
          subst (λ (l : List (Bytes × Time)). T (m reg).0.world.files l)
            (sym (still.installs_same reg))
            (subst (λ (files : Files). T files reg.installs) (sym (still.files_same reg)) t)

      after : (x : Registry H × Result (InviteError E) A) → On T x.0 → OkPost (λ _. On T) x
      after (reg, ok a) t = t
      after (reg, err e) t = tt

  pub bind-Still :
      {A B : Type 0} (m : Action H E A) (k : A → Action H E B)
      → Still m
      → ((a : A) → Still (k a))
      → Still (m >>= k)
  unfolding ◌>>=◌
  bind-Still {A} m k s s' = record {
    files_same = λ reg. files_after reg (m reg) (s.files_same reg);
    installs_same = λ reg. installs_after reg (m reg) (s.installs_same reg);
  }
    where
      files_after :
          (reg : Registry H) (x : Registry H × Result (InviteError E) A)
          → x.0.world.files ≡ reg.world.files
          → (and_then x k).0.world.files ≡ reg.world.files
      files_after reg (reg', ok a) e = (s' a).files_same reg' ∙ e
      files_after reg (reg', err bad) e = e

      installs_after :
          (reg : Registry H) (x : Registry H × Result (InviteError E) A)
          → x.0.installs ≡ reg.installs
          → (and_then x k).0.installs ≡ reg.installs
      installs_after reg (reg', ok a) e = (s' a).installs_same reg' ∙ e
      installs_after reg (reg', err bad) e = e

  pub then-Still :
      {B : Type 0} (m : Action H E (Unit {0})) (k : Action H E B)
      → Still m
      → Still k
      → Still (m >> k)
  unfolding ◌>>◌
  then-Still m k s s' = bind-Still m (λ _. k) s (λ _. s')

  pub lift-Still : {A : Type 0} (r : Result (InviteError E) A) → Still (lift r)
  unfolding lift
  lift-Still r = record { files_same = λ reg. refl; installs_same = λ reg. refl }

  pub raise-Still : (A : Type 0) (e : InviteError E) → Still (raise {A = A} e)
  unfolding raise
  raise-Still A e = record { files_same = λ reg. refl; installs_same = λ reg. refl }

  pub pure-Still : {A : Type 0} (a : A) → Still (pure a)
  unfolding pure
  pure-Still a = record { files_same = λ reg. refl; installs_same = λ reg. refl }

  pub raise_if-Still : (b : Bool) (e : InviteError E) → Still (raise_if b e)
  unfolding raise_if lift
  raise_if-Still b e = record { files_same = λ reg. refl; installs_same = λ reg. refl }

  pub ignore-Still : (m : Action H E (Unit {0})) → Still m → Still (ignore m)
  unfolding ignore
  ignore-Still m s = record { files_same = s.files_same; installs_same = s.installs_same }

  pub require_time-Still : (o : Option Time) → Still (require_time o)
  require_time-Still none = raise-Still Time InviteError.bad_expires_at
  require_time-Still (some t) = pure-Still t

  module _ (system : InviteSystem H E) where
    pub lock_invite-Still : (id : Bytes) → Still (lock_invite system id)
    unfolding lock_invite
    lock_invite-Still id = record {
      files_same = λ reg. files_after reg (system.lock_invite id reg.world.host);
      installs_same = λ reg. installs_after reg (system.lock_invite id reg.world.host);
    }
      where
        files_after :
            (reg : Registry H) (x : H × Option E)
            → (locked system reg x).0.world.files ≡ reg.world.files
        files_after reg (h, none) = refl
        files_after reg (h, some e) = refl

        installs_after :
            (reg : Registry H) (x : H × Option E) → (locked system reg x).0.installs ≡ reg.installs
        installs_after reg (h, none) = refl
        installs_after reg (h, some e) = refl

    write_record-Still : (id : Bytes) (new : Record) → Still (write_record system id new)
    unfolding write_record
    write_record-Still id new = record {
      files_same = λ reg. files_after reg (system.write_record id new reg.world.host);
      installs_same = λ reg. installs_after reg (system.write_record id new reg.world.host);
    }
      where
        files_after :
            (reg : Registry H) (x : H × Written E)
            → (finish_write id new reg x).0.world.files ≡ reg.world.files
        files_after reg (h, written) = refl
        files_after reg (h, unsynced e) = refl
        files_after reg (h, unwritten e) = refl

        installs_after :
            (reg : Registry H) (x : H × Written E)
            → (finish_write id new reg x).0.installs ≡ reg.installs
        installs_after reg (h, written) = refl
        installs_after reg (h, unsynced e) = refl
        installs_after reg (h, unwritten e) = refl

    pub time_or_now-Still : (t : Time) → Still (time_or_now system t)
    unfolding time_or_now
    time_or_now-Still t = record { files_same = λ reg. refl; installs_same = λ reg. refl }

    pub load_or-Still :
        (id : Bytes) (e : InviteError E) → Still (or_else (load system id) (raise e))
    unfolding or_else load raise
    load_or-Still id e = record {
      files_same = λ reg. files_after reg _;
      installs_same = λ reg. installs_after reg _;
    }
      where
        files_after :
            (reg : Registry H) (r : Result (InviteError E) Record)
            → (recovered r (λ reg. (reg, err e)) reg).0.world.files ≡ reg.world.files
        files_after reg (ok a) = refl
        files_after reg (err e) = refl

        installs_after :
            (reg : Registry H) (r : Result (InviteError E) Record)
            → (recovered r (λ reg. (reg, err e)) reg).0.installs ≡ reg.installs
        installs_after reg (ok a) = refl
        installs_after reg (err e) = refl

    load-Still : (id : Bytes) → Still (load system id)
    unfolding load
    load-Still id = record { files_same = λ reg. refl; installs_same = λ reg. refl }

    finish-Still :
        (id client_id : Bytes) (now : Time) (a : Record) (b : Bool)
        → Still (if b then expire_record system id a else finish_consume system id client_id now a)
    unfolding expire_record finish_consume
    finish-Still id client_id now a true =
        then-Still _ _ (ignore-Still _ (write_record-Still id (record a { status = expired })))
          (raise-Still Record InviteError.invite_expired)
    finish-Still id client_id now a false =
        then-Still _ _ (write_record-Still id (consumed_by client_id now a)) (pure-Still _)

    pub consume-Still : (id client_id : Bytes) (t : Time) → Still (consume system id client_id t)
    unfolding consume
    consume-Still id client_id t = bind-Still _ _ (load-Still id) (λ a.
        then-Still _ _ (raise_if-Still _ _) (
          bind-Still _ _ (time_or_now-Still t) (λ now.
            bind-Still _ _ (require_time-Still (system.parse_nano a.invite.expires_at))
              (λ expires. finish-Still id client_id now a (not (before now expires))))))
