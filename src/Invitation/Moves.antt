-- ===== src/Invitation/Moves.antt =====
-- How the operations of internal/enrollment/invite.go may change the records of the invitations.
use warptweet.Prelude.{
  Bool, true, false, Bytes, Option, none, some, Result, ok, err, ◌≡◌, refl, ap, sym, ◌∙◌, arith,
}
use mathlib.Core.Path.{subst}
use warptweet.Grant.Time.{Time}
use warptweet.Enrollment.Store.{Written, written, unwritten, unsynced, World}
use warptweet.Enrollment.Store
use warptweet.Invitation.Invite.{
  Invite, Record, InviteStatus, issued, consumed, cancelled, revoked, expired, is_issued,
  ShapeError, canonicalize_stored_invite,
}
use warptweet.Invitation.Store.{
  Registry, InviteSystem, InviteError, Action, update, pure, raise, lift, and_then, ◌>>=◌, ◌>>◌,
  raise_if, on_clients, or_else, recovered, locked, lock_invite, time_or_now, load, read,
  canonical_record,
}

abbrev pub Invites : Type 0
Invites = Bytes → Option Record

abbrev pub is_over : InviteStatus → Bool
is_over cancelled = true
is_over revoked = true
is_over expired = true
is_over _ = false

-- What may be written over what is in the file: an invitation is issued once, and consumed only
-- when it is issued.
abbrev pub may_write : Option Record → InviteStatus → Bool
may_write none issued = true
may_write (some old) consumed = is_issued old.status
may_write _ s = is_over s

-- Nothing is written, or one record, in its place.
pub data Move (f g : Invites) : Type 0 where
  stays : g ≡ f → Move f g
  writes :
      (new : Record)
      → g ≡ update new.invite.invite_id new f
      → may_write (f new.invite.invite_id) new.status ≡ true
      → Move f g

abbrev pub InPlace : Invites → Type 0
InPlace f = (id : Bytes) (r : Record) → f id ≡ some r → r.invite.invite_id ≡ id

module _ {H E : Type 0} (f : Invites) {A : Type 0} where
  -- What an action leaves: `P` of its result, or an error behind a move.
  abbrev pub Post : (A → Invites → Type 0) → Registry H × Result (InviteError E) A → Type 0
  Post P (reg, ok a) = P a reg.invites
  Post P (reg, err e) = Move f reg.invites

  pub record From (m : Action H E A) (P : A → Invites → Type 0) : Type 0 where
    pub run : (reg : Registry H) → reg.invites ≡ f → Post P (m reg)

  -- The result `a`, from some registry with these invitations.
  abbrev pub Gives : Action H E A → A → Type 0
  Gives m a = (reg : Registry H) × (reg.invites ≡ f) × ((m reg).1 ≡ ok a)

abbrev pub Quiet : {H E A : Type 0} → Action H E A → Type 0
Quiet {H = H} m = (reg : Registry H) → (m reg).0.invites ≡ reg.invites

module _ {H E : Type 0} {f : Invites} {A B : Type 0} {P : B → Invites → Type 0} where
  pub from_bind :
      (m : Action H E A) (k : A → Action H E B)
      → Quiet m
      → ((a : A) → Gives f m a → From f (k a) P)
      → From f (m >>= k) P
  unfolding ◌>>=◌
  from_bind m k quiet go = record {
    run = λ reg e. after reg e (m reg) (quiet reg ∙ e) (λ a r. go a (reg, e, r));
  }
    where
      after :
          (reg : Registry H)
          → reg.invites ≡ f
          → (x : Registry H × Result (InviteError E) A) → x.0.invites ≡ f
          → ((a : A) → x.1 ≡ ok a → From f (k a) P)
          → Post f P (and_then x k)
      after reg e (reg', ok a) e' go = (go a refl).run reg' e'
      after reg e (reg', err bad) e' go = stays e'

  pub from_wrote :
      (m : Action H E A) (k : A → Action H E B) (Q : A → Invites → Type 0)
      → From f m Q
      → ((a : A) (reg : Registry H) → Q a reg.invites → Post f P (k a reg))
      → From f (m >>= k) P
  unfolding ◌>>=◌
  from_wrote m k Q runs go = record { run = λ reg e. after (m reg) (runs.run reg e) }
    where
      after : (x : Registry H × Result (InviteError E) A) → Post f Q x → Post f P (and_then x k)
      after (reg', ok a) p = go a reg' p
      after (reg', err bad) p = p

module _ {H E : Type 0} {f : Invites} {B : Type 0} {P : B → Invites → Type 0} where
  pub from_then :
      (m : Action H E (Unit {0})) (k : Action H E B) → Quiet m → From f k P → From f (m >> k) P
  unfolding ◌>>◌
  from_then m k quiet go = from_bind m (λ _. k) quiet (λ _ _. go)

  pub from_wrote_then :
      (m : Action H E (Unit {0})) (k : Action H E B) (Q : Unit {0} → Invites → Type 0)
      → From f m Q
      → ((a : Unit {0}) (reg : Registry H) → Q a reg.invites → Post f P (k reg))
      → From f (m >> k) P
  unfolding ◌>>◌
  from_wrote_then m k Q runs go = from_wrote m (λ _. k) Q runs go

  pub from_raise : (e : InviteError E) → From {H = H} f (raise e) P
  unfolding raise
  from_raise e = record { run = λ reg e. stays e }

  pub from_pure : (b : B) → P b f → From {H = H} {E = E} f (pure b) P
  unfolding pure
  from_pure b p = record { run = λ reg e. subst (λ (g : Invites). P b g) (sym e) p }

-- The steps that write no invitation.
module _ {H E A : Type 0} where
  pub lift-Quiet : (r : Result (InviteError E) A) → Quiet {H = H} (lift r)
  unfolding lift
  lift-Quiet r reg = refl

  pub on_clients-Quiet : (m : Store.Action H E A) → Quiet (on_clients m)
  unfolding on_clients
  on_clients-Quiet m reg = refl

  pub or_else-Quiet : (m m' : Action H E A) → Quiet m → Quiet m' → Quiet (or_else m m')
  unfolding or_else
  or_else-Quiet m m' q q' reg = after (m reg) (q reg)
    where
      after :
          (x : Registry H × Result (InviteError E) A)
          → x.0.invites ≡ reg.invites
          → (recovered x.1 m' x.0).0.invites ≡ reg.invites
      after (reg', ok a) e = e
      after (reg', err bad) e = q' reg' ∙ e

module _ {H E A B : Type 0} where
  pub bind-Quiet :
      (m : Action H E A) (k : A → Action H E B)
      → Quiet m
      → ((a : A) → Quiet (k a))
      → Quiet (m >>= k)
  unfolding ◌>>=◌
  bind-Quiet m k q q' reg = after (m reg) (q reg)
    where
      after :
          (x : Registry H × Result (InviteError E) A)
          → x.0.invites ≡ reg.invites
          → (and_then x k).0.invites ≡ reg.invites
      after (reg', ok a) e = q' a reg' ∙ e
      after (reg', err bad) e = e

module _ {H E : Type 0} where
  pub raise-Quiet : (A : Type 0) (e : InviteError E) → Quiet {H = H} (raise {A = A} e)
  unfolding raise
  raise-Quiet A e reg = refl

  pub raise_if-Quiet : (b : Bool) (e : InviteError E) → Quiet {H = H} (raise_if b e)
  unfolding raise_if lift
  raise_if-Quiet b e reg = refl

module _ {H E : Type 0} (system : InviteSystem H E) where
  pub lock_invite-Quiet : (id : Bytes) → Quiet (lock_invite system id)
  unfolding lock_invite
  lock_invite-Quiet id reg = by_lock (system.lock_invite id reg.world.host)
    where
      by_lock : (x : H × Option E) → (locked system reg x).0.invites ≡ reg.invites
      by_lock (h, none) = refl
      by_lock (h, some e) = refl

  pub time_or_now-Quiet : (t : Time) → Quiet (time_or_now system t)
  unfolding time_or_now
  time_or_now-Quiet t reg = refl

  pub load-Quiet : (id : Bytes) → Quiet (load system id)
  unfolding load
  load-Quiet id reg = refl

  -- The record that Load gives is the one in the file, with its hosts in canonical form.
  pub record Loaded (f : Invites) (id : Bytes) (a : Record) : Type 0 where
    pub stored : Record
    pub in_file : f id ≡ some stored
    pub same_status : stored.status ≡ a.status
    pub same_client : stored.client_id ≡ a.client_id
    pub same_id : stored.invite.invite_id ≡ a.invite.invite_id
    pub same_nonce : stored.invite.nonce ≡ a.invite.nonce

  canonical_same :
      (invite a : Invite)
      → canonicalize_stored_invite system.net invite ≡ ok a
      → (invite.invite_id ≡ a.invite_id) × (invite.nonce ≡ a.nonce)
  unfolding canonicalize_stored_invite
  canonical_same invite a e = ground arith

  read-Loaded :
      (f : Invites) (id : Bytes) (o : Option Record) (a : Record)
      → f id ≡ o
      → read system o ≡ ok a
      → Loaded f id a
  read-Loaded f id none a e r = cc
  read-Loaded f id (some s) a e r =
      by_canonical (canonicalize_stored_invite system.net s.invite) refl r
    where
      by_canonical :
          (x : Result ShapeError Invite)
          → canonicalize_stored_invite system.net s.invite ≡ x
          → canonical_record system s x ≡ ok a
          → Loaded f id a
      by_canonical (ok invite) c r =
          let same = canonical_same s.invite invite c in
          record {
            stored = s;
            in_file = e;
            same_status = ground arith;
            same_client = ground arith;
            same_id = ground arith;
            same_nonce = ground arith;
          }
      by_canonical (err bad) c r = cc

  pub load-Loaded :
      {f : Invites} (id : Bytes) (a : Record) → Gives f (load system id) a → Loaded f id a
  unfolding load
  load-Loaded {f} id a (reg, e, r) =
      read-Loaded f id (reg.invites id) a (ap (λ (g : Invites). g id) (sym e)) (ground arith)

pub or_else-Gives :
    {H E A : Type 0} {f : Invites} (m : Action H E A) (bad : InviteError E) (a : A)
    → Gives f (or_else m (raise bad)) a
    → Gives f m a
unfolding or_else raise
or_else-Gives {H = H} {E = E} {A = A} m bad a (reg, e, r) = (reg, e, first (m reg) r)
  where
    first :
        (x : Registry H × Result (InviteError E) A)
        → (recovered x.1 (raise bad) x.0).1 ≡ ok a
        → x.1 ≡ ok a
    first (reg', ok b) r = r
    first (reg', err e) r = cc
