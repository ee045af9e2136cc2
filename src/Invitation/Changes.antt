-- ===== src/Invitation/Changes.antt =====
-- Rules for the steps that may write an invitation: internal/enrollment/invite.go.
use warptweet.Prelude.{
  Bool, true, false, Bytes, Option, none, some, Result, ok, err, ◌≡◌, refl, ap, sym, ◌∙◌, arith,
}
use mathlib.Core.Path.{subst}
use warptweet.Grant.Time.{Time}
use warptweet.Enrollment.Store.{Written, written, unwritten, unsynced}
use warptweet.Invitation.Invite.{Record, InviteStatus, issued, consumed}
use warptweet.Invitation.Store.{
  Registry, InviteSystem, InviteError, Action, update, pure, raise, lift, ◌>>=◌, ◌>>◌, raise_if,
  ignore, finish_write, write_record, load,
}
use warptweet.Invitation.Use.{require_time}
use warptweet.Invitation.Moves.{
  Invites, is_over, may_write, Move, stays, writes, InPlace, Post, From, from_bind, from_wrote_then,
  load-Quiet, Loaded, load-Loaded,
}

pub from_time :
    {H E B : Type 0} {f : Invites} {P : B → Invites → Type 0} (o : Option Time)
    (k : Time → Action H E B)
    → ((t : Time) → From f (k t) P)
    → From f (require_time o >>= k) P
unfolding pure raise
from_time none k go = from_bind (require_time none) k (λ reg. refl) (λ t (reg, e, r). cc)
from_time (some t) k go = from_bind (require_time (some t)) k (λ reg. refl) (λ t' _. go t')

pub from_check :
    {H E B : Type 0} {f : Invites} {P : B → Invites → Type 0} (b : Bool) (bad : InviteError E)
    (k : Action H E B)
    → (b ≡ false → From f k P)
    → From f (raise_if b bad >> k) P
unfolding raise_if lift ◌>>◌ ◌>>=◌
from_check true bad k go = record { run = λ reg e. stays e }
from_check false bad k go = go refl

-- The writes that are over: an action that returns behind a move.
abbrev pub Moved : {A : Type 0} → Invites → A → Invites → Type 0
Moved f a g = Move f g

module _ {H E : Type 0} (system : InviteSystem H E) {f : Invites} where
  pub from_write :
      (id : Bytes) (new : Record)
      → new.invite.invite_id ≡ id
      → may_write (f id) new.status ≡ true
      → From f (write_record system id new) (λ _ g. g ≡ update id new f)
  unfolding write_record
  from_write id new same may = record {
    run = λ reg e. by_write reg e (system.write_record id new reg.world.host);
  }
    where
      written_is :
          (reg : Registry H) → reg.invites ≡ f → update id new reg.invites ≡ update id new f
      written_is reg e = ap (update id new) e

      by_write :
          (reg : Registry H)
          → reg.invites ≡ f
          → (x : H × Written E) → Post f (λ _ g. g ≡ update id new f) (finish_write id new reg x)
      by_write reg e (h, written) = written_is reg e
      by_write reg e (h, unsynced bad) =
          writes new (written_is reg e ∙ ap (λ (i : Bytes). update i new f) (sym same))
            (subst (λ (i : Bytes). may_write (f i) new.status ≡ true) (sym same) may)
      by_write reg e (h, unwritten bad) = stays e

  pub wrote :
      (id : Bytes) (new : Record)
      → new.invite.invite_id ≡ id
      → may_write (f id) new.status ≡ true
      → (g : Invites) → g ≡ update id new f
      → Move f g
  wrote id new same may g e =
      writes new (e ∙ ap (λ (i : Bytes). update i new f) (sym same))
        (subst (λ (i : Bytes). may_write (f i) new.status ≡ true) (sym same) may)

  -- a write whose error is dropped
  pub from_ignored :
      {B : Type 0} (id : Bytes) (new : Record) (k : Action H E B) (P : B → Invites → Type 0)
      → new.invite.invite_id ≡ id
      → may_write (f id) new.status ≡ true
      → ((reg : Registry H) → Move f reg.invites → Post f P (k reg))
      → From f (ignore (write_record system id new) >> k) P
  unfolding ignore
  from_ignored {B} id new k P same may go =
      from_wrote_then (ignore (write_record system id new)) k (Moved f)
        (record { run = λ reg e. dropped (write_record system id new reg) (wrote_it.run reg e) })
        (λ _ reg m. go reg m)
    where
      wrote_it : From f (write_record system id new) (λ _ g. g ≡ update id new f)
      wrote_it = from_write id new same may

      dropped :
          (x : Registry H × Result (InviteError E) (Unit {0}))
          → Post f (λ _ g. g ≡ update id new f) x
          → Move f x.0.invites
      dropped (reg, ok a) e = wrote id new same may reg.invites e
      dropped (reg, err bad) m = m

  -- `record.Status = …`, the write, and the record
  pub from_write_pure :
      (id : Bytes) (new : Record)
      → new.invite.invite_id ≡ id
      → may_write (f id) new.status ≡ true
      → From f (write_record system id new >> pure new) (λ r g. (r ≡ new) × (g ≡ update id new f))
  unfolding pure
  from_write_pure id new same may =
      from_wrote_then _ _ _ (from_write id new same may) (λ _ reg e. (refl, e))

  -- Load of a file in its place
  module _ (in_place : InPlace f) {B : Type 0} {P : B → Invites → Type 0} where
    pub from_load :
        (id : Bytes) (k : Record → Action H E B)
        → ((a : Record) → Loaded system f id a → a.invite.invite_id ≡ id → From f (k a) P)
        → From f (load system id >>= k) P
    from_load id k go =
        from_bind (load system id) k (load-Quiet system id)
          (λ a gives. go_on a (load-Loaded system id a gives))
      where
        go_on : (a : Record) → Loaded system f id a → From f (k a) P
        go_on a l = go a l (sym l.same_id ∙ in_place id l.stored l.in_file)

pub over_may : (o : Option Record) (s : InviteStatus) → is_over s ≡ true → may_write o s ≡ true
over_may none issued e = refl
over_may none s e = ground arith
over_may (some old) consumed e = cc
over_may (some old) s e = ground arith
