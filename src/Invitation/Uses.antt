-- ===== src/Invitation/Uses.antt =====
-- What each operation of internal/enrollment/invite.go changes of the invitations.
use warptweet.Prelude.{
  ℕ, Bool, true, false, not, Bytes, if◌then◌else◌, Option, none, some, Result, ok, err, reject, ◌≡◌,
  refl, ap, sym, ◌∙◌, arith,
}
use warptweet.Grant.Time.{Time, before}
use warptweet.Enrollment.Texts.{is_hex_id}
use warptweet.Invitation.Invite.{
  Invite, Record, issued, consumed, cancelled, revoked, expired, is_issued, new_record,
}
use warptweet.Invitation.Store.{
  Registry, InviteSystem, InviteError, bad_invite_id, and_then, update, pure, raise, lift, ◌>>=◌,
  ◌>>◌, raise_if, ignore, write_record, time_or_now, store, absent,
}
use warptweet.Invitation.Use.{
  is_cancelled, is_revoked, consumed_by, require_time, expire_record, finish_consume, consume,
  write_cancelled, cancel, write_revoked, revoke_loaded, unused_turn,
}
use warptweet.Invitation.Moves.{
  Invites, is_over, may_write, stays, InPlace, Post, From, from_bind, from_then, from_wrote_then,
  from_pure, raise_if-Quiet, lock_invite-Quiet, time_or_now-Quiet, Loaded,
}
use warptweet.Invitation.Changes.{
  from_time, from_check, Moved, from_write, wrote, from_ignored, from_load, over_may,
}

module _ {H E : Type 0} (system : InviteSystem H E) {f : Invites} {id : Bytes} (a : Record)
    (same_id : a.invite.invite_id ≡ id) where
  pub from_expire :
      {A : Type 0} {P : A → Invites → Type 0} → From f (expire_record system {A = A} id a) P
  unfolding expire_record raise
  from_expire {A} {P} =
      from_ignored system id (record a { status = expired }) _ P same_id
        (over_may (f id) expired refl) (λ reg m. m)

  from_over :
      (new : Record)
      → new.invite.invite_id ≡ id
      → is_over new.status ≡ true
      → From f (write_record system id new >> pure new) (Moved f)
  unfolding pure
  from_over new same over =
      from_wrote_then _ _ _ (from_write system id new same (over_may (f id) _ over))
        (λ _ reg e. wrote system id new same (over_may (f id) _ over) reg.invites e)

  write_cancelled-From : (t : Time) → From f (write_cancelled system id t a) (Moved f)
  unfolding write_cancelled
  write_cancelled-From t = from_then _ _ (raise_if-Quiet _ _) (
      from_bind _ _ (time_or_now-Quiet system t)
        (λ now _. from_over (record a { status = cancelled; revoked_at = some now }) same_id refl))

  write_revoked-From : (t : Time) → From f (write_revoked system id t a) (Moved f)
  unfolding write_revoked
  write_revoked-From t = from_then _ _ (raise_if-Quiet _ _) (
      from_bind _ _ (time_or_now-Quiet system t)
        (λ now _. from_over (record a { status = revoked; revoked_at = some now }) same_id refl))

  pub revoke_loaded-From : (t : Time) → From f (revoke_loaded system id t a) (Moved f)
  unfolding revoke_loaded
  revoke_loaded-From t = by_revoked (is_revoked a.status)
    where
      by_revoked : (b : Bool) → From f (if b then pure a else write_revoked system id t a) (Moved f)
      by_revoked true = from_pure a (stays refl)
      by_revoked false = write_revoked-From t

  by_cancelled :
      (t : Time) (b : Bool) → From f (if b then pure a else write_cancelled system id t a) (Moved f)
  by_cancelled t true = from_pure a (stays refl)
  by_cancelled t false = write_cancelled-From t

-- A record that Consume returns: consumed by the client, over one that was issued.
pub record Consumed (f : Invites) (id client_id : Bytes) (r : Record) (g : Invites) : Type 0 where
  pub before : Record
  pub was : f id ≡ some before
  pub was_issued : is_issued before.status ≡ true
  pub now_consumed : r.status ≡ consumed
  pub by_client : r.client_id ≡ client_id
  pub in_its_place : r.invite.invite_id ≡ id
  pub wrote_it : g ≡ update id r f

module _ {H E : Type 0} (system : InviteSystem H E) {f : Invites} (in_place : InPlace f) where
  pub cancel-From : (id : Bytes) (t : Time) → From f (cancel system id t) (Moved f)
  unfolding cancel
  cancel-From id t = from_then _ _ (lock_invite-Quiet system id) (
      from_load system in_place id _
        (λ a _ same. by_cancelled system a same t (is_cancelled a.status)))

  module _ (id client_id : Bytes) where
    finish_consume-From :
        (now : Time) (a : Record)
        → Loaded system f id a
        → a.invite.invite_id ≡ id
        → is_issued a.status ≡ true
        → From f (finish_consume system id client_id now a) (Consumed f id client_id)
    unfolding finish_consume pure
    finish_consume-From now a loaded same e =
        from_wrote_then _ _ _
          (from_write system id (consumed_by client_id now a) same
            (rw (loaded.in_file) (rw (loaded.same_status) e)))
          (λ _ reg w. record {
            before = loaded.stored;
            was = loaded.in_file;
            was_issued = rw (loaded.same_status) e;
            now_consumed = refl;
            by_client = refl;
            in_its_place = same;
            wrote_it = w;
          })

    -- Consume either consumes an issued record or fails behind a move.
    pub consume-From : (t : Time) → From f (consume system id client_id t) (Consumed f id client_id)
    unfolding consume
    consume-From t =
        from_load system in_place id _
          (λ a loaded same. from_check _ _ _ (λ e. rest a loaded same (ground arith)))
      where
        by_due :
            (now : Time) (a : Record)
            → Loaded system f id a
            → a.invite.invite_id ≡ id
            → is_issued a.status ≡ true
            → (b : Bool)
            → From f
                (if b then expire_record system id a else finish_consume system id client_id now a)
                (Consumed f id client_id)
        by_due now a loaded same e true = from_expire system a same
        by_due now a loaded same e false = finish_consume-From now a loaded same e

        rest :
            (a : Record)
            → Loaded system f id a
            → a.invite.invite_id ≡ id
            → is_issued a.status ≡ true
            → From f
                (do
                  now ← time_or_now system t
                  expires ← require_time (system.parse_nano a.invite.expires_at)
                  if not (before now expires)
                      then expire_record system id a
                      else finish_consume system id client_id now a)
                (Consumed f id client_id)
        rest a loaded same e = from_bind _ _ (time_or_now-Quiet system t) (λ now _.
            from_time (system.parse_nano a.invite.expires_at) _
              (λ expires. by_due now a loaded same e (not (before now expires))))

module _ {H E : Type 0} (system : InviteSystem H E) {f : Invites} where
  -- Store of a new invitation, whose directory is not there.
  pub store-From : (invite : Invite) → From f (store system (new_record invite)) (Moved f)
  unfolding store ◌>>◌ ◌>>=◌ raise_if lift
  store-From invite = record { run = λ reg e. by_hex reg e (not (is_hex_id invite.invite_id)) }
    where
      at : Registry H → Option Record
      at reg = reg.invites invite.invite_id

      moved :
          (x : Registry H × Result (InviteError E) (Unit {0}))
          → may_write (f invite.invite_id) issued ≡ true
          → Post f (λ _ g. g ≡ update invite.invite_id (new_record invite) f) x
          → Post f (Moved f) x
      moved (reg, ok a) may e =
          wrote system invite.invite_id (new_record invite) refl may reg.invites e
      moved (reg, err bad) may m = m

      by_absent :
          (reg : Registry H)
          → reg.invites ≡ f
          → (o : Option Record) → at reg ≡ o
          → Post f (Moved f) (
              and_then
                (reg, absent system o)
                (λ _. write_record system invite.invite_id (new_record invite)))
      by_absent reg e (some old) o = stays e
      by_absent reg e none o =
          let may : may_write (f invite.invite_id) issued ≡ true =
            rw (ap (λ (g : Invites). g invite.invite_id) (sym e) ∙ o) refl in
          moved (write_record system invite.invite_id (new_record invite) reg) may
            ((from_write system invite.invite_id (new_record invite) refl may).run reg e)

      by_hex :
          (reg : Registry H)
          → reg.invites ≡ f
          → (b : Bool)
          → Post f (Moved f) (
              and_then
                (reg, reject b bad_invite_id)
                (λ _ w.
                  and_then
                    (w, absent system (at w))
                    (λ _. write_record system invite.invite_id (new_record invite))))
      by_hex reg e true = stays e
      by_hex reg e false = by_absent reg e (at reg) refl

  -- One turn of UnusedIssuedForGeneration.
  pub unused_turn-From :
      (generation : ℕ) (now : Time) (a : Record)
      → From f (unused_turn system generation now a) (Moved f)
  unfolding unused_turn pure
  unused_turn-From generation now a = by_tests _ _
    where
      by_tests :
          (skip due : Bool)
          → From f
              (if skip
                then pure false
                else if due
                then (ignore
                      (write_record system a.invite.invite_id (record a { status = expired }))
                    >> pure false)
                else pure true)
              (Moved f)
      by_tests true due = from_pure false (stays refl)
      by_tests false true =
          from_ignored system a.invite.invite_id (record a { status = expired }) _ (Moved f) refl
            (over_may (f a.invite.invite_id) expired refl) (λ reg m. m)
      by_tests false false = from_pure true (stays refl)
