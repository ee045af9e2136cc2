-- ===== src/Invitation/Refused.antt =====
-- How Accept of internal/enrollment/accept.go refuses a stranger.
use warptweet.Prelude.{
  Bool, true, false, Bytes, equal_iff, if◌then◌else◌, some, Result, ok, err, ◌⊎◌, inl, inr, ◌≢◌,
  ◌≡◌, refl, ap, sym, ◌∙◌, arith,
}
use mathlib.Core.Path.{subst}
use mathlib.Core.Option.{some-injective}
use warptweet.Grant.Time.{Time}
use warptweet.Locator.Endpoint.{PublishedEndpointSet}
use warptweet.Enrollment.Texts.{trim_space}
use warptweet.Invitation.Invite.{Record}
use warptweet.Invitation.Store.{
  Registry, InviteSystem, InviteError, Action, lift, and_then, ◌>>=◌, ◌>>◌, raise_if,
}
use warptweet.Invitation.Request.{AcceptInput, client_id_for, check_binding}
use warptweet.Invitation.Use.{is_consumed}
use warptweet.Invitation.Resume.{resume_accepted_enrollment}
use warptweet.Invitation.Accept.{accept_issued, accept_loaded, accept}
use warptweet.Invitation.Moves.{
  Invites, Gives, Quiet, or_else-Quiet, raise-Quiet, lock_invite-Quiet, time_or_now-Quiet,
  load-Quiet, Loaded, load-Loaded, or_else-Gives,
}
use warptweet.Invitation.Active.{Still, lock_invite-Still, time_or_now-Still, load_or-Still}

module _ {H E A : Type 0} where
  -- An error, with the invitations, the clients' records and the keys as they were.
  pub record Untouched (reg : Registry H) (out : Registry H × Result (InviteError E) A)
      : Type 0 where
    pub invites_same : out.0.invites ≡ reg.invites
    pub files_same : out.0.world.files ≡ reg.world.files
    pub installs_same : out.0.installs ≡ reg.installs
    pub refused : (e : InviteError E) × (out.1 ≡ err e)

  record Refuses (f : Invites) (m : Action H E A) : Type 0 where
    run : (reg : Registry H) → reg.invites ≡ f → Untouched reg (m reg)

module _ {H E : Type 0} {f : Invites} {B : Type 0} where
  refuse_bind :
      {A : Type 0} (m : Action H E A) (k : A → Action H E B)
      → Quiet m
      → Still m
      → ((a : A) → Gives f m a → Refuses f (k a))
      → Refuses f (m >>= k)
  unfolding ◌>>=◌
  refuse_bind {A} m k quiet still go = record {
    run = λ reg e.
        after reg (m reg) (quiet reg) (still.files_same reg) (still.installs_same reg) e
          (λ a r. go a (reg, e, r));
  }
    where
      after :
          (reg : Registry H) (x : Registry H × Result (InviteError E) A)
          → x.0.invites ≡ reg.invites
          → x.0.world.files ≡ reg.world.files
          → x.0.installs ≡ reg.installs
          → reg.invites ≡ f
          → ((a : A) → x.1 ≡ ok a → Refuses f (k a))
          → Untouched reg (and_then x k)
      after reg (reg', ok a) i c l e go =
          let out = (go a refl).run reg' (i ∙ e) in
          record {
            invites_same = out.invites_same ∙ i;
            files_same = out.files_same ∙ c;
            installs_same = out.installs_same ∙ l;
            refused = out.refused;
          }
      after reg (reg', err bad) i c l e go = record {
        invites_same = i;
        files_same = c;
        installs_same = l;
        refused = (bad, refl);
      }

  refuse_lift :
      {A : Type 0} (r : Result (InviteError E) A) (k : A → Action H E B)
      → ((a : A) → r ≡ ok a → Refuses f (k a))
      → Refuses f (lift r >>= k)
  unfolding lift ◌>>=◌
  refuse_lift (ok a) k go = go a refl
  refuse_lift (err e) k go = record {
    run = λ reg same. record {
      invites_same = refl;
      files_same = refl;
      installs_same = refl;
      refused = (e, refl);
    };
  }

  refuse_lift_then :
      (r : Result (InviteError E) (Unit {0})) (k : Action H E B)
      → (r ≡ ok tt → Refuses f k)
      → Refuses f (lift r >> k)
  unfolding ◌>>◌
  refuse_lift_then r k go = refuse_lift r (λ _. k) (λ _ e. go e)

  refuse_check :
      (b : Bool) (bad : InviteError E) (k : Action H E B)
      → (b ≡ false → Refuses f k)
      → Refuses f (raise_if b bad >> k)
  unfolding raise_if
  refuse_check true bad k go = refuse_lift_then (err bad) k (λ e. cc)
  refuse_check false bad k go = refuse_lift_then (ok tt) k (λ _. go refl)

  refuse_then :
      (m : Action H E (Unit {0})) (k : Action H E B)
      → Quiet m
      → Still m
      → Refuses f k
      → Refuses f (m >> k)
  unfolding ◌>>◌
  refuse_then m k quiet still go = refuse_bind m (λ _. k) quiet still (λ _ _. go)

module _ {H E : Type 0} (system : InviteSystem H E) (input : AcceptInput H E) where
  -- The request has not the nonce of the invitation, if that is not consumed, or else is not of the
  -- client that used it.
  abbrev pub IsStranger : Record → Type 0
  IsStranger r =
      ((is_consumed r.status ≡ false) × (r.invite.nonce ≢ input.request.nonce))
      ⊎ ((is_consumed r.status ≡ true)
          × (r.client_id
              ≢ client_id_for system.clients.sha256_hex r.invite.invite_id
                  (trim_space input.request.public_key)))

  wrong_nonce :
      (a : Record)
      → a.invite.nonce ≢ input.request.nonce
      → check_binding {E = E} input a ≡ ok tt
      → ⊥
  unfolding check_binding
  wrong_nonce a differs e = ground (arith, equal_iff a.invite.nonce input.request.nonce)

  module _ {f : Invites} (a : Record) (published : PublishedEndpointSet) (now : Time) where
    refuse_consumed :
        (client_id key : Bytes)
        → a.client_id ≢ client_id
        → Refuses f (resume_accepted_enrollment system input a client_id key)
    unfolding resume_accepted_enrollment
    refuse_consumed client_id key differs =
        refuse_check _ _ _ (λ e. absurd (ground (arith, equal_iff a.client_id client_id)))

    refuse_unused :
        (client_id key : Bytes)
        → a.invite.nonce ≢ input.request.nonce
        → Refuses f (accept_issued system input a published client_id key now)
    unfolding accept_issued
    refuse_unused client_id key differs =
        refuse_lift_then (check_binding input a) _ (λ e. absurd (wrong_nonce a differs e))

    refuse_loaded : IsStranger a → Refuses f (accept_loaded system input published now a)
    unfolding accept_loaded
    refuse_loaded stranger =
        refuse_lift _ _ (λ record_set _. refuse_check _ _ _ (λ _. by_stranger stranger))
      where
        key : Bytes
        key = trim_space input.request.public_key

        client_id : Bytes
        client_id = client_id_for system.clients.sha256_hex a.invite.invite_id key

        by_stranger :
            IsStranger a
            → Refuses f (
                if is_consumed a.status
                then resume_accepted_enrollment system input a client_id key
                else accept_issued system input a published client_id key now)
        by_stranger (inl (e, differs)) = rw e (refuse_unused client_id key differs)
        by_stranger (inr (e, differs)) = rw e (refuse_consumed client_id key differs)

  -- Of an invitation that is not consumed, a request with another nonce, and of one that is, a
  -- request of another client than the one that used it, is refused: no invitation, no client's
  -- record and no installed key has changed.
  pub accept-refuses_stranger :
      (current_id : Bytes) (reg : Registry H) (r : Record)
      → reg.invites input.request.invite_id ≡ some r
      → IsStranger r
      → Untouched reg (accept system current_id input reg)
  unfolding accept
  accept-refuses_stranger current_id reg r in_file stranger = refuses.run reg refl
    where
      id : Bytes
      id = input.request.invite_id

      loaded_stranger : (a : Record) → Loaded system reg.invites id a → IsStranger a
      loaded_stranger a l =
          let same = some-injective r l.stored (sym in_file ∙ l.in_file) in
          by_case (subst IsStranger same stranger)
        where
          by_case : IsStranger l.stored → IsStranger a
          by_case (inl (e, differs)) = inl (rw (← l.same_status) e, λ n. differs (l.same_nonce ∙ n))
          by_case (inr (e, differs)) = inr (
            rw (← l.same_status) e,
            λ n. differs (
                l.same_client
                ∙ n
                ∙ ap
                    (λ (i : Bytes).
                      client_id_for system.clients.sha256_hex i
                        (trim_space input.request.public_key))
                    (sym l.same_id)),
          )

      refuses : Refuses reg.invites (accept system current_id input)
      refuses = refuse_lift_then _ _ (λ _. refuse_lift _ _ (λ published _.
          refuse_bind _ _ (time_or_now-Quiet system input.now) (time_or_now-Still system input.now)
            (λ now _. refuse_then _ _ (lock_invite-Quiet system id) (lock_invite-Still system id) (
              refuse_bind _ _ (or_else-Quiet _ _ (load-Quiet system id) (raise-Quiet Record _))
                (load_or-Still system id InviteError.unknown_invite)
                (λ a gives.
                  refuse_loaded a published now
                    (loaded_stranger a (load-Loaded system id a (or_else-Gives _ _ a gives))))))))
