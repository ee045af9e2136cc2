-- ===== src/Invitation/Accepted.antt =====
-- What Accept of internal/enrollment/accept.go changes of the invitations.
use warptweet.Prelude.{
  ℤ, Bool, true, false, not, ◌||◌, [], Bytes, equal, equal_iff, if◌then◌else◌, Option, some, ◌≡◌,
  refl, sym, ◌∙◌, arith,
}
use mathlib.Core.Path.{subst}
use warptweet.Grant.Time.{Time, Stamp, before}
use warptweet.Locator.Endpoint.{PublishedEndpointSet}
use warptweet.Enrollment.Texts.{trim_space}
use warptweet.Enrollment.Client.{ClientRecord}
use warptweet.Enrollment.Store.{load_client}
use warptweet.Grant.Duration.{authorization_not_after}
use warptweet.Invitation.Invite.{Record, int_is}
use warptweet.Invitation.Store.{
  InviteSystem, InviteError, Action, pure, raise, lift, ◌>>=◌, ◌>>◌, raise_if, on_clients, wrapped,
}
use warptweet.Invitation.Request.{AcceptInput, AcceptResult, client_id_for, check_binding}
use warptweet.Invitation.Use.{is_consumed, consume, expire_record, invite_expiry}
use warptweet.Invitation.Resume.{install, accepted_as, accepted_result, resume_accepted_enrollment}
use warptweet.Invitation.Accept.{
  want_client, consume_as, accept_client, accept_until, accept_before, accept_issued, accept_loaded,
  accept,
}
use warptweet.Invitation.Moves.{
  Invites, InPlace, From, from_bind, from_wrote, from_then, from_pure, lift-Quiet, on_clients-Quiet,
  or_else-Quiet, raise-Quiet, raise_if-Quiet, lock_invite-Quiet, time_or_now-Quiet, load-Quiet,
  Loaded, load-Loaded, or_else-Gives,
}
use warptweet.Invitation.Changes.{from_time, from_check}
use warptweet.Invitation.Uses.{Consumed, consume-From, from_expire}
use warptweet.Invitation.Quiet.{
  install-Quiet, from_installer, store_or_resume-Quiet, activate-Quiet,
}

-- An accepted request for a key: the invitation was issued and is consumed now, or it had been
-- consumed before, in either case by the client of that key.
pub data Accepts (sha256_hex : Bytes → Bytes) (f : Invites) (id key : Bytes) (g : Invites)
    : Type 0 where
  uses :
      (r : Record)
      → Consumed f id (client_id_for sha256_hex id key) r g
      → Accepts sha256_hex f id key g
  again :
      (r : Record)
      → f id ≡ some r
      → is_consumed r.status ≡ true
      → r.client_id ≡ client_id_for sha256_hex id key
      → g ≡ f
      → Accepts sha256_hex f id key g

abbrev pub Accepting :
    {H E : Type 0} → InviteSystem H E → Invites → Bytes → Bytes → Action H E AcceptResult → Type 0
Accepting system f id key m = From f m (λ _ g. Accepts system.clients.sha256_hex f id key g)

module _ {H E : Type 0} (system : InviteSystem H E) (input : AcceptInput H E) (a : Record)
    (published : PublishedEndpointSet) (client_id key : Bytes) (now : Time) (stamp : Stamp) where
  want_id : (want_client system input a published client_id key now stamp).client_id ≡ client_id
  unfolding want_client
  want_id = refl

  want_key : (want_client system input a published client_id key now stamp).public_key ≡ key
  unfolding want_client
  want_key = refl

module _ {H E : Type 0} (system : InviteSystem H E) {f : Invites} (in_place : InPlace f)
    {id : Bytes} where
  module _ (a : Record) (loaded : Loaded system f id a) (same_id : a.invite.invite_id ≡ id)
      (key : Bytes) (client_id : Bytes)
      (is_for : client_id ≡ client_id_for system.clients.sha256_hex id key) where
    consume_as-From :
        (now : Time) (accepted_at : Bytes) (not_after : Option Stamp) (seconds : ℤ)
        (published : PublishedEndpointSet)
        → Accepting system f id key
            (consume_as system a client_id key now accepted_at not_after seconds published)
    unfolding consume_as accepted_as pure
    consume_as-From now accepted_at not_after seconds published =
        from_wrote _ _ _
          (subst (λ (i : Bytes). From f (consume system i client_id now) (Consumed f id client_id))
            (sym same_id) (consume-From system in_place id client_id now))
          (λ r reg c. uses r (subst (λ (k : Bytes). Consumed f id k r reg.invites) is_for c))

    resume-From :
        (input : AcceptInput H E)
        → is_consumed a.status ≡ true
        → Accepting system f id key (resume_accepted_enrollment system input a client_id key)
    unfolding resume_accepted_enrollment accepted_result accepted_as
    resume-From input e = from_check _ _ _ (λ same_client.
        from_bind _ _
          (or_else-Quiet (on_clients (load_client client_id)) (raise InviteError.no_client_state)
            (on_clients-Quiet (load_client client_id)) (raise-Quiet ClientRecord _))
          (λ client _. from_then _ _ (raise_if-Quiet _ _) (
            from_installer input.install_authorization _ (λ i. from_bind _ _ (lift-Quiet _) (λ t _.
              from_then _ _ (install-Quiet i key t) (
                from_pure _ (
                  again (loaded.stored) (loaded.in_file) (rw (loaded.same_status) e)
                    (loaded.same_client ∙ of_client same_client ∙ is_for) refl)))))))
      where
        of_client :
            (not (equal a.client_id client_id) || equal input.clients_directory []) ≡ false
            → a.client_id ≡ client_id
        of_client e = (equal_iff a.client_id client_id).0 (ground arith)

    accept_client-From :
        (i : Bytes → Time → H → H × Option E) (want : ClientRecord) (now : Time)
        (published : PublishedEndpointSet)
        → want.client_id ≡ client_id
        → want.public_key ≡ key
        → Accepting system f id key (accept_client system a i want now published)
    unfolding accept_client
    accept_client-From i want now published same_client same_key =
        from_bind _ _ (store_or_resume-Quiet system want) (λ client _.
          from_bind _ _ (lift-Quiet _) (λ t _. from_then _ _ (install-Quiet i want.public_key t) (
            from_then _ _ (activate-Quiet system client) (
              rw (same_client, same_key)
                (consume_as-From now client.accepted_at client.authorization_not_after
                  client.authorization_duration_seconds published)))))

    accept_until-From :
        (input : AcceptInput H E) (published : PublishedEndpointSet) (now : Time)
        (i : Bytes → Time → H → H × Option E) (end : Time × Stamp)
        → Accepting system f id key (accept_until system input a published client_id key now i end)
    unfolding accept_until
    accept_until-From input published now i (t, stamp) = by_directory _
      where
        by_directory :
            (b : Bool)
            → Accepting system f id key (
                if b
                then accept_client system a i
                    (want_client system input a published client_id key now stamp)
                    now
                    published
                else (install i key t
                    >> consume_as system a client_id key now
                        (system.format_nano now)
                        (some stamp)
                        a.invite.authorization_duration_seconds
                        published))
        by_directory true =
            accept_client-From i (want_client system input a published client_id key now stamp) now
              published (want_id system input a published client_id key now stamp)
              (want_key system input a published client_id key now stamp)
        by_directory false = from_then _ _ (install-Quiet i key t) (
            consume_as-From now (system.format_nano now) (some stamp)
              a.invite.authorization_duration_seconds published)

    accept_issued-From :
        (input : AcceptInput H E) (published : PublishedEndpointSet) (now : Time)
        → Accepting system f id key (accept_issued system input a published client_id key now)
    unfolding accept_issued accept_before
    accept_issued-From input published now = from_then _ _ (lift-Quiet (check_binding input a)) (
        from_time (invite_expiry system a) _ (λ expires.
          from_installer input.install_authorization _ (λ i. by_due i (not (before now expires)))))
      where
        by_due :
            (i : Bytes → Time → H → H × Option E) (b : Bool)
            → Accepting system f id key (
                if b then expire_record system a.invite.invite_id a else (do
                  raise_if
                      (int_is 0 a.invite.authorization_duration_seconds)
                      InviteError.no_duration
                  end ← lift (
                      wrapped InviteError.bad_not_after
                        (authorization_not_after now a.invite.authorization_duration_seconds))
                  accept_until system input a published client_id key now i end))
        by_due i true =
            subst (λ (k : Bytes). Accepting system f id key (expire_record system k a))
              (sym same_id) (from_expire system a same_id)
        by_due i false =
            from_then _ _ (raise_if-Quiet _ _)
              (from_bind _ _ (lift-Quiet _) (λ end _. accept_until-From input published now i end))

module _ {H E : Type 0} (system : InviteSystem H E) {f : Invites} (in_place : InPlace f) where
  -- Accept, of the request's invitation and key.
  pub accept-From :
      (current_id : Bytes) (input : AcceptInput H E)
      → Accepting system f input.request.invite_id
          (trim_space input.request.public_key)
          (accept system current_id input)
  unfolding accept accept_loaded
  accept-From current_id input = from_then _ _ (lift-Quiet _) (
      from_bind _ _ (lift-Quiet _) (λ published _.
        from_bind _ _ (time_or_now-Quiet system input.now) (λ now _.
          from_then _ _ (lock_invite-Quiet system input.request.invite_id) (
            from_bind _ _
              (or_else-Quiet _ _ (load-Quiet system input.request.invite_id) (raise-Quiet Record _))
              (λ a gives. from_bind _ _ (lift-Quiet _) (λ record_set _.
                from_then _ _ (raise_if-Quiet _ _) (
                  by_load published now a (
                    load-Loaded system input.request.invite_id a (or_else-Gives _ _ a gives)))))))))
    where
      id : Bytes
      id = input.request.invite_id

      key : Bytes
      key = trim_space input.request.public_key

      by_consumed :
          (published : PublishedEndpointSet) (now : Time) (a : Record)
          → Loaded system f id a
          → a.invite.invite_id ≡ id
          → (b : Bool) → is_consumed a.status ≡ b
          → Accepting system f id key (
              if b
              then resume_accepted_enrollment system input a
                  (client_id_for system.clients.sha256_hex a.invite.invite_id
                    (trim_space input.request.public_key))
                  (trim_space input.request.public_key)
              else accept_issued system input a published
                  (client_id_for system.clients.sha256_hex a.invite.invite_id
                    (trim_space input.request.public_key))
                  (trim_space input.request.public_key)
                  now)
      by_consumed published now a l e true c =
          resume-From system in_place a l e _ _ (rw e refl) input c
      by_consumed published now a l e false c =
          accept_issued-From system in_place a l e _ _ (rw e refl) input published now

      by_load :
          (published : PublishedEndpointSet) (now : Time) (a : Record)
          → Loaded system f id a
          → Accepting system f id key (
              if is_consumed a.status
              then resume_accepted_enrollment system input a
                  (client_id_for system.clients.sha256_hex a.invite.invite_id
                    (trim_space input.request.public_key))
                  (trim_space input.request.public_key)
              else accept_issued system input a published
                  (client_id_for system.clients.sha256_hex a.invite.invite_id
                    (trim_space input.request.public_key))
                  (trim_space input.request.public_key)
                  now)
      by_load published now a l =
          by_consumed published now a l (sym l.same_id ∙ in_place id l.stored l.in_file)
            (is_consumed a.status) refl
