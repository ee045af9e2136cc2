-- ===== src/Invitation/Authorized.antt =====
-- What a host has authorized when it accepts an enrollment: internal/enrollment/accept.go.
use warptweet.Prelude.{
  ℤ, Bool, true, false, not, List, [], Bytes, equal, equal_iff, if◌then◌else◌, Option, none, some,
  Result, ok, err, ◌≡◌, refl, ap, sym, arith,
}
use mathlib.Core.Path.{subst}
use warptweet.Grant.Status.{active, enrollment_pending}
use warptweet.Grant.Time.{Time, Stamp, before}
use warptweet.Grant.Duration.{authorization_not_after}
use warptweet.Locator.Endpoint.{PublishedEndpointSet}
use warptweet.Enrollment.Texts.{trim_space}
use warptweet.Enrollment.Client.{ClientRecord}
use warptweet.Invitation.Invite.{Record, Invite, int_is}
use warptweet.Invitation.Store.{
  Registry, InviteSystem, InviteError, Action, pure, raise, lift, ◌>>=◌, ◌>>◌, raise_if, wrapped,
  ignore,
}
use warptweet.Invitation.Request.{AcceptInput, AcceptResult, client_id_for}
use warptweet.Invitation.Use.{is_consumed, consume, expire_record, invite_expiry}
use warptweet.Invitation.Resume.{
  parse_stamp, required_installer, ok_or, accepted_as, accepted_result, is_retry,
  resume_accepted_enrollment,
}
use warptweet.Invitation.Accept.{
  want_client, consume_as, accept_client, accept_until, accept_before, accept_issued, accept_loaded,
  accept,
}
use warptweet.Invitation.Active.{
  OkPost, Ends, ends_seq, ends_lift, ends_then, ends_check, Files, ClientsInPlace, On, InOrder,
  Still-Ends, require_time-Still, lock_invite-Still, time_or_now-Still, load_or-Still,
  consume-Still,
}
use warptweet.Invitation.Enrolled.{
  Pending, IsLast, load_client-Ends, install-Ends, store_or_resume-Ends, same_active, IsActive,
  activate-Ends,
}

-- The result is for the key, the record of the result's client is active and of the key, and the
-- key is the latest to be installed, until the time that the proof and the record give.
pub record Authorized (key : Bytes) (result : AcceptResult) (files : Files)
    (installs : List (Bytes × Time)) : Type 0 where
  pub of_key : result.public_key ≡ key
  pub client : ClientRecord
  pub in_file : files result.client_id ≡ some client
  pub active_now : client.status ≡ active
  pub key_same : client.public_key ≡ key
  pub until_same : client.authorization_not_after ≡ result.proof.authorization_not_after
  pub until : Time
  pub until_parsed : parse_stamp result.proof.authorization_not_after ≡ ok until
  pub installed_last : IsLast (key, until) installs

wrapped-eq-ok :
    {E X A : Type 0} (wrap : X → InviteError E) (r : Result X A) (a : A)
    → wrapped wrap r ≡ ok a
    → r ≡ ok a
wrapped-eq-ok wrap (ok b) a e = ap (λ x. ok (ok_or a x)) e
wrapped-eq-ok wrap (err bad) a e = cc

module _ {H E : Type 0} where
  ends_installer :
      {B : Type 0} {S : Registry H → Type 0} {P : B → Registry H → Type 0}
      (o : Option (Bytes → Time → H → H × Option E))
      (k : (Bytes → Time → H → H × Option E) → Action H E B)
      → ((i : Bytes → Time → H → H × Option E) → Ends S (k i) P)
      → Ends S (required_installer o >>= k) P
  unfolding pure raise ◌>>=◌
  ends_installer none k go = record { run = λ reg s. tt }
  ends_installer (some i) k go = record { run = λ reg s. (go i).run reg s }

  ends_lift_then :
      {B : Type 0} {S : Registry H → Type 0} {P : B → Registry H → Type 0}
      (r : Result (InviteError E) (Unit {0})) (k : Action H E B)
      → Ends S k P
      → Ends S (lift r >> k) P
  unfolding ◌>>◌
  ends_lift_then r k go = ends_lift r (λ _. k) (λ _ _. go)

  as_result :
      (invite : Invite) (client_id key accepted_at : Bytes) (until : Option Stamp) (seconds : ℤ)
      (published : PublishedEndpointSet) (t : Time)
      → parse_stamp until ≡ ok t
      → Ends {H = H} {E = E}
          (On (λ files installs.
            ((c : ClientRecord) × IsActive client_id key until c files) × IsLast (key, t) installs))
          (pure (accepted_as invite client_id key accepted_at until seconds published))
          (λ result. On (Authorized key result))
  unfolding pure accepted_as
  as_result invite client_id key accepted_at until seconds published t parsed = record {
    run = λ reg ((c, is_active), last). record {
      of_key = refl;
      client = c;
      in_file = is_active.enrolled.in_file;
      active_now = is_active.active_now;
      key_same = is_active.enrolled.key_same;
      until_same = is_active.until_same;
      until = t;
      until_parsed = parsed;
      installed_last = last;
    };
  }

module _ {H E : Type 0} (system : InviteSystem H E) where
  abbrev Authorizing :
      Bytes → (Files → List (Bytes × Time) → Type 0) → Action H E AcceptResult → Type 0
  Authorizing key T m = Ends (On T) m (λ result. On (Authorized key result))

  ends_expired :
      {S : Registry H → Type 0} (key id : Bytes) (a : Record)
      → Ends S (expire_record system {A = AcceptResult} id a) (λ result. On (Authorized key result))
  unfolding expire_record raise ignore ◌>>◌ ◌>>=◌
  ends_expired key id a = record { run = λ reg s. tt }

  accept_client-Ends :
      (a : Record) (i : Bytes → Time → H → H × Option E) (want : ClientRecord) (now : Time)
      (published : PublishedEndpointSet)
      → want.status ≡ enrollment_pending
      → Authorizing want.public_key InOrder (accept_client system a i want now published)
  unfolding accept_client consume_as
  accept_client-Ends a i want now published pending =
      ends_seq _ _ (store_or_resume-Ends system want pending) (λ c. ends_lift _ _ (λ t parsed.
        ends_then _ _
          (install-Ends (λ files. Pending want.client_id want.public_key c files []) i
            want.public_key t)
          (ends_then _ _
            (activate-Ends system want.client_id want.public_key c (IsLast (want.public_key, t)))
            (used c t (wrapped-eq-ok _ (parse_stamp c.authorization_not_after) t parsed)))))
    where
      used :
          (c : ClientRecord) (t : Time)
          → parse_stamp c.authorization_not_after ≡ ok t
          → Ends
              (On (λ files installs.
                ((c' : ClientRecord) × IsActive want.client_id want.public_key
                    c.authorization_not_after c' files)
                × IsLast (want.public_key, t) installs))
              (consume_as system a want.client_id want.public_key now c.accepted_at
                c.authorization_not_after c.authorization_duration_seconds published)
              (λ result. On (Authorized want.public_key result))
      used c t parsed =
          ends_seq _ _
            (Still-Ends
              (λ files installs.
                ((c' : ClientRecord) × IsActive want.client_id want.public_key
                    c.authorization_not_after c' files)
                × IsLast (want.public_key, t) installs)
              (consume system a.invite.invite_id want.client_id now)
              (consume-Still system a.invite.invite_id want.client_id now))
            (λ r.
              as_result r.invite want.client_id want.public_key c.accepted_at
                c.authorization_not_after c.authorization_duration_seconds published t parsed)

  resume-Ends :
      (input : AcceptInput H E) (a : Record) (client_id key : Bytes)
      → Authorizing key InOrder (resume_accepted_enrollment system input a client_id key)
  unfolding resume_accepted_enrollment is_retry accepted_result accepted_as pure
  resume-Ends input a client_id key = ends_check _ _ _ (λ _.
      ends_seq _ _ (load_client-Ends client_id InviteError.no_client_state) (λ c.
        ends_check (not (is_retry system input a key c)) _ _ (λ b.
          ends_installer input.install_authorization _ (λ i. ends_lift _ _ (λ t parsed.
            ends_then _ _
              (install-Ends (λ files. (files client_id ≡ some c) × ClientsInPlace files) i key t)
              (record {
                run = λ reg ((f, h), last). record {
                  of_key = refl;
                  client = c;
                  in_file =
                      subst (λ (k : Bytes). reg.world.files k ≡ some c) (sym (h client_id c f)) f;
                  active_now = same_active c.status (ground arith);
                  key_same = (equal_iff c.public_key key).0 (ground arith);
                  until_same = refl;
                  until = t;
                  until_parsed = wrapped-eq-ok _ (parse_stamp c.authorization_not_after) t parsed;
                  installed_last = last;
                };
              }))))))

  module _ (input : AcceptInput H E) (given : equal input.clients_directory [] ≡ false) (a : Record)
      (published : PublishedEndpointSet) (client_id key : Bytes) (now : Time) where
    accept_until-Ends :
        (i : Bytes → Time → H → H × Option E) (end : Time × Stamp)
        → Authorizing key InOrder (accept_until system input a published client_id key now i end)
    unfolding accept_until want_client
    accept_until-Ends i (t, stamp) = rw given (
        accept_client-Ends a i (want_client system input a published client_id key now stamp) now
          published refl)

    accept_before-Ends :
        (i : Bytes → Time → H → H × Option E) (expires : Time)
        → Authorizing key InOrder
            (accept_before system input a published client_id key now i expires)
    unfolding accept_before
    accept_before-Ends i expires = by_due (not (before now expires))
      where
        by_due :
            (b : Bool)
            → Authorizing key InOrder (
                if b then expire_record system a.invite.invite_id a else (do
                  raise_if
                      (int_is 0 a.invite.authorization_duration_seconds)
                      InviteError.no_duration
                  end ← lift (
                      wrapped InviteError.bad_not_after
                        (authorization_not_after now a.invite.authorization_duration_seconds))
                  accept_until system input a published client_id key now i end))
        by_due true = ends_expired key a.invite.invite_id a
        by_due false = ends_check _ _ _ (λ _. ends_lift _ _ (λ end _. accept_until-Ends i end))

    accept_issued-Ends :
        Authorizing key InOrder (accept_issued system input a published client_id key now)
    unfolding accept_issued
    accept_issued-Ends = ends_lift_then _ _ (
        ends_seq _ _ (Still-Ends InOrder _ (require_time-Still (invite_expiry system a)))
          (λ expires.
            ends_installer input.install_authorization _ (λ i. accept_before-Ends i expires)))

  module _ (input : AcceptInput H E) (given : equal input.clients_directory [] ≡ false) where
    accept_loaded-Ends :
        (published : PublishedEndpointSet) (now : Time) (a : Record)
        → Authorizing
            (trim_space input.request.public_key)
            InOrder
            (accept_loaded system input published now a)
    unfolding accept_loaded
    accept_loaded-Ends published now a =
        ends_lift _ _ (λ record_set _. ends_check _ _ _ (λ _. by_consumed (is_consumed a.status)))
      where
        key : Bytes
        key = trim_space input.request.public_key

        client_id : Bytes
        client_id = client_id_for system.clients.sha256_hex a.invite.invite_id key

        by_consumed :
            (b : Bool)
            → Authorizing key InOrder (
                if b
                then resume_accepted_enrollment system input a client_id key
                else accept_issued system input a published client_id key now)
        by_consumed true = resume-Ends input a client_id key
        by_consumed false = accept_issued-Ends input given a published client_id key now

    accept-Ends :
        (current_id : Bytes)
        → Authorizing (trim_space input.request.public_key) InOrder (accept system current_id input)
    unfolding accept
    accept-Ends current_id = ends_lift_then _ _ (
        ends_lift _ _ (λ published _.
          ends_seq _ _ (Still-Ends InOrder _ (time_or_now-Still system input.now)) (λ now.
            ends_then _ _ (Still-Ends InOrder _ (lock_invite-Still system input.request.invite_id))
              (ends_seq _ _
                (Still-Ends InOrder _
                  (load_or-Still system input.request.invite_id InviteError.unknown_invite))
                (λ a. accept_loaded-Ends published now a)))))

  -- With a directory of clients, whose records are in their places, an enrollment is accepted only
  -- if the result is for the request's key, without the white space around it, the record of the
  -- result's client is active and of that key, and that key is the latest to be installed, until
  -- the time that the proof and the record give; this holds for the first request and for its
  -- exact retries, when some steps had been done before.
  pub accept-Authorized :
      (current_id : Bytes) (input : AcceptInput H E) (reg reg' : Registry H) (result : AcceptResult)
      → equal input.clients_directory [] ≡ false
      → ClientsInPlace reg.world.files
      → accept system current_id input reg ≡ (reg', ok result)
      → Authorized (trim_space input.request.public_key) result reg'.world.files reg'.installs
  accept-Authorized current_id input reg reg' result given h e =
      subst (OkPost (λ result. On (Authorized (trim_space input.request.public_key) result))) e
        ((accept-Ends input given current_id).run reg h)
