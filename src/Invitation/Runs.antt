-- ===== src/Invitation/Runs.antt =====
-- Runs of the operations on the invitations of a host: internal/enrollment/invite.go, accept.go.
use warptweet.Prelude.{ℕ, List, [], ◌∷◌, Bytes, Result, ok, err, ◌≡◌, refl, sym, ◌∙◌}
use warptweet.Grant.Time.{Time}
use warptweet.Enrollment.Texts.{trim_space}
use warptweet.Enrollment.Store.{World}
use warptweet.Invitation.Invite.{Invite, Record, new_record}
use warptweet.Invitation.Store.{Registry, InviteSystem, InviteError, store}
use warptweet.Invitation.Request.{AcceptInput, AcceptResult, client_id_for}
use warptweet.Invitation.Use.{cancel, revoke_loaded, unused_turn}
use warptweet.Invitation.Accept.{accept}
use warptweet.Invitation.Moves.{Invites, Move, InPlace, Post}
use warptweet.Invitation.Changes.{Moved}
use warptweet.Invitation.Uses.{cancel-From, revoke_loaded-From, store-From, unused_turn-From}
use warptweet.Invitation.Accepted.{Accepts, accept-From}
use warptweet.Invitation.Held.{
  Accepted, Held, Held-one, Held-Move, Held-Accepts, InPlace-Move, InPlace-Accepts, WasAccepted,
  EachFor-accepted, Held-none,
}

-- What may happen to a registry. Revoke and UnusedIssuedForGeneration take no lock, so what follows
-- their reading of a record is an operation of its own, with any record that they may have read.
-- The other operations on clients may change their world.
pub data Operation (H E : Type 0) : Type 0 where
  stores : Invite → Operation H E
  accepts : AcceptInput H E → Operation H E
  cancels : Bytes → Time → Operation H E
  revokes : Time → Record → Operation H E
  lists : ℕ → Time → Record → Operation H E
  changes_clients : (World H → World H) → Operation H E

-- The key of the request is kept, if the request is answered with success.
abbrev pub accepted_in :
    {H E : Type 0}
    → Bytes
    → Bytes
    → Accepted
    → Registry H × Result (InviteError E) AcceptResult
    → Registry H × Accepted
accepted_in id key done (reg, ok result) = (reg, (id, key) ∷ done)
accepted_in id key done (reg, err e) = (reg, done)

module _ {H E : Type 0} (system : InviteSystem H E) (current_id : Bytes) where
  abbrev pub step : Operation H E → Registry H × Accepted → Registry H × Accepted
  step (stores invite) (reg, done) = ((store system (new_record invite) reg).0, done)
  step (accepts input) (reg, done) =
      accepted_in input.request.invite_id (trim_space input.request.public_key) done
        (accept system current_id input reg)
  step (cancels id now) (reg, done) = ((cancel system id now reg).0, done)
  step (revokes now loaded) (reg, done) =
      ((revoke_loaded system loaded.invite.invite_id now loaded reg).0, done)
  step (lists generation now loaded) (reg, done) =
      ((unused_turn system generation now loaded reg).0, done)
  step (changes_clients f) (reg, done) = (record reg { world = f reg.world }, done)

  -- From the last operation back to the first.
  abbrev pub run : List (Operation H E) → Registry H → Registry H × Accepted
  run [] start = (start, [])
  run (op ∷ ops) start = step op (run ops start)

Post-Move :
    {H E A : Type 0} (f : Invites) (x : Registry H × Result (InviteError E) A)
    → Post f (Moved f) x
    → Move f x.0.invites
Post-Move f (reg, ok a) m = m
Post-Move f (reg, err bad) m = m

-- What a run keeps: the files are in their places, and what was accepted fits each of them.
record Sole (sha256_hex : Bytes → Bytes) (f : Invites) (done : Accepted) : Type 0 where
  in_place : InPlace f
  held : (id : Bytes) → Held sha256_hex id (f id) done

module _ {H E : Type 0} (system : InviteSystem H E) (current_id : Bytes) where
  abbrev sha : Bytes → Bytes
  sha = system.clients.sha256_hex

  Sole-Move : (f g : Invites) (done : Accepted) → Move f g → Sole sha f done → Sole sha g done
  Sole-Move f g done m s = record {
    in_place = InPlace-Move f g m s.in_place;
    held = λ id. Held-Move sha id f g done m (s.held id);
  }

  Sole-Accepts :
      (reg : Registry H) (id key : Bytes) (done : Accepted)
      (x : Registry H × Result (InviteError E) AcceptResult)
      → Post reg.invites (λ _ g. Accepts sha reg.invites id key g) x
      → Sole sha reg.invites done
      → Sole sha (accepted_in id key done x).0.invites (accepted_in id key done x).1
  Sole-Accepts reg id key done (reg', ok result) a s = record {
    in_place = InPlace-Accepts sha reg.invites reg'.invites id key a s.in_place;
    held = λ i. Held-Accepts sha i reg.invites reg'.invites id key done a (s.held i);
  }
  Sole-Accepts reg id key done (reg', err bad) m s = Sole-Move reg.invites reg'.invites done m s

  step-Sole :
      (op : Operation H E) (reg : Registry H) (done : Accepted)
      → Sole sha reg.invites done
      → Sole sha
          (step system current_id op (reg, done)).0.invites
          (step system current_id op (reg, done)).1
  step-Sole (stores invite) reg done s =
      Sole-Move reg.invites (store system (new_record invite) reg).0.invites done
        (Post-Move reg.invites (store system (new_record invite) reg)
          ((store-From system invite).run reg refl))
        s
  step-Sole (accepts input) reg done s =
      Sole-Accepts reg input.request.invite_id (trim_space input.request.public_key) done
        (accept system current_id input reg)
        ((accept-From system s.in_place current_id input).run reg refl) s
  step-Sole (cancels id now) reg done s =
      Sole-Move reg.invites (cancel system id now reg).0.invites done
        (Post-Move reg.invites (cancel system id now reg)
          ((cancel-From system s.in_place id now).run reg refl))
        s
  step-Sole (revokes now loaded) reg done s =
      Sole-Move reg.invites (revoke_loaded system loaded.invite.invite_id now loaded reg).0.invites
        done
        (Post-Move reg.invites (revoke_loaded system loaded.invite.invite_id now loaded reg)
          ((revoke_loaded-From system loaded refl now).run reg refl))
        s
  step-Sole (lists generation now loaded) reg done s =
      Sole-Move reg.invites (unused_turn system generation now loaded reg).0.invites done
        (Post-Move reg.invites (unused_turn system generation now loaded reg)
          ((unused_turn-From system generation now loaded).run reg refl))
        s
  step-Sole (changes_clients f) reg done s = s

  run-Sole :
      (ops : List (Operation H E)) (start : Registry H)
      → InPlace start.invites
      → Sole sha (run system current_id ops start).0.invites (run system current_id ops start).1
  run-Sole [] start in_place = record {
    in_place = in_place;
    held = λ id. Held-none sha id (start.invites id);
  }
  run-Sole (op ∷ ops) start in_place =
      step-Sole op (run system current_id ops start).0 (run system current_id ops start).1
        (run-Sole ops start in_place)

  -- All requests that are answered with success for one invitation are for keys with the same
  -- client id, the digest of the invitation's id and the key: of any sequence of operations on the
  -- invitations of a host, each of which may fail and may write before it fails, and whatever
  -- Revoke and UnusedIssuedForGeneration had read before. The keys are those of the requests,
  -- without the white space around them. The files of the host are in their places at first. A key
  -- that an Accept has installed before it failed does not count.
  pub run-one_client :
      (ops : List (Operation H E)) (start : Registry H) (id key key' : Bytes)
      → InPlace start.invites
      → WasAccepted id key (run system current_id ops start).1
      → WasAccepted id key' (run system current_id ops start).1
      → client_id_for system.clients.sha256_hex id key
        ≡ client_id_for system.clients.sha256_hex id key'
  run-one_client ops start id key key' in_place h h' =
      let s = run-Sole ops start in_place in
      let done = (run system current_id ops start).1 in
      let (c, one) =
        Held-one sha id ((run system current_id ops start).0.invites id) done (s.held id) in
      EachFor-accepted id (λ k. client_id_for sha id k ≡ c) key done one h
      ∙ sym (EachFor-accepted id (λ k. client_id_for sha id k ≡ c) key' done one h')
