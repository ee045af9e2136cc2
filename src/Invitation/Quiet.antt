-- ===== src/Invitation/Quiet.antt =====
-- The steps of internal/enrollment/accept.go that write no invitation.
use warptweet.Prelude.{
  Bool, true, false, Bytes, if◌then◌else◌, Option, none, some, Result, ok, err, ◌≡◌, refl, ◌∙◌,
}
use warptweet.Grant.Status.{same, active, enrollment_pending}
use warptweet.Grant.Time.{Time}
use warptweet.Enrollment.Client.{ClientRecord}
use warptweet.Enrollment.Store.{load_client, store_client, update_client}
use warptweet.Invitation.Store.{
  Registry, InviteSystem, InviteError, Action, pure, raise, ◌>>=◌, ◌>>◌, on_clients,
}
use warptweet.Invitation.Resume.{
  install, installed_in, required_installer, resume_pending, stored_or,
  store_or_resume_pending_client,
}
use warptweet.Invitation.Accept.{activate}
use warptweet.Invitation.Moves.{
  Invites, From, Quiet, from_bind, bind-Quiet, on_clients-Quiet, or_else-Quiet, raise-Quiet,
  raise_if-Quiet,
}

module _ {H E : Type 0} where
  pub install-Quiet :
      (f : Bytes → Time → H → H × Option E) (key : Bytes) (t : Time) → Quiet (install f key t)
  unfolding install
  install-Quiet f key t reg = by_call (f key t reg.world.host)
    where
      by_call : (x : H × Option E) → (installed_in key t reg x).0.invites ≡ reg.invites
      by_call (h, none) = refl
      by_call (h, some e) = refl

  pub from_installer :
      {B : Type 0} {f : Invites} {P : B → Invites → Type 0}
      (o : Option (Bytes → Time → H → H × Option E))
      (k : (Bytes → Time → H → H × Option E) → Action H E B)
      → ((i : Bytes → Time → H → H × Option E) → From f (k i) P)
      → From f (required_installer o >>= k) P
  unfolding pure raise
  from_installer none k go =
      from_bind (required_installer none) k (λ reg. refl) (λ t (reg, e, r). cc)
  from_installer (some i) k go =
      from_bind (required_installer (some i)) k (λ reg. refl) (λ i' _. go i')

module _ {H E : Type 0} (system : InviteSystem H E) where
  resume_pending-Quiet :
      (want : ClientRecord) (e : InviteError E) → Quiet (resume_pending system want e)
  unfolding resume_pending ◌>>◌ pure
  resume_pending-Quiet want e =
      bind-Quiet _ _
        (or_else-Quiet (on_clients (load_client want.client_id)) (raise e)
          (on_clients-Quiet (load_client want.client_id)) (raise-Quiet ClientRecord e))
        (λ existing. bind-Quiet _ (λ _. pure existing) (raise_if-Quiet _ _) (λ _ reg. refl))

  pub store_or_resume-Quiet :
      (want : ClientRecord) → Quiet (store_or_resume_pending_client system want)
  unfolding store_or_resume_pending_client
  store_or_resume-Quiet want reg =
      by_stored (on_clients (store_client system.clients want) reg)
        (on_clients-Quiet (store_client system.clients want) reg)
    where
      by_stored :
          (x : Registry H × Result (InviteError E) (Unit {0}))
          → x.0.invites ≡ reg.invites
          → (stored_or system want x).0.invites ≡ reg.invites
      by_stored (reg', ok a) e = e
      by_stored (reg', err bad) e = resume_pending-Quiet want bad reg' ∙ e

  pub activate-Quiet : (client : ClientRecord) → Quiet (activate system client)
  unfolding activate pure
  activate-Quiet client reg = by_status (same client.status enrollment_pending)
    where
      by_status :
          (b : Bool)
          → ((if b
                then on_clients (update_client system.clients (record client { status = active }))
                else pure tt)
              reg).0.invites
            ≡ reg.invites
      by_status true =
          on_clients-Quiet (update_client system.clients (record client { status = active })) reg
      by_status false = refl
