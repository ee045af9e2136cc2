-- ===== src/Enrollment/Refused.antt =====
-- How an operation on a client refuses a request: internal/enrollment/clients.go.
pub mod Strangers
use warptweet.Prelude.{
  Bool, true, false, not, Bytes, if◌then◌else◌, Option, none, some, Result, ok, err, ◌≢◌, ◌≡◌, refl,
  ap, sym, ◌∙◌, arith,
}
use mathlib.Core.Path.{subst}
use mathlib.Core.Option.{some-injective}
use warptweet.Grant.Status.{same, revoked}
use warptweet.Grant.Time.{Time}
use warptweet.Enrollment.Texts.{is_hex_id, trim_space}
use warptweet.Enrollment.Client.{
  ClientRecord, ManagementRequest, ClientError, bad_client_id, management_token_matches,
  hash_management_token, constant_time_digest_equal, authenticate_client_record,
}
use warptweet.Enrollment.Store.{
  World, System, Callbacks, Action, pure, raise, lift, and_then, ◌>>=◌, ◌>>◌, raise_if, lock_client,
  load_client, time_or_now, found, outcome_of,
}
use warptweet.Enrollment.Revoke.{authenticate_management, revoke_again, revoke_now, revoke_client}
use warptweet.Enrollment.Rotate.{is_rotated, rotate_again, rotate_now, rotate_client_public_key}

module _ {H E A : Type 0} (w : World H) where
  -- An error, with the files and the events of `w`.
  pub record Untouched (out : World H × Result (ClientError E) A) : Type 0 where
    pub files_same : out.0.files ≡ w.files
    pub log_same : out.0.log ≡ w.log
    pub refused : (e : ClientError E) × (out.1 ≡ err e)

  pub record Refuses (m : Action H E A) : Type 0 where
    pub run : (v : World H) → v.files ≡ w.files → v.log ≡ w.log → Untouched (m v)

module _ {H E : Type 0} {w : World H} where
  refuse :
      {A : Type 0} (v : World H) (e : ClientError E)
      → v.files ≡ w.files
      → v.log ≡ w.log
      → Untouched {A = A} w (v, err e)
  refuse v e f l = record { files_same = f; log_same = l; refused = (e, refl) }

  module _ {B : Type 0} where
    refuse_then :
        (m : Action H E (Unit {0})) (k : Action H E B)
        → ((v : World H)
            → v.files ≡ w.files
            → v.log ≡ w.log
            → Untouched w (and_then (m v) (λ _. k)))
        → Refuses w (m >> k)
    unfolding ◌>>◌ ◌>>=◌
    refuse_then m k go = record { run = go }

    refuse_bind :
        {A : Type 0} (m : Action H E A) (f : A → Action H E B)
        → ((v : World H) → v.files ≡ w.files → v.log ≡ w.log → Untouched w (and_then (m v) f))
        → Refuses w (m >>= f)
    unfolding ◌>>=◌
    refuse_bind m f go = record { run = go }

  module _ {B : Type 0} {k : Action H E B} where
    pub refuse_lift :
        (x : Result (ClientError E) (Unit {0}))
        → (x ≡ ok tt → Refuses w k)
        → Refuses w (lift x >> k)
    unfolding lift
    refuse_lift (ok tt) go = refuse_then (lift (ok tt)) k (λ v f l. (go refl).run v f l)
    refuse_lift (err e) go = refuse_then (lift (err e)) k (λ v f l. refuse v e f l)

    pub refuse_raise :
        (b : Bool) (e : ClientError E) → (b ≡ false → Refuses w k) → Refuses w (raise_if b e >> k)
    unfolding raise_if lift
    refuse_raise true e go = refuse_then (raise_if true e) k (λ v f l. refuse v e f l)
    refuse_raise false e go = refuse_then (raise_if false e) k (λ v f l. (go refl).run v f l)

    pub refuse_lock :
        (system : System H E) (name : Bytes)
        → Refuses w k
        → Refuses w (lock_client system name >> k)
    unfolding lock_client
    refuse_lock system name go =
        refuse_then (lock_client system name) k (λ v f l. by_name v (is_hex_id name) f l)
      where
        outcome :
            (v : World H) (x : H × Option E)
            → v.files ≡ w.files
            → v.log ≡ w.log
            → Untouched w (and_then (outcome_of v x) (λ _. k))
        outcome v (h, none) f l = go.run (record v { host = h }) f l
        outcome v (h, some e) f l = refuse (record v { host = h }) _ f l

        by_name :
            (v : World H) (b : Bool)
            → v.files ≡ w.files
            → v.log ≡ w.log
            → Untouched w (
                and_then
                  (if not b then (v, err bad_client_id) else outcome_of v (system.lock name v.host))
                  (λ _. k))
        by_name v true f l = outcome v (system.lock name v.host) f l
        by_name v false f l = refuse v _ f l

  pub refuse_load :
      {B : Type 0} (name : Bytes) (f : ClientRecord → Action H E B)
      → ((c : ClientRecord) → w.files name ≡ some c → Refuses w (f c))
      → Refuses w (load_client name >>= f)
  unfolding load_client pure raise
  refuse_load {B} name f go =
      refuse_bind (load_client name) f (λ v fs l. by_name v (is_hex_id name) fs l)
    where
      outcome :
          (v : World H) (o : Option ClientRecord)
          → w.files name ≡ o
          → v.files ≡ w.files
          → v.log ≡ w.log
          → Untouched w (and_then (found o v) f)
      outcome v none e fs l = refuse v _ fs l
      outcome v (some c) e fs l = (go c e).run v fs l

      by_name :
          (v : World H) (b : Bool)
          → v.files ≡ w.files
          → v.log ≡ w.log
          → Untouched w
              (and_then (if not b then (v, err bad_client_id) else found (v.files name) v) f)
      by_name v true fs l =
          outcome v (v.files name)
            (ap (λ (files : Bytes → Option ClientRecord). files name) (sym fs)) fs l
      by_name v false fs l = refuse v _ fs l

  pub refuse_time :
      {B : Type 0} (system : System H E) (now : Time) (f : Time → Action H E B)
      → ((now : Time) → Refuses w (f now))
      → Refuses w (time_or_now system now >>= f)
  unfolding time_or_now
  refuse_time system now f go = refuse_bind (time_or_now system now) f (λ v fs l. (go _).run v fs l)
