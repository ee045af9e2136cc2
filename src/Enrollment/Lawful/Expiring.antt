-- ===== src/Enrollment/Lawful/Expiring.antt =====
-- What `ExecuteExpire` does for a client, along its events.
use warptweet.Prelude.{
  Bool, true, false, [], Bytes, equal_refl, Option, none, some, Result, ok, err, ◌≡◌, refl,
}
use warptweet.Grant.Status.{expiration_pending, TransitionError, authorize_transition}
use warptweet.Grant.Status.Paths.{is_ending}
use warptweet.Grant.Time.{Time}
use warptweet.Grant.Expire.{
  ExpireError, Step, go_on, then_do, run_ops, run_complete, allowed_then, valid_then,
  execute_expire, validate_expire_plan, remove_authorization, terminate_session,
  verify_authorization, verify_session, burn_token,
}
use warptweet.Enrollment.Client.{ClientRecord}
use warptweet.Enrollment.Store.{Event, removed, terminated, verified, World}
use warptweet.Enrollment.Expire.{
  Expiry, Burning, happened, on_key, on_session, looked, on_look, burned, on_burn, wrapped, ran,
  execute, plan_of,
}
use warptweet.Enrollment.Lawful.{effect_on, At, Lawful, Post, From}
use warptweet.Enrollment.Lawful.Steps.{At-host, At-event, At-Lawful}
use warptweet.Enrollment.Lawful.Ending.{may_remove-own, may_end-own}

module _ {H E : Type 0} (asks : Bool) (start : ClientRecord) (id : Bytes) (c : ClientRecord) where
  -- What `ExecuteExpire` leaves: the key removed and the sessions gone, or an error in a lawful
  -- world.
  Ended : Burning H × Result (ExpireError E) (Unit {0}) → Type 0
  Ended (b, ok _) = At asks start id c true true b.0
  Ended (b, err e) = Lawful asks start id b.0

module _ (asks : Bool) (c : ClientRecord) (ending : is_ending c.status ≡ true) where
  effect_on-removed :
      (r g : Bool)
      → effect_on asks
          (removed c.public_key true)
          (record { stored = c; removed_key = r; gone = g })
        ≡ some (record { stored = c; removed_key = true; gone = g })
  unfolding effect_on
  effect_on-removed true g = rw (may_remove-own c ending) refl
  effect_on-removed false g = rw (may_remove-own c ending, equal_refl c.public_key) refl

  effect_on-not_removed :
      (r g : Bool)
      → effect_on asks
          (removed c.public_key false)
          (record { stored = c; removed_key = r; gone = g })
        ≡ some (record { stored = c; removed_key = r; gone = g })
  unfolding effect_on
  effect_on-not_removed true g = rw (may_remove-own c ending) refl
  effect_on-not_removed false g = rw (may_remove-own c ending) refl

  effect_on-terminated :
      (done r g : Bool)
      → effect_on asks
          (terminated c.client_id [] done)
          (record { stored = c; removed_key = r; gone = g })
        ≡ some (record { stored = c; removed_key = r; gone = g })
  unfolding effect_on
  effect_on-terminated done r g = rw (may_end-own c ending) refl

  effect_on-verified :
      (g : Bool)
      → effect_on asks
          (verified c.client_id [] true)
          (record { stored = c; removed_key = true; gone = g })
        ≡ some (record { stored = c; removed_key = true; gone = true })
  unfolding effect_on
  effect_on-verified true = rw (may_end-own c ending) refl
  effect_on-verified false = rw (may_end-own c ending) refl

  effect_on-not_verified :
      (g : Bool)
      → effect_on asks
          (verified c.client_id [] false)
          (record { stored = c; removed_key = true; gone = g })
        ≡ some (record { stored = c; removed_key = true; gone = g })
  unfolding effect_on
  effect_on-not_verified true = rw (may_end-own c ending) refl
  effect_on-not_verified false = rw (may_end-own c ending) refl

module _ {H E : Type 0} {asks : Bool} {start : ClientRecord} {id : Bytes} {c : ClientRecord} where
  after_event :
      (event : Bool → Event) (step : Step) (f : H → H × Option E)
      (next : Burning H → Burning H × Result (ExpireError E) (Unit {0})) (r g r' g' r'' g'' : Bool)
      {w : World H} (hash : Bytes)
      → effect_on asks (event true) (record { stored = c; removed_key = r; gone = g })
        ≡ some (record { stored = c; removed_key = r'; gone = g' })
      → effect_on asks (event false) (record { stored = c; removed_key = r; gone = g })
        ≡ some (record { stored = c; removed_key = r''; gone = g'' })
      → At asks start id c r g w
      → ((w : World H) → At asks start id c r' g' w → Ended asks start id c (next (w, hash)))
      → Ended asks start id c
          (then_do (Burning H) E step (λ b. happened event b (f b.0.host)) next (w, hash))
  unfolding Ended then_do
  after_event event step f next r g r' g' r'' g'' {w} hash done failed at rest = outcome (f w.host)
    where
      outcome :
          (x : H × Option E)
          → Ended asks start id c (go_on (Burning H) E step next (happened event (w, hash) x))
      outcome (h, none) = rest _ (At-event asks start id c r g at h (event true) r' g' done)
      outcome (h, some e) =
          At-Lawful asks start id c r'' g''
            (At-event asks start id c r g at h (event false) r'' g'' failed)

  after_look :
      (step : Step) (f : H → H × Option E)
      (next : Burning H → Burning H × Result (ExpireError E) (Unit {0})) (r g : Bool) {w : World H}
      (hash : Bytes)
      → At asks start id c r g w
      → ((w : World H) → At asks start id c r g w → Ended asks start id c (next (w, hash)))
      → Ended asks start id c
          (then_do (Burning H) E step (λ b. looked b (f b.0.host)) next (w, hash))
  unfolding Ended then_do
  after_look step f next r g {w} hash at rest = outcome (f w.host)
    where
      outcome :
          (x : H × Option E)
          → Ended asks start id c (go_on (Burning H) E step next (looked (w, hash) x))
      outcome (h, none) = rest _ (At-host asks start id c r g at h)
      outcome (h, some e) = At-Lawful asks start id c r g (At-host asks start id c r g at h)

  after_burn :
      (f : H → H × Result E Bytes) {w : World H} (hash : Bytes)
      → At asks start id c true true w
      → Ended asks start id c (
          then_do (Burning H) E burn_token (λ b. burned b (f b.0.host)) (λ b. (b, ok tt)) (w, hash))
  unfolding Ended then_do
  after_burn f {w} hash at = outcome (f w.host)
    where
      outcome :
          (x : H × Result E Bytes)
          → Ended asks start id c
              (go_on (Burning H) E burn_token (λ b. (b, ok tt)) (burned (w, hash) x))
      outcome (h, ok new) = At-host asks start id c true true at h
      outcome (h, err e) =
          At-Lawful asks start id c true true (At-host asks start id c true true at h)

  module _ (not_after now : Time) (ending : is_ending c.status ≡ true) (r g : Bool) (w : World H)
      (at : At asks start id c r g w) where
    run_ops-Ended :
        (remove verify_removed : Bytes → H → H × Option E)
        (terminate verify_terminated : Bytes → Bytes → Bytes → H → H × Option E)
        (burn : H → H × Result E Bytes)
        → Ended asks start id c (
            run_ops
              (Burning H)
              E
              (plan_of c not_after now)
              (λ key b. happened (removed key) b (remove key b.0.host))
              (λ client generation key b.
                happened (terminated client key) b (terminate client generation key b.0.host))
              (λ key b. looked b (verify_removed key b.0.host))
              (λ client generation key b.
                happened (verified client key) b (verify_terminated client generation key b.0.host))
              (λ b. burned b (burn b.0.host))
              (w, []))
    unfolding run_ops plan_of
    run_ops-Ended remove verify_removed terminate verify_terminated burn =
        after_event (removed c.public_key) remove_authorization (remove c.public_key) _ r g true g r
          g _ (effect_on-removed asks c ending r g) (effect_on-not_removed asks c ending r g) at
          (λ w at.
            after_event (terminated c.client_id []) terminate_session (terminate c.client_id [] [])
              _ true g true g true g _ (effect_on-terminated asks c ending true true g)
              (effect_on-terminated asks c ending false true g) at
              (λ w at.
                after_look verify_authorization (verify_removed c.public_key) _ true g _ at (λ w at.
                  after_event (verified c.client_id []) verify_session
                    (verify_terminated c.client_id [] []) _ true g true true true g _
                    (effect_on-verified asks c ending g) (effect_on-not_verified asks c ending g) at
                    (λ w at. after_burn burn _ at))))

    run_complete-Ended :
        (remove verify_removed : Option (Bytes → H → H × Option E))
        (terminate verify_terminated : Option (Bytes → Bytes → Bytes → H → H × Option E))
        (burn : H → H × Result E Bytes)
        → Ended asks start id c (
            run_complete
              (Burning H)
              E
              (plan_of c not_after now)
              (on_key removed remove)
              (on_look verify_removed)
              (on_session terminated terminate)
              (on_session verified verify_terminated)
              (some (on_burn burn))
              (w, []))
    unfolding Ended
    run_complete-Ended (some rm) (some vr) (some t) (some vt) b = run_ops-Ended rm vr t vt b
    run_complete-Ended _ _ _ _ _ = At-Lawful asks start id c r g at

    execute_expire-Ended :
        (ops : Expiry H E)
        → Ended asks start id c
            (execute_expire (Burning H) E (plan_of c not_after now) (wrapped ops) (w, []))
    unfolding Ended execute_expire wrapped valid_then allowed_then
    execute_expire-Ended ops =
        by_plan (validate_expire_plan (plan_of c not_after now))
          (authorize_transition (plan_of c not_after now).status expiration_pending)
      where
        by_plan :
            (v : Result (ExpireError E) (Unit {0})) (a : Result TransitionError (Unit {0}))
            → Ended asks start id c (
                valid_then
                  (Burning H)
                  E
                  v
                  (allowed_then (Burning H) E a (
                    run_complete
                      (Burning H)
                      E
                      (plan_of c not_after now)
                      (on_key removed ops.remove)
                      (on_look ops.verify_removed)
                      (on_session terminated ops.terminate)
                      (on_session verified ops.verify_terminated)
                      (some (on_burn ops.burn))))
                  (w, []))
        by_plan (ok _) (ok _) =
            run_complete-Ended ops.remove ops.verify_removed ops.terminate ops.verify_terminated
              ops.burn
        by_plan (ok _) (err e) = At-Lawful asks start id c r g at
        by_plan (err e) _ = At-Lawful asks start id c r g at

  pub from_execute :
      (ops : Expiry H E) (not_after now : Time) (r g : Bool)
      → is_ending c.status ≡ true
      → From asks start id c r g
          (execute (plan_of c not_after now) ops)
          (λ _. At asks start id c true true)
  unfolding Ended execute
  from_execute ops not_after now r g ending = record {
    run = λ w at. outcome _ (execute_expire-Ended not_after now ending r g w at ops);
  }
    where
      outcome :
          (x : Burning H × Result (ExpireError E) (Unit {0}))
          → Ended asks start id c x
          → Post asks start id (λ _. At asks start id c true true) (ran x)
      outcome (b, ok _) p = p
      outcome (b, err e) p = p
