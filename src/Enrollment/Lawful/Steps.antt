-- ===== src/Enrollment/Lawful/Steps.antt =====
-- The steps that the operations on a client are made of, along their events.
use warptweet.Prelude.{
  Bool, true, false, not, ◌∷◌, Bytes, equal_refl, if◌then◌else◌, Option, none, some, Result, ok,
  err, ◌≡◌, refl, ap, ◌∙◌,
}
use warptweet.Grant.Time.{Time}
use warptweet.Enrollment.Texts.{is_hex_id}
use warptweet.Enrollment.Client.{ClientRecord, ClientError, bad_client_id}
use warptweet.Enrollment.Store.{
  Event, saved, Written, written, unwritten, unsynced, World, System, Action, pure, lift, and_then,
  ◌>>=◌, ◌>>◌, raise_if, raise, call, required, put, write_client_atomic, lock_client, load_client,
  burn, time_or_now, found, finish_write, drawn, outcome_of, logged,
}
use warptweet.Enrollment.Lawful.{may_save, effect_on, go_on, track, At, Holds, Lawful, Post, From}

module _ {H : Type 0} (asks : Bool) (start : ClientRecord) (id : Bytes) (c : ClientRecord)
    (r g : Bool) {w : World H} (at : At asks start id c r g w) where
  -- the host changes, and nothing else
  pub At-host : (h : H) → At asks start id c r g (record w { host = h })
  At-host h = record { in_file = at.in_file; in_place = at.in_place; tracked = at.tracked }

  pub At-event :
      (h : H) (event : Event) (r' g' : Bool)
      → effect_on asks event (record { stored = c; removed_key = r; gone = g })
        ≡ some (record { stored = c; removed_key = r'; gone = g' })
      → At asks start id c r' g' (record w { host = h; log = event ∷ w.log })
  unfolding track
  At-event h event r' g' e = record {
    in_file = at.in_file;
    in_place = at.in_place;
    tracked = ap (go_on (effect_on asks event)) at.tracked ∙ e;
  }

  pub At-put :
      (h : H) (client : ClientRecord)
      → may_save asks (record { stored = c; removed_key = r; gone = g }) client ≡ true
      → client.client_id ≡ c.client_id
      → At asks start id client false false (put client (record w { host = h }))
  unfolding put track effect_on
  At-put h client may same_id = record {
    in_file = rw (same_id ∙ at.in_place) (rw (equal_refl id) refl);
    in_place = same_id ∙ at.in_place;
    tracked = ap (go_on (effect_on asks (saved client))) at.tracked ∙ rw may refl;
  }

  pub At-Lawful : Lawful asks start id w
  At-Lawful = (c, (r, g, at))

module _ {H E : Type 0} {asks : Bool} {start : ClientRecord} {id : Bytes} {c : ClientRecord}
    {r g : Bool} {B : Type 0} where
  bind_from :
      {A : Type 0} (m : Action H E A) (f : A → Action H E B) (Q : B → World H → Type 0)
      → ((w : World H) → At asks start id c r g w → Post asks start id Q (and_then (m w) f))
      → From asks start id c r g (m >>= f) Q
  unfolding ◌>>=◌
  bind_from m f Q go = record { run = go }

  then_from :
      (m : Action H E (Unit {0})) (k : Action H E B) (Q : B → World H → Type 0)
      → ((w : World H) → At asks start id c r g w → Post asks start id Q (and_then (m w) (λ _. k)))
      → From asks start id c r g (m >> k) Q
  unfolding ◌>>◌ ◌>>=◌
  then_from m k Q go = record { run = go }

  -- An action, and what follows from what it leaves.
  pub from_seq :
      {A : Type 0} (m : Action H E A) (f : A → Action H E B) (P : A → World H → Type 0)
      (Q : B → World H → Type 0)
      → From asks start id c r g m P
      → ((a : A) (w : World H) → P a w → Post asks start id Q (f a w))
      → From asks start id c r g (m >>= f) Q
  from_seq {A} m f P Q runs go = bind_from m f Q (λ w at. outcome (m w) (runs.run w at))
    where
      outcome :
          (x : World H × Result (ClientError E) A)
          → Post asks start id P x
          → Post asks start id Q (and_then x f)
      outcome (w, ok a) p = go a w p
      outcome (w, err e) p = p

  pub from_after :
      {m : Action H E (Unit {0})} (k : Action H E B) {Q : B → World H → Type 0}
      (P : World H → Type 0)
      → From asks start id c r g m (λ _. P)
      → ((w : World H) → P w → Post asks start id Q (k w))
      → From asks start id c r g (m >> k) Q
  from_after {m} k {Q} P runs go = then_from m k Q (λ w at. outcome (m w) (runs.run w at))
    where
      outcome :
          (x : World H × Result (ClientError E) (Unit {0}))
          → Post asks start id (λ _. P) x
          → Post asks start id Q (and_then x (λ _. k))
      outcome (w, ok _) p = go w p
      outcome (w, err e) p = p

  pub from_next :
      {m : Action H E (Unit {0})} {k : Action H E B} {Q : B → World H → Type 0} {c' : ClientRecord}
      {r' g' : Bool}
      → From asks start id c r g m (λ _. At asks start id c' r' g')
      → From asks start id c' r' g' k Q
      → From asks start id c r g (m >> k) Q
  from_next {c' = c'} {r'} {g'} runs next =
      from_after _ (At asks start id c' r' g') runs (λ w at. next.run w at)

  module _ {A : Type 0} {f : A → Action H E B} {Q : B → World H → Type 0} where
    pub from_lift :
        (x : Result (ClientError E) A)
        → ((a : A) → x ≡ ok a → From asks start id c r g (f a) Q)
        → From asks start id c r g (lift x >>= f) Q
    unfolding lift
    from_lift (ok a) go = bind_from (lift (ok a)) f Q (λ w at. (go a refl).run w at)
    from_lift (err e) go = bind_from (lift (err e)) f Q (λ w at. At-Lawful asks start id c r g at)

    pub from_required :
        (x : Option A)
        → ((a : A) → From asks start id c r g (f a) Q)
        → From asks start id c r g (required x >>= f) Q
    unfolding required pure raise
    from_required (some a) go = bind_from (required (some a)) f Q (λ w at. (go a).run w at)
    from_required none go =
        bind_from (required {A = A} none) f Q (λ w at. At-Lawful asks start id c r g at)

  module _ {k : Action H E B} {Q : B → World H → Type 0} where
    pub from_check :
        (x : Result (ClientError E) (Unit {0}))
        → (x ≡ ok tt → From asks start id c r g k Q)
        → From asks start id c r g (lift x >> k) Q
    unfolding lift
    from_check (ok tt) go = then_from (lift (ok tt)) k Q (λ w at. (go refl).run w at)
    from_check (err e) go = then_from (lift (err e)) k Q (λ w at. At-Lawful asks start id c r g at)

    pub from_raise :
        (b : Bool) (e : ClientError E)
        → (b ≡ false → From asks start id c r g k Q)
        → From asks start id c r g (raise_if b e >> k) Q
    unfolding raise_if lift
    from_raise true e go =
        then_from (raise_if true e) k Q (λ w at. At-Lawful asks start id c r g at)
    from_raise false e go = then_from (raise_if false e) k Q (λ w at. (go refl).run w at)

    pub from_lock :
        (system : System H E) (name : Bytes)
        → From asks start id c r g k Q
        → From asks start id c r g (lock_client system name >> k) Q
    unfolding lock_client
    from_lock system name go =
        then_from (lock_client system name) k Q (λ w at. by_name w at (is_hex_id name))
      where
        outcome :
            (w : World H) (x : H × Option E)
            → At asks start id c r g w
            → Post asks start id Q (and_then (outcome_of w x) (λ _. k))
        outcome w (h, none) at = go.run (record w { host = h }) (At-host asks start id c r g at h)
        outcome w (h, some e) at = At-Lawful asks start id c r g (At-host asks start id c r g at h)

        by_name :
            (w : World H)
            → At asks start id c r g w
            → (b : Bool)
            → Post asks start id Q (
                and_then
                  (if not b then (w, err bad_client_id) else outcome_of w (system.lock name w.host))
                  (λ _. k))
        by_name w at true = outcome w (system.lock name w.host) at
        by_name w at false = At-Lawful asks start id c r g at

    pub from_write :
        (system : System H E) (client : ClientRecord)
        → may_save asks (record { stored = c; removed_key = r; gone = g }) client ≡ true
        → client.client_id ≡ c.client_id
        → From asks start id client false false k Q
        → From asks start id c r g (write_client_atomic system client >> k) Q
    unfolding write_client_atomic
    from_write system client may same_id go =
        then_from (write_client_atomic system client) k Q
          (λ w at. outcome w (system.write client w.host) at)
      where
        outcome :
            (w : World H) (x : H × Written E)
            → At asks start id c r g w
            → Post asks start id Q (and_then (finish_write client w x) (λ _. k))
        outcome w (h, written) at =
            go.run (put client (record w { host = h }))
              (At-put asks start id c r g at h client may same_id)
        outcome w (h, unsynced e) at =
            At-Lawful asks start id client false false
              (At-put asks start id c r g at h client may same_id)
        outcome w (h, unwritten e) at =
            At-Lawful asks start id c r g (At-host asks start id c r g at h)

  module _ {Q : B → World H → Type 0} where
    pub from_burn :
        (system : System H E) (f : Bytes → Action H E B)
        → ((token : Bytes) → From asks start id c r g (f token) Q)
        → From asks start id c r g (burn system >>= f) Q
    unfolding burn
    from_burn system f go =
        bind_from (burn system) f Q (λ w at. outcome w (system.random_token w.host) at)
      where
        outcome :
            (w : World H) (x : H × Result E Bytes)
            → At asks start id c r g w
            → Post asks start id Q (and_then (drawn w x) f)
        outcome w (h, ok token) at =
            (go token).run (record w { host = h }) (At-host asks start id c r g at h)
        outcome w (h, err e) at = At-Lawful asks start id c r g (At-host asks start id c r g at h)

    pub from_load :
        (name : Bytes) (f : ClientRecord → Action H E B)
        → name ≡ id
        → From asks start id c r g (f c) Q
        → From asks start id c r g (load_client name >>= f) Q
    unfolding load_client pure
    from_load name f e go = bind_from (load_client name) f Q (λ w at. by_name w at (is_hex_id name))
      where
        by_name :
            (w : World H)
            → At asks start id c r g w
            → (b : Bool)
            → Post asks start id Q
                (and_then (if not b then (w, err bad_client_id) else found (w.files name) w) f)
        by_name w at true = rw (ap w.files e ∙ at.in_file) (go.run w at)
        by_name w at false = At-Lawful asks start id c r g at

    pub from_time :
        (system : System H E) (now : Time) (f : Time → Action H E B)
        → ((now : Time) → From asks start id c r g (f now) Q)
        → From asks start id c r g (time_or_now system now >>= f) Q
    unfolding time_or_now
    from_time system now f go = bind_from (time_or_now system now) f Q (λ w at. (go _).run w at)

module _ {H E : Type 0} {asks : Bool} {start : ClientRecord} {id : Bytes} {c : ClientRecord}
    {r g : Bool} where
  pub from_nothing :
      From asks start id c r g (pure {H = H} {E = E} tt) (λ _. At asks start id c r g)
  unfolding pure
  from_nothing = record { run = λ w at. at }

  pub from_pure : From asks start id c r g (pure {H = H} {E = E} c) (Holds asks start id)
  unfolding pure
  from_pure = record { run = λ w at. (r, g, at) }

  -- A call, of which the log keeps whether it succeeded.
  pub from_call :
      (event : Bool → Event) (f : H → H × Option E) (r' g' r'' g'' : Bool)
      → effect_on asks (event true) (record { stored = c; removed_key = r; gone = g })
        ≡ some (record { stored = c; removed_key = r'; gone = g' })
      → effect_on asks (event false) (record { stored = c; removed_key = r; gone = g })
        ≡ some (record { stored = c; removed_key = r''; gone = g'' })
      → From asks start id c r g (call event f) (λ _. At asks start id c r' g')
  unfolding call
  from_call event f r' g' r'' g'' done failed = record { run = λ w at. outcome w (f w.host) at }
    where
      outcome :
          (w : World H) (x : H × Option E)
          → At asks start id c r g w
          → Post asks start id (λ _. At asks start id c r' g') (logged event w x)
      outcome w (h, none) at = At-event asks start id c r g at h (event true) r' g' done
      outcome w (h, some e) at =
          At-Lawful asks start id c r'' g''
            (At-event asks start id c r g at h (event false) r'' g'' failed)
