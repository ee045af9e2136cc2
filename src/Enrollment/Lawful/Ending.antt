-- ===== src/Enrollment/Lawful/Ending.antt =====
-- Taking a key of a client away and ending its sessions, along its events.
use warptweet.Prelude.{
  Bool, true, false, not, ◌||◌, ◌&&◌, [], Bytes, equal, equal_refl, Option, none, some, Result, ok,
  err, ◌≡◌, refl, arith,
}
use warptweet.Grant.Status.Paths.{is_ending}
use warptweet.Enrollment.Client.{ClientRecord, ClientError}
use warptweet.Enrollment.Store.{
  removed, terminated, verified, World, Callbacks, pure, call, call_if_given,
}
use warptweet.Enrollment.Revoke.{remove_authorization, hook, enforce}
use warptweet.Enrollment.Lawful.{may_remove, may_end, effect_on, At, Post, From}
use warptweet.Enrollment.Lawful.Steps.{from_next, from_required, from_call}

module _ {H E : Type 0} {asks : Bool} {start : ClientRecord} {id : Bytes}
    (callbacks : Callbacks H E) {c : ClientRecord} where
  -- The key of the record, or its pending one, while the client is being ended.
  pub from_call_remove :
      (f : H → H × Option E) (key : Bytes) (r g : Bool)
      → may_remove c key ≡ true
      → From asks start id c r g
          (call (removed key) f)
          (λ _. At asks start id c (r || equal key c.public_key) g)
  unfolding effect_on
  from_call_remove f key r g may =
      from_call (removed key) f (r || equal key c.public_key) g r g (rw may refl)
        (rw may (ground arith))

  pub from_remove :
      (key : Bytes) (r g : Bool)
      → may_remove c key ≡ true
      → From asks start id c r g
          (remove_authorization callbacks key)
          (λ _. At asks start id c (r || equal key c.public_key) g)
  unfolding remove_authorization
  from_remove key r g may =
      from_required callbacks.remove (λ f. from_call_remove (f key) key r g may)

abbrev pub is_given {ℓ} : {A : Type ℓ} → Option A → Bool
is_given none = false
is_given (some _) = true

pub may_end-own : (c : ClientRecord) → is_ending c.status ≡ true → may_end c c.client_id ≡ true
unfolding may_end
may_end-own c e = rw (e, equal_refl c.client_id) refl

pub may_remove-own :
    (c : ClientRecord) → is_ending c.status ≡ true → may_remove c c.public_key ≡ true
unfolding may_remove
may_remove-own c e = rw (e, equal_refl c.public_key) refl

-- If the key has been removed, the sessions were seen to be gone after that, where the host asks.
abbrev pub Clear :
    {H : Type 0} → Bool → ClientRecord → Bytes → ClientRecord → Bool → World H → Type 0
Clear asks start id c r w =
    (g : Bool) × (r ≡ true → (not asks || g) ≡ true) × At asks start id c r g w

module _ {H E : Type 0} {asks : Bool} {start : ClientRecord} {id : Bytes} {c : ClientRecord} where
  from_terminate :
      (f : Option (Bytes → Bytes → Bytes → H → H × Option E)) (r g : Bool)
      → is_ending c.status ≡ true
      → From asks start id c r g
          (call_if_given (terminated c.client_id []) (hook f c.client_id []))
          (λ _. At asks start id c r g)
  unfolding call_if_given pure effect_on
  from_terminate none r g e = record { run = λ w at. at }
  from_terminate (some f) r g e =
      from_call (terminated c.client_id []) (f c.client_id [] []) r g r g
        (rw (may_end-own c e) refl) (rw (may_end-own c e) refl)

  from_verify :
      (f : Option (Bytes → Bytes → Bytes → H → H × Option E)) (r g : Bool)
      → (asks ≡ true → is_given f ≡ true)
      → is_ending c.status ≡ true
      → From asks start id c r g
          (call_if_given (verified c.client_id []) (hook f c.client_id []))
          (λ _. Clear asks start id c r)
  unfolding call_if_given pure effect_on
  from_verify none r g given e = record { run = λ w at. (g, (λ _. ground arith), at) }
  from_verify (some f) r g given e = record { run = λ w at. seen _ (looks.run w at) }
    where
      looks :
          From asks start id c r g
            (call (verified c.client_id []) (f c.client_id [] []))
            (λ _. At asks start id c r (g || (r && true)))
      looks =
          from_call (verified c.client_id []) (f c.client_id [] []) r (g || (r && true)) r
            (g || (r && false)) (rw (may_end-own c e) refl) (rw (may_end-own c e) refl)

      seen :
          (x : World H × Result (ClientError E) (Unit {0}))
          → Post asks start id (λ _. At asks start id c r (g || (r && true))) x
          → Post asks start id (λ _. Clear asks start id c r) x
      seen (w, ok _) at = (g || (r && true), (λ h. ground arith), at)
      seen (w, err e) p = p

  pub from_enforce :
      (callbacks : Callbacks H E) (r g : Bool)
      → (asks ≡ true → is_given callbacks.verify ≡ true)
      → is_ending c.status ≡ true
      → From asks start id c r g (enforce callbacks c.client_id []) (λ _. Clear asks start id c r)
  unfolding enforce
  from_enforce callbacks r g given e =
      from_next (from_terminate callbacks.terminate r g e)
        (from_verify callbacks.verify r g given e)
