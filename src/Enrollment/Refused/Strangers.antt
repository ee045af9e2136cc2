-- ===== src/Enrollment/Refused/Strangers.antt =====
-- Requests with a token that is not the client's: internal/enrollment/clients.go.
use warptweet.Prelude.{
  Bool, true, false, Bytes, if◌then◌else◌, Option, some, ok, ◌≢◌, ◌≡◌, refl, sym, ◌∙◌, arith,
}
use mathlib.Core.Path.{subst}
use mathlib.Core.Option.{some-injective}
use warptweet.Grant.Status.{same, revoked}
use warptweet.Grant.Time.{Time}
use warptweet.Enrollment.Texts.{trim_space}
use warptweet.Enrollment.Client.{
  ClientRecord, ManagementRequest, management_token_matches, hash_management_token,
  constant_time_digest_equal, authenticate_client_record,
}
use warptweet.Enrollment.Store.{World, System, Callbacks, Action, ◌>>=◌, load_client}
use warptweet.Enrollment.Revoke.{authenticate_management, revoke_again, revoke_now, revoke_client}
use warptweet.Enrollment.Rotate.{is_rotated, rotate_again, rotate_now, rotate_client_public_key}
use warptweet.Enrollment.Refused.{
  Untouched, Refuses, refuse_lift, refuse_raise, refuse_lock, refuse_load, refuse_time,
}

-- The request's token is neither the client's token nor the one before it.
pub record IsStranger (sha256_hex : Bytes → Bytes) (client : ClientRecord)
    (request : ManagementRequest) : Type 0 where
  pub not_current :
      constant_time_digest_equal client.management_token_sha256
        (hash_management_token sha256_hex request.management_token)
      ≡ false
  pub not_previous :
      constant_time_digest_equal client.previous_management_token_sha256
        (hash_management_token sha256_hex request.management_token)
      ≡ false

no_match :
    (sha256_hex : Bytes → Bytes) (want_hash token : Bytes)
    → constant_time_digest_equal want_hash (hash_management_token sha256_hex token) ≡ false
    → management_token_matches sha256_hex want_hash token ≡ false
unfolding management_token_matches
no_match sha256_hex want_hash token e = ground arith

module _ {H E : Type 0} (system : System H E) {client : ClientRecord} {request : ManagementRequest}
    (stranger : IsStranger system.sha256_hex client request) where
  stranger_record : authenticate_client_record {E = E} system.sha256_hex client request ≢ ok tt
  unfolding authenticate_client_record
  stranger_record e = ground (
    arith,
    no_match system.sha256_hex client.management_token_sha256 request.management_token
        stranger.not_current,
  )

  not_is_rotated : (key hash : Bytes) → is_rotated system request key hash client ≡ false
  unfolding is_rotated
  not_is_rotated key hash = ground (arith, stranger.not_previous)

module _ {H E : Type 0} (system : System H E) {w : World H} {client : ClientRecord}
    {request : ManagementRequest} (stranger : IsStranger system.sha256_hex client request) where
  revoke_again-Refuses :
      (callbacks : Callbacks H E) → Refuses w (revoke_again system callbacks request client)
  unfolding revoke_again
  revoke_again-Refuses callbacks = refuse_raise _ _ (λ b. absurd (
      ground (
        arith,
        no_match system.sha256_hex client.previous_management_token_sha256 request.management_token
            stranger.not_previous,
      )))

  revoke_now-Refuses :
      (callbacks : Callbacks H E) (now : Time)
      → Refuses w (revoke_now system callbacks request now client)
  unfolding revoke_now
  revoke_now-Refuses callbacks now = refuse_raise _ _ (λ _. refuse_raise _ _ (λ b. absurd (
      ground (
        arith,
        no_match system.sha256_hex client.management_token_sha256 request.management_token
            stranger.not_current,
      ))))

  rotate_now-Refuses :
      (replace : Option (Bytes → Bytes → H → H × Option E)) (key hash : Bytes) (now : Time)
      → Refuses w (rotate_now system replace request key hash now client)
  unfolding rotate_now
  rotate_now-Refuses replace key hash now = refuse_lift _ (λ _. refuse_raise _ _ (λ _.
      refuse_raise _ _ (λ _. refuse_raise _ _ (λ b. absurd (
        ground (
          arith,
          no_match system.sha256_hex client.management_token_sha256 request.management_token
              stranger.not_current,
        ))))))

  by_revoked-Refuses :
      (callbacks : Callbacks H E) (now : Time) (b : Bool)
      → Refuses w (
          if b
          then revoke_again system callbacks request client
          else revoke_now system callbacks request now client)
  by_revoked-Refuses callbacks now true = revoke_again-Refuses callbacks
  by_revoked-Refuses callbacks now false = revoke_now-Refuses callbacks now

  by_retry-Refuses :
      (replace : Option (Bytes → Bytes → H → H × Option E)) (key hash : Bytes) (now : Time)
      (b : Bool)
      → b ≡ false
      → Refuses w (
          if b
          then rotate_again system replace key client
          else rotate_now system replace request key hash now client)
  by_retry-Refuses replace key hash now true e = cc
  by_retry-Refuses replace key hash now false e = rotate_now-Refuses replace key hash now

module _ {H E : Type 0} (system : System H E) (w : World H) (client : ClientRecord)
    (request : ManagementRequest) (in_file : w.files request.client_id ≡ some client)
    (stranger : IsStranger system.sha256_hex client request) where
  -- the record that was found is the client's
  for_client :
      {A : Type 0} (f : ClientRecord → Action H E A)
      → Refuses w (f client)
      → Refuses w (load_client request.client_id >>= f)
  for_client f go = refuse_load request.client_id f (λ c e.
      subst (λ (c : ClientRecord). Refuses w (f c)) (some-injective client c (sym in_file ∙ e)) go)

  authenticate_management-Refuses : Refuses w (authenticate_management system request)
  unfolding authenticate_management
  authenticate_management-Refuses = refuse_lift _ (λ _.
      refuse_lock system _
        (for_client _ (refuse_lift _ (λ e. absurd (stranger_record system stranger e)))))

  revoke_client-Refuses :
      (callbacks : Callbacks H E) (now : Time)
      → Refuses w (revoke_client system callbacks request now)
  unfolding revoke_client
  revoke_client-Refuses callbacks given_now = refuse_time system given_now _ (λ now.
      refuse_lift _ (λ _. refuse_lock system _ (
        for_client _ (
          refuse_raise _ _
            (λ _. by_revoked-Refuses system stranger callbacks now (same client.status revoked))))))

  rotate_client_public_key-Refuses :
      (replace : Option (Bytes → Bytes → H → H × Option E)) (public_key : Bytes) (now : Time)
      → Refuses w (rotate_client_public_key system replace request public_key now)
  unfolding rotate_client_public_key
  rotate_client_public_key-Refuses replace public_key given_now =
      refuse_time system given_now _ (λ now. refuse_lift _ (λ _. refuse_lift _ (λ _.
        refuse_raise _ _ (λ _. refuse_lock system _ (
          for_client _ (
            refuse_raise _ _ (λ _.
              by_retry-Refuses system stranger replace (trim_space public_key) _ now _
                (not_is_rotated system stranger (trim_space public_key) _))))))))

  -- Whoever does not present the client's token, or the one before it, gets an error from each
  -- of the three operations that take a token, and neither a file nor an authorization nor a
  -- session is touched: the records are the same, and no event has happened.
  pub stranger_refused :
      (callbacks : Callbacks H E) (replace : Option (Bytes → Bytes → H → H × Option E))
      (public_key : Bytes) (now : Time)
      → Untouched w (authenticate_management system request w)
        × Untouched w (revoke_client system callbacks request now w)
        × Untouched w (rotate_client_public_key system replace request public_key now w)
  stranger_refused callbacks replace public_key now = (
    authenticate_management-Refuses.run w refl refl,
    (revoke_client-Refuses callbacks now).run w refl refl,
    (rotate_client_public_key-Refuses replace public_key now).run w refl refl,
  )
