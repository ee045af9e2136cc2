-- ===== src/Invitation/Clients.antt =====
-- What the writes of the clients' records leave: internal/enrollment/accept.go and clients.go.
use warptweet.Prelude.{
  Bool, true, false, not, ◌||◌, [], equal, equal_iff, equal_refl, if◌then◌else◌, Option, none, some,
  Result, ok, err, reject, ◌≡◌, refl, ap, sym, ◌∙◌,
}
use mathlib.Core.Option.{some-injective}
use warptweet.Enrollment.Texts.{is_hex_id}
use warptweet.Enrollment.Client.{ClientRecord, ClientError}
use warptweet.Enrollment.Store.{
  Written, written, unwritten, unsynced, World, System, load_client, store_client, update_client,
}
use warptweet.Enrollment.Store
use warptweet.Invitation.Active.{Files, ClientsInPlace}

put_files :
    (files : Files) (want : ClientRecord)
    → ClientsInPlace files
    → ClientsInPlace (λ id. if equal id want.client_id then some want else files id)
put_files files want h id c = by_id (equal id want.client_id) refl
  where
    by_id :
        (b : Bool)
        → equal id want.client_id ≡ b
        → (if b then some want else files id) ≡ some c
        → c.client_id ≡ id
    by_id true e f =
        ap (λ (x : ClientRecord). x.client_id) (sym (some-injective want c f))
        ∙ sym ((equal_iff id want.client_id).0 e)
    by_id false e f = h id c f

module _ {H E : Type 0} (system : System H E) (want : ClientRecord) where
  abbrev pub Stored : World H × Result (ClientError E) (Unit {0}) → Type 0
  Stored (w, ok a) = (w.files want.client_id ≡ some want) × ClientsInPlace w.files
  Stored (w, err e) = ClientsInPlace w.files

  write-Stored :
      (w : World H) → ClientsInPlace w.files → Stored (Store.write_client_atomic system want w)
  unfolding Store.write_client_atomic Store.put
  write-Stored w h = by_write (system.write want w.host)
    where
      by_write : (x : H × Written E) → Stored (Store.finish_write want w x)
      by_write (g, written) = (rw (equal_refl want.client_id) refl, put_files w.files want h)
      by_write (g, unsynced e) = put_files w.files want h
      by_write (g, unwritten e) = h

  pub store_client-Stored :
      (w : World H) → ClientsInPlace w.files → Stored (store_client system want w)
  unfolding store_client Store.◌>>◌ Store.◌>>=◌ Store.raise_if Store.lift
  store_client-Stored w h = by_id (equal want.client_id [] || not (is_hex_id want.client_id))
    where
      by_old :
          (o : Option ClientRecord)
          → Stored (Store.and_then (w, Store.absent o) (λ _. Store.write_client_atomic system want))
      by_old (some c) = h
      by_old none = write-Stored w h

      by_id :
          (bad : Bool)
          → Stored (
              Store.and_then
                (w, reject bad ClientError.bad_client_id)
                (λ _ v.
                  Store.and_then
                    (v, Store.absent (v.files want.client_id))
                    (λ _. Store.write_client_atomic system want)))
      by_id true = h
      by_id false = by_old (w.files want.client_id)

  pub update-Stored : (w : World H) → ClientsInPlace w.files → Stored (update_client system want w)
  unfolding update_client Store.◌>>◌ Store.◌>>=◌ Store.raise_if Store.lift Store.lock_client
      Store.load_client Store.raise Store.pure
  update-Stored w h = by_id (not (is_hex_id want.client_id))
    where
      by_found :
          (v : World H)
          → ClientsInPlace v.files
          → (o : Option ClientRecord)
          → Stored (Store.and_then (Store.found o v) (λ _. Store.write_client_atomic system want))
      by_found v h none = h
      by_found v h (some c) = write-Stored v h

      by_lock :
          (x : H × Option E)
          → Stored (
              Store.and_then (Store.outcome_of w x) (λ _ v.
                Store.and_then
                  (Store.found (v.files want.client_id) v)
                  (λ _. Store.write_client_atomic system want)))
      by_lock (g, some e) = h
      by_lock (g, none) = by_found (record w { host = g }) h (w.files want.client_id)

      by_id :
          (bad : Bool)
          → Stored (
              Store.and_then
                (w, reject bad ClientError.bad_client_id)
                (λ _ v.
                  Store.and_then
                    (if bad
                      then (v, err ClientError.bad_client_id)
                      else Store.outcome_of v (system.lock want.client_id v.host))
                    (λ _ u.
                      Store.and_then
                        (if bad
                          then (u, err ClientError.bad_client_id)
                          else Store.found (u.files want.client_id) u)
                        (λ _. Store.write_client_atomic system want))))
      by_id true = h
      by_id false = by_lock (system.lock want.client_id w.host)
