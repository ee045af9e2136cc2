-- ===== src/Routes/Reserve.antt =====
-- Reservation, transactions and removal of a route: internal/routestate/generation.go,
-- transaction.go and route.go.
use warptweet.Prelude.{
  ℕ, Bool, true, false, not, ◌&&◌, ◌||◌, [], ◌∷◌, Bytes, ◌==◌, equal, if◌then◌else◌, Option, none,
  some, Result, ok, err,
}
use warptweet.Routes.Store.{
  File, absent, broken, holds, Phase, reserved, unsupported, Transaction, Route, Routes, Written,
  written, unwritten, unsynced, RouteError, bad_route_id, port_zero, already_exists,
  broken_transaction, port_taken, wrong_phase, unsupported_phase, different_invite,
  different_generation, system, Calls, has, reservation_of, transaction_of, update, empty_route,
  release_reservation_locked, port_owner, is_same_reservation, Action, and_then, or_system,
  is_route_id,
}

module _ {E : Type 0} (calls : Calls E) where
  -- `Reserve`
  abbrev pub made : Bytes → Option E → Option E → Action E (Unit {0})
  made id none change_mode rs = (empty_route id ∷ rs, or_system change_mode)
  made id (some e) change_mode rs = (rs, err (system e))

  abbrev pub make_new : Bytes → Option E → Action E (Unit {0})
  make_new id none rs =
      if has id rs then (rs, err already_exists) else made id calls.make_route calls.change_mode rs
  make_new id (some e) rs = (rs, err (system e))

  unfoldable pub reserve : Bytes → Action E (Unit {0})
  reserve id rs =
      if not (is_route_id id) then (rs, err bad_route_id) else make_new id calls.make_root rs

  -- `writeJSONAtomic` of a file of the route
  unfoldable pub write_file : Written E → Bytes → (Route → Route) → Action E (Unit {0})
  write_file written id f rs = (update id f rs, ok tt)
  write_file (unsynced e) id f rs = (update id f rs, err (system e))
  write_file (unwritten e) id f rs = (rs, err (system e))

  abbrev pub with_reservation : Bytes → ℕ → Route → Route
  with_reservation id port route = record route {
    reservation = holds (record { route_id = id; listen_port = port });
  }

  -- `_ = os.RemoveAll(...)`, whose error is dropped, and the refusal
  abbrev pub refuse_taken : Bytes → Bytes → Action E Bool
  refuse_taken id owner rs =
      ((release_reservation_locked id calls.remove_taken rs).0, err (port_taken owner))

  abbrev pub write_reservation : Bytes → ℕ → Action E Bool
  write_reservation id port rs =
      and_then (write_file calls.write_reservation id (with_reservation id port) rs)
        (λ _ rs. (rs, ok true))

  -- what follows `PortOwner`
  abbrev pub if_free : Bytes → ℕ → Result (RouteError E) (Option Bytes) → Action E Bool
  if_free id port (err e) rs = (rs, err e)
  if_free id port (ok none) rs = write_reservation id port rs
  if_free id port (ok (some owner)) rs =
      if not (equal owner id) then refuse_taken id owner rs else write_reservation id port rs

  abbrev pub listed_owner : ℕ → Option E → Routes → Result (RouteError E) (Option Bytes)
  listed_owner port none rs = port_owner port rs
  listed_owner port (some e) rs = err (system e)

  -- what follows `Reserve`
  abbrev pub reserved_then :
      Bytes → ℕ → Routes × Result (RouteError E) (Unit {0}) → Routes × Result (RouteError E) Bool
  reserved_then id port (rs, ok _) = if_free id port (listed_owner port calls.read_root rs) rs
  reserved_then id port (rs, err e) =
      if is_same_reservation id port (reservation_of id rs) then (rs, ok false) else (rs, err e)

  -- `reservePortLocked`
  unfoldable pub reserve_port_locked : Bytes → ℕ → Action E Bool
  reserve_port_locked id port rs =
      if port == 0
      then (rs, err port_zero)
      else if is_same_reservation id port (reservation_of id rs)
      then (rs, ok false)
      else reserved_then id port (reserve id rs)

  abbrev pub locked : {A : Type 0} → Option E → Action E A → Action E A
  locked none m rs = m rs
  locked (some e) m rs = (rs, err (system e))

  -- `ReservePort`
  unfoldable pub reserve_port : Bytes → ℕ → Action E Bool
  reserve_port id port = locked calls.lock (reserve_port_locked id port)

  -- `Remove`
  abbrev pub released : Routes × Option E → Routes × Result (RouteError E) (Unit {0})
  released (rs, e) = (rs, or_system e)

  unfoldable pub remove : Bytes → Action E (Unit {0})
  remove id rs =
      if not (is_route_id id)
      then (rs, err bad_route_id)
      else locked calls.lock (λ rs. released (release_reservation_locked id calls.remove rs)) rs

  -- `validateTransactionPhase`
  abbrev pub is_supported : Phase → Bool
  is_supported (unsupported _) = false
  is_supported _ = true

  -- `os.MkdirAll` of the directory of a transaction
  abbrev pub ensured : Bytes → Routes → Routes
  ensured id rs = if has id rs then rs else empty_route id ∷ rs

  abbrev pub write_in_directory : Transaction → Option E → Action E (Unit {0})
  write_in_directory t none rs =
      write_file calls.write_transaction t.route_id (λ r. record r { transaction = holds t })
        (ensured t.route_id rs)
  write_in_directory t (some e) rs = (rs, err (system e))

  -- `WriteTransaction`
  unfoldable pub write_transaction : Transaction → Action E (Unit {0})
  write_transaction t rs =
      if not (is_route_id t.route_id)
      then (rs, err bad_route_id)
      else if not (is_supported t.phase)
      then (rs, err unsupported_phase)
      else write_in_directory t calls.make_directory rs

  -- `LoadTransaction`, and the comparison with what it finds
  abbrev pub check_existing : Transaction → File Transaction → Result (RouteError E) (Unit {0})
  check_existing t absent = ok tt
  check_existing t broken = err broken_transaction
  check_existing t (holds existing) =
      if not (equal existing.route_id t.route_id) || not (is_supported existing.phase)
      then err broken_transaction
      else if not (equal existing.invite_id []) && not (equal existing.invite_id t.invite_id)
      then err different_invite
      else if not (equal existing.generation []) && not (equal existing.generation t.generation)
      then err different_generation
      else ok tt

  -- `if created { _ = store.releaseReservationLocked(...) }`
  abbrev pub release_if :
      Bytes
      → Bool
      → Routes × Result (RouteError E) (Unit {0})
      → Routes × Result (RouteError E) (Unit {0})
  release_if id created (rs, ok _) = (rs, ok tt)
  release_if id false (rs, err e) = (rs, err e)
  release_if id true (rs, err e) = ((release_reservation_locked id calls.remove rs).0, err e)

  abbrev pub checked_then : Transaction → Result (RouteError E) (Unit {0}) → Action E (Unit {0})
  checked_then t (err e) rs = (rs, err e)
  checked_then t (ok _) rs =
      and_then (reserve_port_locked t.route_id t.listen_port rs)
        (λ created rs. release_if t.route_id created (write_transaction t rs))

  abbrev pub is_reserved : Phase → Bool
  is_reserved reserved = true
  is_reserved _ = false

  -- `ReserveAndWriteTransaction`
  unfoldable pub reserve_and_write_transaction : Transaction → Action E (Unit {0})
  reserve_and_write_transaction t rs =
      if not (is_reserved t.phase)
      then (rs, err wrong_phase)
      else if not (is_route_id t.route_id)
      then (rs, err bad_route_id)
      else locked calls.lock
          (λ rs. checked_then t (check_existing t (transaction_of t.route_id rs)) rs) rs
