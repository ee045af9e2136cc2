-- ===== src/Routes/Tests.antt =====
-- Concrete reservations, and the theorem at a concrete store.
use warptweet.Prelude.{ℕ, true, false, [], ◌∷◌, codes, equal, none, ok, err, ◌≡◌, refl}
use warptweet.Routes.Store.{
  holds, Route, Routes, written, unwritten, all_gone, Calls, port_taken, system, port_owner,
  release_reservation_locked, reservation_of, is_route_id, empty_route,
}
use warptweet.Routes.Reserve.{reserve, write_file, reserve_port_locked, reserve_port}
use warptweet.Routes.Uses.{unused, reserves, Uses-one_owner}

abbrev all_well : Calls ℕ
all_well = record {
  lock = none;
  make_root = none;
  make_route = none;
  change_mode = none;
  read_root = none;
  write_reservation = written;
  remove_taken = all_gone;
  make_directory = none;
  write_transaction = written;
  remove = all_gone;
}

abbrev office : Route
office = record (empty_route (codes "office")) {
  reservation = holds (record { route_id = codes "office"; listen_port = 15432 });
}

office_reserved : reserve_port all_well (codes "office") 15432 [] ≡ (office ∷ [], ok true)
unfolding reserve_port reserve_port_locked reserve write_file port_owner is_route_id equal
office_reserved = refl

-- The directory of the refused route is removed.
same_port :
    reserve_port all_well (codes "home") 15432 (office ∷ [])
    ≡ (office ∷ [], err (port_taken (codes "office")))
unfolding reserve_port reserve_port_locked reserve write_file port_owner is_route_id equal
    release_reservation_locked
same_port = refl

-- A reservation that could not be written leaves an empty directory, so the next try fails.
left_over :
    reserve_port (record all_well { write_reservation = unwritten 5 }) (codes "home") 15432 []
    ≡ (empty_route (codes "home") ∷ [], err (system 5))
unfolding reserve_port reserve_port_locked reserve write_file port_owner is_route_id equal
left_over = refl

dotted : is_route_id (codes "a..b") ≡ false
unfolding is_route_id equal
dotted = refl

abbrev after_one : Routes
after_one = (reserve_port all_well (codes "office") 15432 []).0

held_by_office :
    reservation_of (codes "office") after_one
    ≡ holds (record { route_id = codes "office"; listen_port = 15432 })
unfolding reserve_port reserve_port_locked reserve write_file port_owner is_route_id equal
held_by_office = refl

Uses-one_owner_example : codes "office" ≡ codes "office"
Uses-one_owner_example =
    Uses-one_owner after_one (codes "office") (codes "office")
      (record { route_id = codes "office"; listen_port = 15432 })
      (record { route_id = codes "office"; listen_port = 15432 })
      (reserves unused all_well (codes "office") 15432) held_by_office held_by_office refl
