-- ===== src/Routes/Store.antt =====
-- Reservations and transactions of the routes: internal/routestate/generation.go, transaction.go
-- and route.go. The store is the list of its route directories, in any order, each with the files
-- that these operations read. How a call of the operating system ends is an argument.
use warptweet.Prelude.{
  ℕ, Bool, true, false, not, ◌&&◌, ◌||◌, List, [], ◌∷◌, Bytes, ◌==◌, leb, length, equal,
  if◌then◌else◌, Option, none, some, Result, ok, err,
}

pub data File (A : Type 0) : Type 0 where
  absent broken : File A
  holds : A → File A

-- `Reservation`; its kind and its schema version are those that `loadReservation` wants, or the
-- file is broken.
pub record Reservation : Type 0 where
  pub route_id : Bytes
  pub listen_port : ℕ

pub data Phase : Type 0 where
  reserved staged enrolled activating connected enrolled_not_ready failed : Phase
  unsupported : Bytes → Phase

pub record Transaction : Type 0 where
  pub route_id : Bytes
  pub phase : Phase
  pub listen_port : ℕ
  pub generation : Bytes
  pub invite_id : Bytes

-- A directory of the root. `listen` is the port that the receipt of a listed route names, if the
-- route is valid and has one.
pub record Route : Type 0 where
  pub route_id : Bytes
  pub reservation : File Reservation
  pub transaction : File Transaction
  pub listen : Option ℕ

abbrev pub Routes : Type 0
Routes = List Route

pub data Written (E : Type 0) : Type 0 where
  written : Written E
  unwritten unsynced : E → Written E

-- `os.RemoveAll`, which may stop after it removed some of the files.
pub data Removal (E : Type 0) : Type 0 where
  all_gone : Removal E
  stopped : E → Bool → Bool → Removal E

pub data RouteError (E : Type 0) : Type 0 where
  bad_route_id port_zero already_exists broken_reservation broken_transaction : RouteError E
  port_taken : Bytes → RouteError E
  wrong_phase unsupported_phase different_invite different_generation : RouteError E
  system : E → RouteError E

-- How the calls of one operation end.
pub record Calls (E : Type 0) : Type 0 where
  pub lock : Option E
  pub make_root : Option E
  pub make_route : Option E
  pub change_mode : Option E
  pub read_root : Option E
  pub write_reservation : Written E
  pub remove_taken : Removal E
  pub make_directory : Option E
  pub write_transaction : Written E
  pub remove : Removal E

-- Whether the routes have a directory of that name, and the files of it.
abbrev pub has : Bytes → Routes → Bool
has id [] = false
has id (r ∷ rs) = equal r.route_id id || has id rs

abbrev pub reservation_of : Bytes → Routes → File Reservation
reservation_of id [] = absent
reservation_of id (r ∷ rs) =
    let rest = reservation_of id rs in if equal r.route_id id then r.reservation else rest

abbrev pub transaction_of : Bytes → Routes → File Transaction
transaction_of id [] = absent
transaction_of id (r ∷ rs) =
    let rest = transaction_of id rs in if equal r.route_id id then r.transaction else rest

-- a change of the files of one route
abbrev pub update : Bytes → (Route → Route) → Routes → Routes
update id f [] = []
update id f (r ∷ rs) =
    let rest = update id f rs in if equal r.route_id id then f r ∷ rest else r ∷ rest

abbrev pub delete : Bytes → Routes → Routes
delete id [] = []
delete id (r ∷ rs) = let rest = delete id rs in if equal r.route_id id then rest else r ∷ rest

abbrev pub empty_route : Bytes → Route
empty_route id = record { route_id = id; reservation = absent; transaction = absent; listen = none }

-- what a removal leaves
abbrev pub keep_some : Bool → Bool → Route → Route
keep_some r t route = record route {
  reservation = if r then absent else route.reservation;
  transaction = if t then absent else route.transaction;
}

module _ {E : Type 0} where
  -- `releaseReservationLocked`
  unfoldable pub release_reservation_locked : Bytes → Removal E → Routes → Routes × Option E
  release_reservation_locked id all_gone rs = (delete id rs, none)
  release_reservation_locked id (stopped e r t) rs = (update id (keep_some r t) rs, some e)

  -- `PortOwner`, behind the listing; `some` is the owner
  abbrev pub owned_by_receipt :
      ℕ
      → Bytes
      → Option ℕ
      → Result (RouteError E) (Option Bytes)
      → Result (RouteError E) (Option Bytes)
  owned_by_receipt port id none rest = rest
  owned_by_receipt port id (some p) rest = if p == port then ok (some id) else rest

  abbrev pub owned_by :
      ℕ
      → Route
      → File Reservation
      → Result (RouteError E) (Option Bytes)
      → Result (RouteError E) (Option Bytes)
  owned_by port r absent rest = owned_by_receipt port r.route_id r.listen rest
  owned_by port r broken rest = err broken_reservation
  owned_by port r (holds held) rest =
      if held.listen_port == port then ok (some r.route_id) else rest

  unfoldable pub port_owner : ℕ → Routes → Result (RouteError E) (Option Bytes)
  port_owner port [] = ok none
  port_owner port (r ∷ rs) = owned_by port r r.reservation (port_owner port rs)

-- A route that is there already is fine, if it has this very reservation.
abbrev pub is_same_reservation : Bytes → ℕ → File Reservation → Bool
is_same_reservation id port (holds held) = equal held.route_id id && held.listen_port == port
is_same_reservation id port _ = false

-- An operation returns the routes that it leaves.
abbrev pub Action : Type 0 → Type 0 → Type 0
Action E A = Routes → Routes × Result (RouteError E) A

abbrev pub and_then :
    {E A B : Type 0}
    → Routes × Result (RouteError E) A
    → (A → Action E B)
    → Routes × Result (RouteError E) B
and_then (rs, ok a) f = f a rs
and_then (rs, err e) f = (rs, err e)

abbrev pub or_system : {E : Type 0} → Option E → Result (RouteError E) (Unit {0})
or_system none = ok tt
or_system (some e) = err (system e)

-- `ValidateRouteID`
abbrev is_alphanumeric : ℕ → Bool
is_alphanumeric c = (leb 97 c && leb c 122) || (leb 65 c && leb c 90) || (leb 48 c && leb c 57)

abbrev is_route_mark : ℕ → Bool
is_route_mark c = c == 45 || c == 95

abbrev has_path_text : Bytes → Bool
has_path_text [] = false
has_path_text (c ∷ []) = c == 47 || c == 92 || c == 58
has_path_text (c ∷ d ∷ s) =
    (c == 46 && d == 46) || c == 47 || c == 92 || c == 58 || has_path_text (d ∷ s)

abbrev all_from : Bool → Bytes → Bool
all_from at_start [] = true
all_from at_start (c ∷ s) =
    (is_alphanumeric c || (is_route_mark c && not at_start)) && all_from false s

unfoldable pub is_route_id : Bytes → Bool
is_route_id id =
    not (equal id []) && leb (length id) 64 && not (has_path_text id) && all_from true id
