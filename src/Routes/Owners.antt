-- ===== src/Routes/Owners.antt =====
-- No two routes reserve the same listen port, whatever the operating system does.
use warptweet.Prelude.{
  ℕ, Bool, true, false, not, [], ◌∷◌, Bytes, ◌==◌, equal, equal_iff, equal_refl, if◌then◌else◌,
  Option, none, some, Result, ok, err, ok-injective, ◌≡◌, ◌⊎◌, inl, inr, refl, ap, arith,
}
use mathlib.Core.Option.{some-injective}
use warptweet.Routes.Store.{
  File, absent, broken, holds, Reservation, Transaction, Route, Routes, Written, written, unwritten,
  unsynced, Removal, all_gone, stopped, RouteError, Calls, has, reservation_of, update, keep_some,
  empty_route, release_reservation_locked, port_owner, owned_by, is_same_reservation, bad_route_id,
  port_zero, and_then, is_route_id,
}
use warptweet.Routes.Reserve.{
  reserve, write_file, with_reservation, write_reservation, refuse_taken, listed_owner, made,
  make_new, if_free, reserved_then, reserve_port_locked,
}
use warptweet.Routes.Ports.{holds_port, Free, Sole, Weakens, Sole-update, Sole-delete}

keep_some-Weakens : (r t : Bool) → Weakens (keep_some r t)
keep_some-Weakens true t = record { same_id = λ r. refl; less = λ r. inr refl }
keep_some-Weakens false t = record { same_id = λ r. refl; less = λ r. inl refl }

pub with_transaction-Weakens : (t : Transaction) → Weakens (λ r. record r { transaction = holds t })
with_transaction-Weakens t = record { same_id = λ r. refl; less = λ r. inl refl }

module _ {E : Type 0} where
  pub release-Sole :
      (id : Bytes) (removal : Removal E) (rs : Routes)
      → Sole rs
      → Sole (release_reservation_locked id removal rs).0
  unfolding release_reservation_locked
  release-Sole id all_gone rs sole = Sole-delete id rs sole
  release-Sole id (stopped e r t) rs sole = Sole-update (keep_some-Weakens r t) id rs sole

  if_none :
      (b : Bool) (id : Bytes) (rest : Result (RouteError E) (Option Bytes))
      → (if b then ok (some id) else rest) ≡ ok none
      → (b ≡ false) × (rest ≡ ok none)
  if_none true id rest e = cc
  if_none false id rest e = (refl, e)

  if_some :
      (b : Bool) (id owner : Bytes) (rest : Result (RouteError E) (Option Bytes))
      → (if b then ok (some id) else rest) ≡ ok (some owner)
      → (id ≡ owner) ⊎ (rest ≡ ok (some owner))
  if_some true id owner rest e =
      inl (some-injective id owner (ok-injective {E = RouteError E} (some id) (some owner) e))
  if_some false id owner rest e = inr e

  -- If `PortOwner` finds no route, none holds the port.
  owned_by-none :
      (port : ℕ) (r : Route) (held : File Reservation) (listen : Option ℕ)
      (rest : Result (RouteError E) (Option Bytes))
      → owned_by port (record r { listen = listen }) held rest ≡ ok none
      → (holds_port port held ≡ false) × (rest ≡ ok none)
  owned_by-none port r absent none rest e = (refl, e)
  owned_by-none port r absent (some p) rest e = (refl, (if_none (p == port) r.route_id rest e).1)
  owned_by-none port r broken listen rest e = cc
  owned_by-none port r (holds held) listen rest e =
      if_none (held.listen_port == port) r.route_id rest e

  owned_by-some :
      (port : ℕ) (r : Route) (held : File Reservation) (listen : Option ℕ) (owner : Bytes)
      (rest : Result (RouteError E) (Option Bytes))
      → owned_by port (record r { listen = listen }) held rest ≡ ok (some owner)
      → (r.route_id ≡ owner) ⊎ (rest ≡ ok (some owner))
  owned_by-some port r absent none owner rest e = inr e
  owned_by-some port r absent (some p) owner rest e = if_some (p == port) r.route_id owner rest e
  owned_by-some port r broken listen owner rest e = cc
  owned_by-some port r (holds held) listen owner rest e =
      if_some (held.listen_port == port) r.route_id owner rest e

  port_owner-Free : (port : ℕ) (rs : Routes) → port_owner {E = E} port rs ≡ ok none → Free port rs
  unfolding port_owner
  port_owner-Free port [] e = tt
  port_owner-Free port (r ∷ rs) e =
      let (free, rest) =
        owned_by-none port r r.reservation r.listen (port_owner {E = E} port rs) e in
      (free, port_owner-Free port rs rest)

  port_owner-has :
      (port : ℕ) (rs : Routes) (owner : Bytes)
      → port_owner {E = E} port rs ≡ ok (some owner)
      → has owner rs ≡ true
  unfolding port_owner
  port_owner-has port [] owner e = cc
  port_owner-has port (r ∷ rs) owner e =
      elim (owned_by-some port r r.reservation r.listen owner (port_owner {E = E} port rs) e) [
        | inl is ↦ ground (arith, equal_iff r.route_id owner)
        | inr rest ↦ ground (arith, port_owner-has port rs owner rest)
      ]

update-absent :
    (id : Bytes) (f : Route → Route) (rs : Routes) → has id rs ≡ false → update id f rs ≡ rs
update-absent id f [] h = refl
update-absent id f (r ∷ rs) h = ground (arith, update-absent id f rs)

module _ {E : Type 0} (calls : Calls E) where
  -- The new route takes a port that is free.
  with_reservation-Sole :
      (id : Bytes) (port : ℕ) (rs : Routes)
      → has id rs ≡ false
      → Free port rs
      → Sole rs
      → Sole (update id (with_reservation calls id port) (empty_route id ∷ rs))
  with_reservation-Sole id port rs new free sole =
      rw (equal_refl id, update-absent id (with_reservation calls id port) rs new) (new, free, sole)

  pub write_file-Sole :
      (written : Written E) (id : Bytes) (f : Route → Route) (rs : Routes)
      → Sole rs
      → Sole (update id f rs)
      → Sole (write_file calls written id f rs).0
  unfolding write_file
  write_file-Sole written id f rs sole changed = changed
  write_file-Sole (unsynced e) id f rs sole changed = changed
  write_file-Sole (unwritten e) id f rs sole changed = sole

  pub empty-Sole :
      (id : Bytes) (rs : Routes) → has id rs ≡ false → Sole rs → Sole (empty_route id ∷ rs)
  empty-Sole id rs new sole = (new, tt, sole)

  write_reservation-Sole :
      (id : Bytes) (port : ℕ) (rs : Routes)
      → has id rs ≡ false
      → Free port rs
      → Sole rs
      → Sole (write_reservation calls id port (empty_route id ∷ rs)).0
  write_reservation-Sole id port rs new free sole = same_routes _ (
      write_file-Sole calls.write_reservation id (with_reservation calls id port)
        (empty_route id ∷ rs) (empty-Sole id rs new sole)
        (with_reservation-Sole id port rs new free sole))
    where
      same_routes :
          (x : Routes × Result (RouteError E) (Unit {0}))
          → Sole x.0
          → Sole (and_then {B = Bool} x (λ _ rs. (rs, ok true))).0
      same_routes (rs, ok _) sole = sole
      same_routes (rs, err e) sole = sole

  if_free-Sole :
      (id : Bytes) (port : ℕ) (rs : Routes) (found : Result (RouteError E) (Option Bytes))
      → has id rs ≡ false
      → Sole rs
      → (found ≡ ok none → Free port rs)
      → ((owner : Bytes) → found ≡ ok (some owner) → has owner rs ≡ true)
      → Sole (if_free calls id port found (empty_route id ∷ rs)).0
  if_free-Sole id port rs (err e) new sole free there = empty-Sole id rs new sole
  if_free-Sole id port rs (ok none) new sole free there =
      write_reservation-Sole id port rs new (free refl) sole
  if_free-Sole id port rs (ok (some owner)) new sole free there = by_owner (equal owner id) refl
    where
      by_owner :
          (b : Bool)
          → equal owner id ≡ b
          → Sole
              (if not b
                then refuse_taken calls id owner (empty_route id ∷ rs)
                else write_reservation calls id port (empty_route id ∷ rs)).0
      by_owner true e =
          let same : owner ≡ id = (equal_iff owner id).0 e in
          absurd (ground (arith, there owner refl, ap (λ name. has name rs) same))
      by_owner false e =
          release-Sole id calls.remove_taken (empty_route id ∷ rs) (empty-Sole id rs new sole)

  listed-Sole :
      (id : Bytes) (port : ℕ) (rs : Routes) (read : Option E)
      → has id rs ≡ false
      → Sole rs
      → Sole
          (if_free calls id port
            (listed_owner calls port read (empty_route id ∷ rs))
            (empty_route id ∷ rs)).0
  unfolding port_owner
  listed-Sole id port rs (some e) new sole = empty-Sole id rs new sole
  listed-Sole id port rs none new sole =
      if_free-Sole id port rs (port_owner port rs) new sole (port_owner-Free port rs)
        (λ owner e. port_owner-has port rs owner e)

  refused-Sole :
      (id : Bytes) (port : ℕ) (rs : Routes) (e : RouteError E)
      → Sole rs
      → Sole (reserved_then calls id port (rs, err e)).0
  refused-Sole id port rs e sole = by_same (is_same_reservation id port (reservation_of id rs))
    where
      by_same :
          (b : Bool)
          → (let out : Routes × Result (RouteError E) Bool =
                if b then (rs, ok false) else (rs, err e) in
              Sole out.0)
      by_same true = sole
      by_same false = sole

  reserved_then-Sole :
      (id : Bytes) (port : ℕ) (rs : Routes)
      → Sole rs
      → Sole (reserved_then calls id port (reserve calls id rs)).0
  unfolding reserve
  reserved_then-Sole id port rs sole = by_name (is_route_id id) calls.make_root (has id rs) refl
    where
      by_call :
          (make change_mode : Option E)
          → has id rs ≡ false
          → Sole (reserved_then calls id port (made calls id make change_mode rs)).0
      by_call (some e) change_mode new = refused-Sole id port rs _ sole
      by_call none (some e) new =
          refused-Sole id port (empty_route id ∷ rs) _ (empty-Sole id rs new sole)
      by_call none none new = listed-Sole id port rs calls.read_root new sole

      by_name :
          (b : Bool) (root : Option E) (there : Bool)
          → has id rs ≡ there
          → Sole
              (reserved_then calls id port
                (if not b then (rs, err bad_route_id) else make_new calls id root rs)).0
      by_name false root there e = refused-Sole id port rs _ sole
      by_name true (some x) there e = refused-Sole id port rs _ sole
      by_name true none true e = rw e (refused-Sole id port rs _ sole)
      by_name true none false e = rw e (by_call calls.make_route calls.change_mode e)

  pub reserve_port_locked-Sole :
      (id : Bytes) (port : ℕ) (rs : Routes)
      → Sole rs
      → Sole (reserve_port_locked calls id port rs).0
  unfolding reserve_port_locked
  reserve_port_locked-Sole id port rs sole =
      by_test (port == 0) (is_same_reservation id port (reservation_of id rs))
    where
      by_test :
          (z s : Bool)
          → Sole
              (if z
                then (rs, err port_zero)
                else if s
                then (rs, ok false)
                else reserved_then calls id port (reserve calls id rs)).0
      by_test true s = sole
      by_test false true = sole
      by_test false false = reserved_then-Sole id port rs sole
