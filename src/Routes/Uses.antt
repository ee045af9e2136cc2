-- ===== src/Routes/Uses.antt =====
-- Any number of operations on the routes, whatever the operating system does.
use warptweet.Prelude.{
  ℕ, Bool, true, false, not, [], ◌∷◌, Bytes, ◌==◌, equal, equal_iff, if◌then◌else◌, Option, none,
  some, Result, ok, err, ◌≡◌, ◌≢◌, refl, sym, ◌∙◌, arith,
}
use mathlib.Core.Path.{subst}
use warptweet.Routes.Store.{
  holds, Reservation, Transaction, Routes, RouteError, Calls, has, reservation_of, transaction_of,
  empty_route, release_reservation_locked, bad_route_id, unsupported_phase, wrong_phase, Action,
  and_then, is_route_id,
}
use warptweet.Routes.Reserve.{
  write_in_directory, ensured, released, is_supported, is_reserved, reserve_port_locked,
  reserve_port, remove, write_transaction, check_existing, release_if, checked_then, locked,
  reserve_and_write_transaction,
}
use warptweet.Routes.Ports.{holds_port, Free, Apart, Sole, Sole-update}
use warptweet.Routes.Owners.{
  with_transaction-Weakens, release-Sole, write_file-Sole, empty-Sole, reserve_port_locked-Sole,
}

module _ {E : Type 0} (calls : Calls E) where
  locked-Sole :
      {A : Type 0} (lock : Option E) (m : Action E A) (rs : Routes)
      → Sole rs
      → Sole (m rs).0
      → Sole (locked calls lock m rs).0
  locked-Sole none m rs sole done = done
  locked-Sole (some e) m rs sole done = sole

  reserve_port-Sole :
      (id : Bytes) (port : ℕ) (rs : Routes) → Sole rs → Sole (reserve_port calls id port rs).0
  unfolding reserve_port
  reserve_port-Sole id port rs sole =
      locked-Sole calls.lock (reserve_port_locked calls id port) rs sole
        (reserve_port_locked-Sole calls id port rs sole)

  remove-Sole : (id : Bytes) (rs : Routes) → Sole rs → Sole (remove calls id rs).0
  unfolding remove
  remove-Sole id rs sole = by_name (is_route_id id)
    where
      by_name :
          (b : Bool)
          → (let out : Routes × Result (RouteError E) (Unit {0}) =
                if not b
                then (rs, err bad_route_id)
                else locked calls calls.lock
                    (λ rs. released calls (release_reservation_locked id calls.remove rs))
                    rs in
              Sole out.0)
      by_name false = sole
      by_name true =
          locked-Sole calls.lock
            (λ rs. released calls (release_reservation_locked id calls.remove rs)) rs sole
            (release-Sole id calls.remove rs sole)

  ensured-Sole : (id : Bytes) (rs : Routes) → Sole rs → Sole (ensured calls id rs)
  ensured-Sole id rs sole = by_name (has id rs) refl
    where
      by_name : (b : Bool) → has id rs ≡ b → Sole (if b then rs else empty_route id ∷ rs)
      by_name true e = sole
      by_name false e = empty-Sole calls id rs e sole

  write_transaction-Sole :
      (t : Transaction) (rs : Routes) → Sole rs → Sole (write_transaction calls t rs).0
  unfolding write_transaction
  write_transaction-Sole t rs sole =
      by_test (is_route_id t.route_id) (is_supported calls t.phase) calls.make_directory
    where
      by_test :
          (n p : Bool) (make : Option E)
          → (let out : Routes × Result (RouteError E) (Unit {0}) =
                if not n
                then (rs, err bad_route_id)
                else if not p
                then (rs, err unsupported_phase)
                else write_in_directory calls t make rs in
              Sole out.0)
      by_test false p make = sole
      by_test true false make = sole
      by_test true true (some e) = sole
      by_test true true none =
          write_file-Sole calls calls.write_transaction t.route_id
            (λ r. record r { transaction = holds t }) (ensured calls t.route_id rs)
            (ensured-Sole t.route_id rs sole)
            (Sole-update (with_transaction-Weakens t) t.route_id (ensured calls t.route_id rs)
              (ensured-Sole t.route_id rs sole))

  release_if-Sole :
      (id : Bytes) (created : Bool) (x : Routes × Result (RouteError E) (Unit {0}))
      → Sole x.0
      → Sole (release_if calls id created x).0
  release_if-Sole id created (rs, ok _) sole = sole
  release_if-Sole id false (rs, err e) sole = sole
  release_if-Sole id true (rs, err e) sole = release-Sole id calls.remove rs sole

  checked_then-Sole :
      (t : Transaction) (check : Result (RouteError E) (Unit {0})) (rs : Routes)
      → Sole rs
      → Sole (checked_then calls t check rs).0
  checked_then-Sole t (err e) rs sole = sole
  checked_then-Sole t (ok _) rs sole =
      after_reserve _ (reserve_port_locked-Sole calls t.route_id t.listen_port rs sole)
    where
      after_reserve :
          (x : Routes × Result (RouteError E) Bool)
          → Sole x.0
          → Sole
              (and_then x (λ created rs.
                release_if calls t.route_id created (write_transaction calls t rs))).0
      after_reserve (rs, ok created) sole =
          release_if-Sole t.route_id created _ (write_transaction-Sole t rs sole)
      after_reserve (rs, err e) sole = sole

  reserve_and_write_transaction-Sole :
      (t : Transaction) (rs : Routes) → Sole rs → Sole (reserve_and_write_transaction calls t rs).0
  unfolding reserve_and_write_transaction
  reserve_and_write_transaction-Sole t rs sole =
      by_test (is_reserved calls t.phase) (is_route_id t.route_id)
    where
      checked : Action E (Unit {0})
      checked rs = checked_then calls t (check_existing calls t (transaction_of t.route_id rs)) rs

      by_test :
          (p n : Bool)
          → (let out : Routes × Result (RouteError E) (Unit {0}) =
                if not p
                then (rs, err wrong_phase)
                else if not n
                then (rs, err bad_route_id)
                else locked calls calls.lock checked rs in
              Sole out.0)
      by_test false n = sole
      by_test true false = sole
      by_test true true = locked-Sole calls.lock checked rs sole (checked_then-Sole t _ rs sole)

-- The operations that change the routes, one after the other, each with any outcome of the calls
-- of the operating system.
pub data Uses (E : Type 0) (rs : Routes) : Routes → Type 0 where
  unused : Uses E rs rs
  reserves :
      {ss : Routes}
      → Uses E rs ss
      → (calls : Calls E) (id : Bytes) (port : ℕ) → Uses E rs (reserve_port calls id port ss).0
  removes :
      {ss : Routes}
      → Uses E rs ss
      → (calls : Calls E) (id : Bytes) → Uses E rs (remove calls id ss).0
  writes :
      {ss : Routes}
      → Uses E rs ss
      → (calls : Calls E) (t : Transaction) → Uses E rs (write_transaction calls t ss).0
  connects :
      {ss : Routes}
      → Uses E rs ss
      → (calls : Calls E) (t : Transaction) → Uses E rs (reserve_and_write_transaction calls t ss).0

Uses-Sole : {E : Type 0} {rs ss : Routes} → Sole rs → Uses E rs ss → Sole ss
Uses-Sole sole unused = sole
Uses-Sole sole (reserves {ss} uses calls id port) =
    reserve_port-Sole calls id port ss (Uses-Sole sole uses)
Uses-Sole sole (removes {ss} uses calls id) = remove-Sole calls id ss (Uses-Sole sole uses)
Uses-Sole sole (writes {ss} uses calls t) = write_transaction-Sole calls t ss (Uses-Sole sole uses)
Uses-Sole sole (connects {ss} uses calls t) =
    reserve_and_write_transaction-Sole calls t ss (Uses-Sole sole uses)

-- Two routes of the list with the same port are the same one.
Free-reservation_of :
    (port : ℕ) (rs : Routes) (id : Bytes) (held : Reservation)
    → Free port rs
    → reservation_of id rs ≡ holds held
    → held.listen_port ≢ port
Free-reservation_of port [] id held free e = cc
Free-reservation_of port (r ∷ rs) id held (h, free) e =
    by_id (equal r.route_id id) e (Free-reservation_of port rs id held free)
  where
    by_id :
        (b : Bool)
        → (if b then r.reservation else reservation_of id rs) ≡ holds held
        → (reservation_of id rs ≡ holds held → held.listen_port ≢ port)
        → held.listen_port ≢ port
    by_id true e ih same =
        let other : (held.listen_port == port) ≡ false =
          subst (λ file. holds_port port file ≡ false) e h in
        ground arith
    by_id false e ih same = ih e same

one_owner :
    (rs : Routes) (a b : Bytes) (held held' : Reservation)
    → Sole rs
    → reservation_of a rs ≡ holds held
    → reservation_of b rs ≡ holds held'
    → held.listen_port ≡ held'.listen_port
    → a ≡ b
one_owner [] a b held held' sole e e' same = cc
one_owner (r ∷ rs) a b held held' (new, apart, sole) e e' same =
    by_ids (equal r.route_id a) (equal r.route_id b) refl refl e e'
      (λ f f'. one_owner rs a b held held' sole f f' same)
  where
    by_ids :
        (p q : Bool)
        → equal r.route_id a ≡ p
        → equal r.route_id b ≡ q
        → (if p then r.reservation else reservation_of a rs) ≡ holds held
        → (if q then r.reservation else reservation_of b rs) ≡ holds held'
        → (reservation_of a rs ≡ holds held → reservation_of b rs ≡ holds held' → a ≡ b)
        → a ≡ b
    by_ids true true p q e e' ih = sym ((equal_iff r.route_id a).0 p) ∙ (equal_iff r.route_id b).0 q
    by_ids true false p q e e' ih = absurd (
        Free-reservation_of held.listen_port rs b held' (subst (λ file. Apart file rs) e apart) e'
          (sym same))
    by_ids false true p q e e' ih = absurd (
        Free-reservation_of held'.listen_port rs a held (subst (λ file. Apart file rs) e' apart) e
          same)
    by_ids false false p q e e' ih = ih e e'

-- After any number of reservations, removals and transactions on an empty store, whichever of
-- them fail and wherever the operating system stops them, two routes never have reserved the same
-- listen port.
pub Uses-one_owner :
    {E : Type 0} (rs : Routes) (a b : Bytes) (held held' : Reservation)
    → Uses E [] rs
    → reservation_of a rs ≡ holds held
    → reservation_of b rs ≡ holds held'
    → held.listen_port ≡ held'.listen_port
    → a ≡ b
Uses-one_owner rs a b held held' uses = one_owner rs a b held held' (Uses-Sole tt uses)
