-- ===== src/Routes/Ports.antt =====
-- The listen ports that the routes have reserved.
use warptweet.Prelude.{
  ℕ, Bool, true, false, ◌||◌, [], ◌∷◌, Bytes, ◌==◌, equal, if◌then◌else◌, ◌≡◌, ◌⊎◌, inl, inr, refl,
  ap, sym, ◌∙◌, All, arith,
}
use mathlib.Core.Path.{subst}
use warptweet.Routes.Store.{
  File, absent, broken, holds, Reservation, Route, Routes, has, update, delete,
}

abbrev pub holds_port : ℕ → File Reservation → Bool
holds_port port (holds held) = held.listen_port == port
holds_port port _ = false

abbrev pub Free : ℕ → Routes → Type 0
Free port = All (λ r. holds_port port r.reservation ≡ false)

abbrev pub Apart : File Reservation → Routes → Type 0
Apart (holds held) rs = Free held.listen_port rs
Apart _ rs = Unit {0}

-- One directory for a route, and no two of them with the same port.
abbrev pub Sole : Routes → Type 0
Sole [] = Unit {0}
Sole (r ∷ rs) = (has r.route_id rs ≡ false) × Apart r.reservation rs × Sole rs

-- A change that keeps the reservation of a route, or drops it.
pub record Weakens (f : Route → Route) : Type 0 where
  pub same_id : (r : Route) → (f r).route_id ≡ r.route_id
  pub less : (r : Route) → ((f r).reservation ≡ r.reservation) ⊎ ((f r).reservation ≡ absent)

module _ {f : Route → Route} (w : Weakens f) (id : Bytes) where
  has-update : (name : Bytes) (rs : Routes) → has name (update id f rs) ≡ has name rs
  has-update name [] = refl
  has-update name (r ∷ rs) = by_id (equal r.route_id id) (has-update name rs)
    where
      by_id :
          (b : Bool)
          → has name (update id f rs) ≡ has name rs
          → has name (if b then f r ∷ update id f rs else r ∷ update id f rs) ≡ has name (r ∷ rs)
      by_id true ih = rw (w.same_id r) (ap (λ h. equal r.route_id name || h) ih)
      by_id false ih = ap (λ h. equal r.route_id name || h) ih

  Free-update : (port : ℕ) (rs : Routes) → Free port rs → Free port (update id f rs)
  Free-update port [] free = tt
  Free-update port (r ∷ rs) (h, free) =
      by_id (equal r.route_id id) (w.less r) (Free-update port rs free)
    where
      by_id :
          (b : Bool)
          → ((f r).reservation ≡ r.reservation) ⊎ ((f r).reservation ≡ absent)
          → Free port (update id f rs)
          → Free port (if b then f r ∷ update id f rs else r ∷ update id f rs)
      by_id true (inl e) free = (rw e h, free)
      by_id true (inr e) free = (rw e refl, free)
      by_id false less free = (h, free)

  Apart-update :
      (held : File Reservation) (rs : Routes) → Apart held rs → Apart held (update id f rs)
  Apart-update (holds held) rs apart = Free-update held.listen_port rs apart
  Apart-update absent rs apart = tt
  Apart-update broken rs apart = tt

  pub Sole-update : (rs : Routes) → Sole rs → Sole (update id f rs)
  Sole-update [] sole = tt
  Sole-update (r ∷ rs) (new, apart, sole) =
      by_id (equal r.route_id id) (w.less r) (Sole-update rs sole)
    where
      fresh : has r.route_id (update id f rs) ≡ false
      fresh = has-update r.route_id rs ∙ new

      by_id :
          (b : Bool)
          → ((f r).reservation ≡ r.reservation) ⊎ ((f r).reservation ≡ absent)
          → Sole (update id f rs)
          → Sole (if b then f r ∷ update id f rs else r ∷ update id f rs)
      by_id true (inl e) sole = (
        rw (w.same_id r) fresh,
        subst (λ held. Apart held (update id f rs)) (sym e) (Apart-update r.reservation rs apart),
        sole,
      )
      by_id true (inr e) sole =
          (rw (w.same_id r) fresh, subst (λ held. Apart held (update id f rs)) (sym e) tt, sole)
      by_id false less sole = (fresh, Apart-update r.reservation rs apart, sole)

module _ (id : Bytes) where
  has-delete : (name : Bytes) (rs : Routes) → has name rs ≡ false → has name (delete id rs) ≡ false
  has-delete name [] h = refl
  has-delete name (r ∷ rs) h = ground (arith, has-delete name rs)

  Free-delete : (port : ℕ) (rs : Routes) → Free port rs → Free port (delete id rs)
  Free-delete port [] free = tt
  Free-delete port (r ∷ rs) (h, free) = by_id (equal r.route_id id) (Free-delete port rs free)
    where
      by_id :
          (b : Bool)
          → Free port (delete id rs)
          → Free port (if b then delete id rs else r ∷ delete id rs)
      by_id true free = free
      by_id false free = (h, free)

  Apart-delete : (held : File Reservation) (rs : Routes) → Apart held rs → Apart held (delete id rs)
  Apart-delete (holds held) rs apart = Free-delete held.listen_port rs apart
  Apart-delete absent rs apart = tt
  Apart-delete broken rs apart = tt

  pub Sole-delete : (rs : Routes) → Sole rs → Sole (delete id rs)
  Sole-delete [] sole = tt
  Sole-delete (r ∷ rs) (new, apart, sole) = by_id (equal r.route_id id) (Sole-delete rs sole)
    where
      by_id : (b : Bool) → Sole (delete id rs) → Sole (if b then delete id rs else r ∷ delete id rs)
      by_id true sole = sole
      by_id false sole = (has-delete r.route_id rs new, Apart-delete r.reservation rs apart, sole)
