-- ===== src/Session/Sole.antt =====
-- `matchingGrant`, from what it returns.
use warptweet.Prelude.{
  ◌≡◌, refl, ap, ◌∙◌, Bool, true, false, not, List, [], ◌∷◌, Option, none, some, Bytes, Result, ok,
  err, reject, >>=-eq-ok, reject-eq-ok, ok-injective, All,
}
use mathlib.Core.Path.{subst}
use warptweet.Grant.Time.{Time, Stamp, DurationError, parse_utc}
use warptweet.Grant.Expire.{ready_to_expire}
use warptweet.Session.Match.{
  ClientRecord, has_digest, is_live, is_over, check_expiry, check_grant, add_match, matches_of,
  only_match, matching_grant, grant_expired, status_is,
}

-- The grant is active or rotating its key, and has an expiry that has not come.
pub record Live (now : Time) (client : ClientRecord) : Type 0 where
  pub stamp : Stamp
  pub not_after : Time
  pub status_live : is_live client.status ≡ true
  pub has_stamp : client.authorization_not_after ≡ some stamp
  pub stamp_parses : parse_utc stamp ≡ ok not_after
  pub not_due : ready_to_expire not_after now ≡ false

abbrev pub IsOther : Bytes → ClientRecord → Type 0
IsOther wanted r = has_digest wanted r.key_digest ≡ false

-- The one record in the list whose key has the digest.
pub data Sole (wanted : Bytes) (r : ClientRecord) : List ClientRecord → Type 0 where
  here :
      (rs : List ClientRecord)
      → has_digest wanted r.key_digest ≡ true
      → All (IsOther wanted) rs
      → Sole wanted r (r ∷ rs)
  there :
      (x : ClientRecord) (rs : List ClientRecord)
      → IsOther wanted x
      → Sole wanted r rs
      → Sole wanted r (x ∷ rs)

not_over :
    (now : Time) (p : Result DurationError Time)
    → is_over now p ≡ false
    → (t : Time) × (p ≡ ok t) × (ready_to_expire t now ≡ false)
unfolding is_over
not_over now (err _) h = cc
not_over now (ok t) h = (t, refl, h)

reject-ok : {E : Type 0} (e : E) (b : Bool) {u : Unit {0}} → reject b e ≡ ok u → b ≡ false
reject-ok e true h = cc
reject-ok e false h = refl

check_grant-Live :
    (now : Time) (r : ClientRecord) {u : Unit {0}} → check_grant now r ≡ ok u → Live now r
unfolding check_grant check_expiry
check_grant-Live now r e =
    let (live, e') = reject-eq-ok (not (is_live r.status)) (status_is r.status) _ e in
    go r.authorization_not_after refl (is_true (is_live r.status) live) e'
  where
    is_true : (b : Bool) → not b ≡ false → b ≡ true
    is_true true h = refl
    is_true false h = cc

    go :
        (o : Option Stamp)
        → r.authorization_not_after ≡ o
        → is_live r.status ≡ true
        → {u : Unit {0}} → check_expiry now o ≡ ok u
        → Live now r
    go none h live e = cc
    go (some stamp) h live {u} e =
        let due = reject-ok grant_expired (is_over now (parse_utc stamp)) e in
        let (t, parses, later) = not_over now (parse_utc stamp) due in
        record {
          stamp = stamp;
          not_after = t;
          status_live = live;
          has_stamp = h;
          stamp_parses = parses;
          not_due = later;
        }

-- A loop that finds nothing has passed over others only.
matches_of-none :
    (now : Time) (wanted : Bytes) (rs : List ClientRecord)
    → matches_of now wanted rs ≡ ok []
    → All (IsOther wanted) rs
unfolding matches_of
matches_of-none now wanted [] e = tt
matches_of-none now wanted (r ∷ rs) e =
    go (has_digest wanted r.key_digest) refl (matches_of-none now wanted rs) e
  where
    go :
        (b : Bool)
        → has_digest wanted r.key_digest ≡ b
        → (matches_of now wanted rs ≡ ok [] → All (IsOther wanted) rs)
        → add_match now r b (matches_of now wanted rs) ≡ ok []
        → IsOther wanted r × All (IsOther wanted) rs
    go false h ih e = (h, ih e)
    go true h ih e =
        let (_, _, e') = >>=-eq-ok (check_grant now r) _ e in
        let (ms, _, e'') = >>=-eq-ok (matches_of now wanted rs) _ e' in
        absurd (not_empty ms (ok-injective _ _ e''))
      where
        not_empty : (ms : List ClientRecord) → r ∷ ms ≡ [] → ⊥
        not_empty ms e = cc

matches_of-one :
    (now : Time) (wanted : Bytes) (rs : List ClientRecord) (m : ClientRecord)
    → matches_of now wanted rs ≡ ok (m ∷ [])
    → Sole wanted m rs × Live now m
unfolding matches_of
matches_of-one now wanted [] m e = absurd (nothing (ok-injective _ _ e))
  where
    nothing : [] ≡ m ∷ [] → ⊥
    nothing e = cc
matches_of-one now wanted (r ∷ rs) m e =
    go (has_digest wanted r.key_digest) refl (matches_of-one now wanted rs m) e
  where
    go :
        (b : Bool)
        → has_digest wanted r.key_digest ≡ b
        → (matches_of now wanted rs ≡ ok (m ∷ []) → Sole wanted m rs × Live now m)
        → add_match now r b (matches_of now wanted rs) ≡ ok (m ∷ [])
        → Sole wanted m (r ∷ rs) × Live now m
    go false h ih e = let (sole, live) = ih e in (there r rs h sole, live)
    go true h ih e =
        let (_, checked, e') = >>=-eq-ok (check_grant now r) _ e in
        let (ms, found, e'') = >>=-eq-ok (matches_of now wanted rs) _ e' in
        let same : r ≡ m = ap (first m) (ok-injective _ _ e'') in
        let none_left : ms ≡ [] = ap others (ok-injective _ _ e'') in
        subst (λ x. Sole wanted x (r ∷ rs) × Live now x) same
          (
            here rs h (matches_of-none now wanted rs (found ∙ ap ok none_left)),
            check_grant-Live now r checked,
          )
      where
        first : ClientRecord → List ClientRecord → ClientRecord
        first d [] = d
        first d (x ∷ _) = x

        others : List ClientRecord → List ClientRecord
        others [] = []
        others (_ ∷ xs) = xs

only_match-one : (ms : List ClientRecord) (m : ClientRecord) → only_match ms ≡ ok m → ms ≡ m ∷ []
only_match-one [] m e = cc
only_match-one (r ∷ []) m e = ap (λ x. x ∷ []) (ok-injective _ _ e)
only_match-one (_ ∷ _ ∷ _) m e = cc

-- A session is bound to a grant only if that grant's key alone has the digest, among all clients,
-- and the grant is active or rotating its key, and its expiry has not come.
pub matching_grant-Sole :
    (now : Time) (wanted : Bytes) (rs : List ClientRecord) (m : ClientRecord)
    → matching_grant now wanted rs ≡ ok m
    → Sole wanted m rs × Live now m
unfolding matching_grant
matching_grant-Sole now wanted rs m e =
    let (ms, found, only) = >>=-eq-ok (matches_of now wanted rs) only_match e in
    matches_of-one now wanted rs m (found ∙ ap ok (only_match-one ms m only))

matches_of-others :
    (now : Time) (wanted : Bytes) (rs : List ClientRecord)
    → All (IsOther wanted) rs
    → matches_of now wanted rs ≡ ok []
unfolding matches_of
matches_of-others now wanted [] h = refl
matches_of-others now wanted (r ∷ rs) h =
    ap (λ b. add_match now r b (matches_of now wanted rs)) h.0 ∙ matches_of-others now wanted rs h.1

check_grant-ok : (now : Time) (r : ClientRecord) → Live now r → check_grant now r ≡ ok tt
unfolding check_grant check_expiry is_over
check_grant-ok now r l = rw l.status_live (rw l.has_stamp (rw l.stamp_parses (rw l.not_due refl)))

matches_of-Sole :
    (now : Time) (wanted : Bytes) (m : ClientRecord) (rs : List ClientRecord)
    → Sole wanted m rs
    → Live now m
    → matches_of now wanted rs ≡ ok (m ∷ [])
unfolding matches_of
matches_of-Sole now wanted m _ (here rs h others) l =
    ap (λ b. add_match now m b (matches_of now wanted rs)) h
    ∙ rw (check_grant-ok now m l) (rw (matches_of-others now wanted rs others) refl)
matches_of-Sole now wanted m _ (there x rs h s) l =
    ap (λ b. add_match now x b (matches_of now wanted rs)) h ∙ matches_of-Sole now wanted m rs s l

-- The grant of a key is found, wherever it stands among the clients, if no other client's key has
-- the digest, the grant is active or rotating its key, and its expiry has not come.
pub matching_grant-finds :
    (now : Time) (wanted : Bytes) (rs : List ClientRecord) (m : ClientRecord)
    → Sole wanted m rs
    → Live now m
    → matching_grant now wanted rs ≡ ok m
unfolding matching_grant
matching_grant-finds now wanted rs m s l = rw (matches_of-Sole now wanted m rs s l) refl
