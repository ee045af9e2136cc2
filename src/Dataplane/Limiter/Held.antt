-- ===== src/Dataplane/Limiter/Held.antt =====
-- The places that the connections of a source hold.
use warptweet.Prelude.{
  ℕ, suc, ◌+◌, ◌-◌, ◌≤◌, ◌≡◌, refl, sym, ap, ◌∙◌, ℤ, pos, negsuc, le_int, Bool, true, false, List,
  [], ◌∷◌, ◌++◌, Option, none, some, Bytes, equal, equal_iff, equal_refl, leb, if◌then◌else◌, arith,
}
use mathlib.Core.Path.{subst}
use warptweet.Dataplane.Limiter.{
  Entry, SourceLimiter, count_of, delete, store, entries, acquire_in, acquire, release_in,
  release_counts, release, Using, fresh, acquired, refused, released,
}

-- How often a source is among those that hold a place.
unfoldable pub occurrences : Bytes → List Bytes → ℕ
occurrences source [] = 0
occurrences source (x ∷ xs) = (if equal x source then 1 else 0) + occurrences source xs

occurrences-append :
    (q : Bytes) (xs ys : List Bytes)
    → occurrences q (xs ++ ys) ≡ occurrences q xs + occurrences q ys
unfolding occurrences
occurrences-append q [] ys = omega arith
occurrences-append q (x ∷ xs) ys = let ih = occurrences-append q xs ys in omega arith

equal_congr : (a b q : Bytes) → equal a b ≡ true → equal b q ≡ equal a q
equal_congr a b q h = ap (λ x. equal x q) (sym ((equal_iff a b).0 h))

equal_apart : (a b q : Bytes) → equal a b ≡ false → equal b q ≡ true → equal a q ≡ false
equal_apart a b q h g = go (equal a q) refl
  where
    go : (c : Bool) → equal a q ≡ c → c ≡ false
    go false e = refl
    go true e =
        let both : a ≡ b = (equal_iff a q).0 e ∙ sym ((equal_iff b q).0 g) in
        let t : equal a b ≡ true = (equal_iff a b).1 both in cc

-- Taking a source out leaves the counts of the others.
count_of-delete :
    (source q : Bytes) (es : List Entry)
    → count_of q (delete source es) ≡ (if equal source q then 0 else count_of q es)
unfolding count_of delete
count_of-delete source q [] = ground arith
count_of-delete source q (e ∷ es) =
    go (equal e.source source) (equal_congr e.source source q) (equal_apart e.source source q)
      (count_of-delete source q es)
  where
    go :
        (b : Bool)
        → (b ≡ true → equal source q ≡ equal e.source q)
        → (b ≡ false → equal source q ≡ true → equal e.source q ≡ false)
        → count_of q (delete source es) ≡ (if equal source q then 0 else count_of q es)
        → count_of q (if b then delete source es else e ∷ delete source es)
          ≡ (if equal source q then 0 else if equal e.source q then e.count else count_of q es)
    go true same apart ih = let s = same refl in ground arith
    go false same apart ih = let a = apart refl in ground arith

-- Every source has the count of its places.
abbrev pub Counted : Option (List Entry) → List Bytes → Type 0
Counted counts held = (q : Bytes) → count_of q (entries counts) ≡ occurrences q held

count_of-store :
    (source q : Bytes) (n : ℕ) (es : List Entry)
    → count_of q (store source n es) ≡ (if equal source q then n else count_of q es)
unfolding count_of
count_of-store source q n es = let r = count_of-delete source q es in ground arith

count_of-same :
    (source q : Bytes) (es : List Entry)
    → equal source q ≡ true
    → count_of source es ≡ count_of q es
count_of-same source q es h = ap (λ x. count_of x es) ((equal_iff source q).0 h)

stored-Counted :
    (source : Bytes) (es : List Entry) (held : List Bytes)
    → Counted (some es) held
    → Counted (some (store source (count_of source es + 1) es)) (source ∷ held)
unfolding occurrences
stored-Counted source es held h q =
    let a = count_of-store source q (count_of source es + 1) es in
    let b = count_of-same source q es in let k = h q in ground arith

dropped-Counted :
    (source : Bytes) (es : List Entry) (earlier later : List Bytes)
    → Counted (some es) (earlier ++ source ∷ later)
    → Counted (some (release_in source es)) (earlier ++ later)
unfolding occurrences release_in
dropped-Counted source es earlier later h q =
    go (count_of source es) (leb (count_of source es) 1) refl (count_of-delete source q es)
      (count_of-store source q (count_of source es - 1) es) (count_of-same source q es) (h q)
      (occurrences-append q earlier (source ∷ later)) (occurrences-append q earlier later)
  where
    go :
        (n : ℕ) (b : Bool)
        → leb n 1 ≡ b
        → count_of q (delete source es) ≡ (if equal source q then 0 else count_of q es)
        → count_of q (store source (n - 1) es) ≡ (if equal source q then n - 1 else count_of q es)
        → (equal source q ≡ true → n ≡ count_of q es)
        → count_of q es ≡ occurrences q (earlier ++ source ∷ later)
        → occurrences q (earlier ++ source ∷ later)
          ≡ occurrences q earlier + ((if equal source q then 1 else 0) + occurrences q later)
        → occurrences q (earlier ++ later) ≡ occurrences q earlier + occurrences q later
        → count_of q (if b then delete source es else store source (n - 1) es)
          ≡ occurrences q (earlier ++ later)
    go n true e r s same k o o' = ground arith
    go n false e r s same k o o' = ground arith

-- The counts are those of the places, and no source has more places than the limit.
pub record Limited (n : ℕ) (s : SourceLimiter) (held : List Bytes) : Type 0 where
  pub limit_is : s.limit ≡ pos (suc n)
  pub counted : Counted s.counts held
  pub within_limit : (q : Bytes) → occurrences q held ≤ suc n

acquire-limited :
    (n : ℕ) (source : Bytes) (s : SourceLimiter) {r : Bool × SourceLimiter}
    → s.limit ≡ pos (suc n)
    → acquire source s ≡ r
    → acquire_in (pos (suc n)) source (entries s.counts) ≡ r
unfolding acquire
acquire-limited n source s {r} l e =
    subst (λ i. acquire_in i source (entries s.counts) ≡ r) l
      (go (le_int s.limit (pos 0)) (positive s.limit l) e)
  where
    positive : (limit : ℤ) → limit ≡ pos (suc n) → le_int limit (pos 0) ≡ false
    positive (pos k) l = ground arith
    positive (negsuc k) l = cc

    go :
        (b : Bool)
        → b ≡ false
        → ◌≡◌ {A = Bool × SourceLimiter}
            (if b then (true, s) else acquire_in s.limit source (entries s.counts))
            r
        → acquire_in s.limit source (entries s.counts) ≡ r
    go false h e = e
    go true h e = cc

room-Limited :
    (n : ℕ) (source : Bytes) (es : List Entry) (held : List Bytes)
    → Counted (some es) held
    → ((q : Bytes) → occurrences q held ≤ suc n)
    → le_int (pos (suc n)) (pos (count_of source es)) ≡ false
    → (q : Bytes) → occurrences q (source ∷ held) ≤ suc n
unfolding occurrences
room-Limited n source es held c w l q =
    let same = count_of-same source q es in let k = c q in let m = w q in ground arith

module _ (n : ℕ) (source : Bytes) (es : List Entry) (s' : SourceLimiter) (held : List Bytes) where
  admitted-Limited :
      Counted (some es) held
      → ((q : Bytes) → occurrences q held ≤ suc n)
      → acquire_in (pos (suc n)) source es ≡ (true, s')
      → Limited n s' (source ∷ held)
  unfolding acquire_in
  admitted-Limited c w e = go (le_int (pos (suc n)) (pos (count_of source es))) refl e
    where
      go :
          (b : Bool)
          → le_int (pos (suc n)) (pos (count_of source es)) ≡ b
          → ◌≡◌ {A = Bool × SourceLimiter}
              (if b then (false, record { limit = pos (suc n); counts = some es }) else (
                true,
                record {
                  limit = pos (suc n);
                  counts = some (store source (count_of source es + 1) es);
                },
              ))
              (true, s')
          → Limited n s' (source ∷ held)
      go true l e = cc
      go false l e =
          subst (λ p. Limited n p.1 (source ∷ held)) e
            (record {
              limit_is = refl;
              counted = stored-Counted source es held c;
              within_limit = room-Limited n source es held c w l;
            })

  kept-Limited :
      Counted (some es) held
      → ((q : Bytes) → occurrences q held ≤ suc n)
      → acquire_in (pos (suc n)) source es ≡ (false, s')
      → Limited n s' held
  unfolding acquire_in
  kept-Limited c w e = go (le_int (pos (suc n)) (pos (count_of source es))) e
    where
      go :
          (b : Bool)
          → ◌≡◌ {A = Bool × SourceLimiter}
              (if b then (false, record { limit = pos (suc n); counts = some es }) else (
                true,
                record {
                  limit = pos (suc n);
                  counts = some (store source (count_of source es + 1) es);
                },
              ))
              (false, s')
          → Limited n s' held
      go false e = cc
      go true e =
          subst (λ p. Limited n p.1 held) e
            (record { limit_is = refl; counted = c; within_limit = w })

released-Counted :
    (source : Bytes) (counts : Option (List Entry)) (earlier later : List Bytes)
    → Counted counts (earlier ++ source ∷ later)
    → Counted (release_counts source counts) (earlier ++ later)
unfolding release_counts count_of occurrences
released-Counted source (some es) earlier later c = dropped-Counted source es earlier later c
released-Counted source none earlier later c =
    absurd
      (placed (c source) (occurrences-append source earlier (source ∷ later)) (equal_refl source))
  where
    placed :
        count_of source [] ≡ occurrences source (earlier ++ source ∷ later)
        → occurrences source (earlier ++ source ∷ later)
          ≡ occurrences source earlier
            + ((if equal source source then 1 else 0) + occurrences source later)
        → equal source source ≡ true
        → ⊥
    placed e o h = ground arith

-- With a positive limit, no source holds more places than the limit, whatever order connections
-- come and go in, and the limiter's counts are those of the places that are held.
pub Using-Limited :
    (n : ℕ) (s : SourceLimiter) (held : List Bytes) → Using (pos (suc n)) s held → Limited n s held
unfolding release count_of occurrences
Using-Limited n _ _ fresh = record {
  limit_is = refl;
  counted = λ q. refl;
  within_limit = λ q. omega arith;
}
Using-Limited n _ _ (acquired source s s' held u e) =
    let h = Using-Limited n s held u in
    admitted-Limited n source (entries s.counts) s' held h.counted h.within_limit
      (acquire-limited n source s h.limit_is e)
Using-Limited n _ _ (refused source s s' held u e) =
    let h = Using-Limited n s held u in
    kept-Limited n source (entries s.counts) s' held h.counted h.within_limit
      (acquire-limited n source s h.limit_is e)
Using-Limited n _ _ (released source s earlier later u) =
    let h = Using-Limited n s (earlier ++ source ∷ later) u in
    record {
      limit_is = h.limit_is;
      counted = released-Counted source s.counts earlier later h.counted;
      within_limit = λ q.
          let m = h.within_limit q in
          let o = occurrences-append q earlier (source ∷ later) in
          let o' = occurrences-append q earlier later in omega arith;
    }
