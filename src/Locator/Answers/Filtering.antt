-- ===== src/Locator/Answers/Filtering.antt =====
-- What the loop of `FilterAnswers` finds.
use warptweet.Prelude.{
  ℕ, zero, suc, ◌≤◌, Bool, true, false, not, ◌||◌, List, [], ◌∷◌, ◌++◌, append_assoc, append-nil,
  length, length-append, take, take-append, leb, if◌then◌else◌, ◌≡◌, refl, ap, sym, ◌∙◌, arith,
}
use warptweet.Locator.Address.{
  Addr, same_addr, same_addr_iff, canonical_addr, is_6, validate_answer,
}
use warptweet.Locator.Answers.{
  max_answers_per_family, Filtered, member, is_ok, push, add_new, filter_turn, filter_loop,
}

abbrev pub keep_if : (Addr → Bool) → List Addr → List Addr
keep_if test [] = []
keep_if test (a ∷ xs) = let rest = keep_if test xs in if test a then a ∷ rest else rest

abbrev pub canonicals : List Addr → List Addr
canonicals [] = []
canonicals (a ∷ xs) = canonical_addr a ∷ canonicals xs

-- The first occurrence of each address.
abbrev pub firsts : List Addr → List Addr
firsts [] = []
firsts (a ∷ xs) = a ∷ keep_if (λ b. not (same_addr b a)) (firsts xs)

-- The permitted addresses, once each, in the order of the answers.
abbrev pub permitted : Bool → List Addr → List Addr
permitted allow_loopback answers =
    firsts (keep_if (λ a. is_ok (validate_answer a allow_loopback)) (canonicals answers))

-- the addresses that were not seen
abbrev pub without : List Addr → List Addr → List Addr
without seen = keep_if (λ a. not (member a seen))

without-remove :
    (seen : List Addr) (x : Addr) (xs : List Addr)
    → without seen (keep_if (λ b. not (same_addr b x)) xs) ≡ without (x ∷ seen) xs
without-remove seen x [] = refl
without-remove seen x (a ∷ xs) = ground (arith, without-remove seen x xs)

without-seen :
    (seen : List Addr) (x : Addr) (xs : List Addr)
    → member x seen ≡ true
    → without (x ∷ seen) xs ≡ without seen xs
without-seen seen x [] e = refl
without-seen seen x (a ∷ xs) e = by_test (same_addr a x) refl (without-seen seen x xs e)
  where
    by_test :
        (b : Bool)
        → same_addr a x ≡ b
        → without (x ∷ seen) xs ≡ without seen xs
        → (if not (b || member a seen) then a ∷ without (x ∷ seen) xs else without (x ∷ seen) xs)
          ≡ (if not (member a seen) then a ∷ without seen xs else without seen xs)
    by_test true h ih = rw ((same_addr_iff a x).0 h) (rw e ih)
    by_test false h ih = rw ih refl

pub without-none : (xs : List Addr) → without [] xs ≡ xs
without-none [] = refl
without-none (a ∷ xs) = ap (◌∷◌ a) (without-none xs)

-- A family that is filled in order, as far as it goes, takes the next ones.
take-push :
    (family : List Addr) (x : Addr) (rest : List Addr)
    → length family ≤ max_answers_per_family
    → (take max_answers_per_family (push family x ++ rest)
        ≡ take max_answers_per_family (family ++ x ∷ rest))
      × (length (push family x) ≤ max_answers_per_family)
take-push family x rest h = by_room (leb max_answers_per_family (length family)) refl
  where
    by_room :
        (b : Bool)
        → leb max_answers_per_family (length family) ≡ b
        → (take max_answers_per_family ((if b then family else family ++ x ∷ []) ++ rest)
            ≡ take max_answers_per_family (family ++ x ∷ rest))
          × (length (if b then family else family ++ x ∷ []) ≤ max_answers_per_family)
    by_room true e =
        let full : 4 ≡ length family = ground arith in
        (take-append 4 family rest full ∙ sym (take-append 4 family (x ∷ rest) full), h)
    by_room false e = (
      ap (take 4) (append_assoc family (x ∷ []) rest),
      ground (arith, length-append family (x ∷ [])),
    )

-- What the loop will have found, from what it has.
pub record Finds (allow_loopback : Bool) (answers : List Addr) (s t : Filtered) : Type 0 where
  pub v6_is :
      t.v6
      ≡ take max_answers_per_family
          (s.v6 ++ keep_if is_6 (without s.seen (permitted allow_loopback answers)))
  pub v4_is :
      t.v4
      ≡ take max_answers_per_family
          (s.v4 ++ keep_if (λ a. not (is_6 a)) (without s.seen (permitted allow_loopback answers)))

pub record Fits (s : Filtered) : Type 0 where
  pub v6_fits : length s.v6 ≤ max_answers_per_family
  pub v4_fits : length s.v4 ≤ max_answers_per_family

take-all : (n : ℕ) (xs : List Addr) → length xs ≤ n → take n xs ≡ xs
take-all zero [] h = refl
take-all zero (x ∷ xs) h = absurd (omega arith)
take-all (suc n) [] h = refl
take-all (suc n) (x ∷ xs) h = ap (◌∷◌ x) (take-all n xs (omega arith))

module _ (allow_loopback : Bool) where
  -- The next answer adds itself, if it is permitted and new.
  permitted-cons :
      (seen : List Addr) (answer : Addr) (answers : List Addr)
      → without seen (permitted allow_loopback (answer ∷ answers)) ≡ (
          if not (is_ok (validate_answer (canonical_addr answer) allow_loopback))
          then without seen (permitted allow_loopback answers)
          else if member (canonical_addr answer) seen
          then without seen (permitted allow_loopback answers)
          else canonical_addr answer
            ∷ without (canonical_addr answer ∷ seen) (permitted allow_loopback answers))
  permitted-cons seen answer answers =
      by_valid (is_ok (validate_answer (canonical_addr answer) allow_loopback))
        (member (canonical_addr answer) seen) refl
    where
      x : Addr
      x = canonical_addr answer

      ps : List Addr
      ps = permitted allow_loopback answers

      by_valid :
          (v m : Bool)
          → member x seen ≡ m
          → without seen (
              firsts (
                if v
                then x
                  ∷ keep_if (λ a. is_ok (validate_answer a allow_loopback)) (canonicals answers)
                else keep_if (λ a. is_ok (validate_answer a allow_loopback)) (canonicals answers)))
            ≡ (if not v
                then without seen ps
                else if m
                then without seen ps
                else x ∷ without (x ∷ seen) ps)
      by_valid false m e = refl
      by_valid true true e = rw e (without-remove seen x ps ∙ without-seen seen x ps e)
      by_valid true false e = rw e (ap (◌∷◌ x) (without-remove seen x ps))

  Finds-same :
      (answer : Addr) (answers : List Addr) (s t : Filtered)
      → without s.seen (permitted allow_loopback (answer ∷ answers))
        ≡ without s.seen (permitted allow_loopback answers)
      → Finds allow_loopback answers s t
      → Finds allow_loopback (answer ∷ answers) s t
  Finds-same answer answers s t e f = record {
    v6_is = f.v6_is ∙ ap (λ xs. take max_answers_per_family (s.v6 ++ keep_if is_6 xs)) (sym e);
    v4_is =
        f.v4_is
        ∙ ap (λ xs. take max_answers_per_family (s.v4 ++ keep_if (λ a. not (is_6 a)) xs)) (sym e);
  }

  Finds-new :
      (answer : Addr) (answers : List Addr) (s t : Filtered)
      → Fits s
      → without s.seen (permitted allow_loopback (answer ∷ answers))
        ≡ canonical_addr answer
          ∷ without (canonical_addr answer ∷ s.seen) (permitted allow_loopback answers)
      → Finds allow_loopback answers (add_new (canonical_addr answer) s) t
      → Finds allow_loopback (answer ∷ answers) s t
  unfolding add_new
  Finds-new answer answers s t fits e f = by_family (is_6 x) refl f
    where
      x : Addr
      x = canonical_addr answer

      rest : List Addr
      rest = without (x ∷ s.seen) (permitted allow_loopback answers)

      by_family :
          (b : Bool)
          → is_6 x ≡ b
          → Finds allow_loopback answers
              (if b
                then record s { v6 = push s.v6 x; seen = x ∷ s.seen }
                else record s { v4 = push s.v4 x; seen = x ∷ s.seen })
              t
          → Finds allow_loopback (answer ∷ answers) s t
      by_family true h f = record {
        v6_is = rw (e, h) (f.v6_is ∙ (take-push s.v6 x (keep_if is_6 rest) fits.v6_fits).0);
        v4_is = rw (e, h) f.v4_is;
      }
      by_family false h f = record {
        v6_is = rw (e, h) f.v6_is;
        v4_is =
            rw (e, h)
              (f.v4_is ∙ (take-push s.v4 x (keep_if (λ a. not (is_6 a)) rest) fits.v4_fits).0);
      }

  add_new-Fits : (x : Addr) (s : Filtered) → Fits s → Fits (add_new x s)
  unfolding add_new
  add_new-Fits x s fits = by_family (is_6 x)
    where
      by_family :
          (b : Bool)
          → Fits (
              if b
              then record s { v6 = push s.v6 x; seen = x ∷ s.seen }
              else record s { v4 = push s.v4 x; seen = x ∷ s.seen })
      by_family true = record {
        v6_fits = (take-push s.v6 x [] fits.v6_fits).1;
        v4_fits = fits.v4_fits;
      }
      by_family false = record {
        v6_fits = fits.v6_fits;
        v4_fits = (take-push s.v4 x [] fits.v4_fits).1;
      }

  pub filter_loop-Finds :
      (answers : List Addr) (s : Filtered)
      → Fits s
      → Finds allow_loopback answers s (filter_loop allow_loopback answers s)
  unfolding filter_loop filter_turn
  filter_loop-Finds [] s fits = record {
    v6_is = sym (ap (take max_answers_per_family) (append-nil s.v6) ∙ take-all 4 s.v6 fits.v6_fits);
    v4_is = sym (ap (take max_answers_per_family) (append-nil s.v4) ∙ take-all 4 s.v4 fits.v4_fits);
  }
  filter_loop-Finds (answer ∷ answers) s fits =
      by_turn (is_ok (validate_answer x allow_loopback)) (member x s.seen)
        (permitted-cons s.seen answer answers) (filter_loop-Finds answers s fits)
        (filter_loop-Finds answers (add_new x s) (add_new-Fits x s fits))
    where
      x : Addr
      x = canonical_addr answer

      ps : List Addr
      ps = permitted allow_loopback answers

      by_turn :
          (v m : Bool)
          → without s.seen (permitted allow_loopback (answer ∷ answers)) ≡ (
              if not v
              then without s.seen ps
              else if m
              then without s.seen ps
              else x ∷ without (x ∷ s.seen) ps)
          → Finds allow_loopback answers s (filter_loop allow_loopback answers s)
          → Finds allow_loopback answers
              (add_new x s)
              (filter_loop allow_loopback answers (add_new x s))
          → Finds allow_loopback (answer ∷ answers) s (
              filter_loop allow_loopback answers
                (if not v then s else if m then s else add_new x s))
      by_turn false m e same new = Finds-same answer answers s _ e same
      by_turn true true e same new = Finds-same answer answers s _ e same
      by_turn true false e same new = Finds-new answer answers s _ fits e new

abbrev pub nothing_yet : Filtered
nothing_yet = record { v6 = []; v4 = []; seen = [] }

pub nothing-Fits : Fits nothing_yet
nothing-Fits = record { v6_fits = omega arith; v4_fits = omega arith }
