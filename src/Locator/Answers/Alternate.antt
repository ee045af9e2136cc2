-- ===== src/Locator/Answers/Alternate.antt =====
-- What `InterleaveFamilies` computes.
use warptweet.Prelude.{
  ℕ, zero, suc, ◌+◌, ◌≤◌, List, [], ◌∷◌, ◌++◌, length, drop, ◌≡◌, refl, ap, sym, ◌∙◌, arith,
}
use mathlib.Core.Path.{subst}
use warptweet.Locator.Address.{Addr}
use warptweet.Locator.Answers.{at_index, interleave_loop, interleave_families}

-- The first, second, first, second, ... of two lists.
abbrev pub alternate : List Addr → List Addr → List Addr
alternate [] ys = ys
alternate (x ∷ xs) [] = x ∷ xs
alternate (x ∷ xs) (y ∷ ys) = x ∷ y ∷ alternate xs ys

-- The loop by index, and the walk of both lists.
abbrev heads : List Addr → List Addr
heads [] = []
heads (a ∷ xs) = a ∷ []

abbrev tails : List Addr → List Addr
tails [] = []
tails (a ∷ xs) = xs

at_index-drop : (xs : List Addr) (i : ℕ) → at_index xs i ≡ heads (drop i xs)
at_index-drop [] zero = refl
at_index-drop [] (suc i) = refl
at_index-drop (x ∷ xs) zero = refl
at_index-drop (x ∷ xs) (suc i) = at_index-drop xs i

drop-suc : (xs : List Addr) (i : ℕ) → drop (suc i) xs ≡ tails (drop i xs)
drop-suc [] zero = refl
drop-suc [] (suc i) = refl
drop-suc (x ∷ xs) zero = refl
drop-suc (x ∷ xs) (suc i) = drop-suc xs i

alternate-step :
    (xs ys : List Addr) → alternate xs ys ≡ heads xs ++ heads ys ++ alternate (tails xs) (tails ys)
alternate-step [] [] = refl
alternate-step [] (y ∷ ys) = refl
alternate-step (x ∷ []) [] = refl
alternate-step (x ∷ y ∷ xs) [] = refl
alternate-step (x ∷ xs) (y ∷ ys) = refl

drop-next : (xs : List Addr) (i : ℕ) → drop (i + 1) xs ≡ tails (drop i xs)
drop-next xs i = let e : i + 1 ≡ suc i = omega arith in ap (λ n. drop n xs) e ∙ drop-suc xs i

alternate-empty :
    (xs ys : List Addr) → length xs ≤ 0 → length ys ≤ 0 → ◌≡◌ {A = List Addr} [] (alternate xs ys)
alternate-empty [] [] h k = refl
alternate-empty [] (y ∷ ys) h k = absurd (omega arith)
alternate-empty (x ∷ xs) ys h k = absurd (omega arith)

length-tails : (n : ℕ) (xs : List Addr) → length xs ≤ suc n → length (tails xs) ≤ n
length-tails n [] h = omega arith
length-tails n (x ∷ xs) h = omega arith

interleave_loop-alternate :
    (n i : ℕ) (v6 v4 : List Addr)
    → length (drop i v6) ≤ n
    → length (drop i v4) ≤ n
    → interleave_loop n i v6 v4 ≡ alternate (drop i v6) (drop i v4)
unfolding interleave_loop
interleave_loop-alternate zero i v6 v4 h k = alternate-empty (drop i v6) (drop i v4) h k
interleave_loop-alternate (suc n) i v6 v4 h k =
    rw (at_index-drop v6 i, at_index-drop v4 i)
      (ap (λ rest. heads (drop i v6) ++ heads (drop i v4) ++ rest)
          (interleave_loop-alternate n (i + 1) v6 v4
              (subst (λ xs. length xs ≤ n) (sym (drop-next v6 i)) (length-tails n (drop i v6) h))
              (subst (λ xs. length xs ≤ n) (sym (drop-next v4 i)) (length-tails n (drop i v4) k))
            ∙ rw (drop-next v6 i, drop-next v4 i) refl)
        ∙ sym (alternate-step (drop i v6) (drop i v4)))

-- `InterleaveFamilies` walks both lists at once, to the end of the longer one.
pub interleave_families-alternate :
    (v6 v4 : List Addr) → interleave_families v6 v4 ≡ alternate v6 v4
unfolding interleave_families
interleave_families-alternate v6 v4 =
    interleave_loop-alternate _ 0 v6 v4 (ground arith) (ground arith)

pub length-alternate : (xs ys : List Addr) → length (alternate xs ys) ≡ length xs + length ys
length-alternate [] ys = omega arith
length-alternate (x ∷ xs) [] = omega arith
length-alternate (x ∷ xs) (y ∷ ys) = omega (arith, length-alternate xs ys)
