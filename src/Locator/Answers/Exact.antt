-- ===== src/Locator/Answers/Exact.antt =====
-- What `FilterAnswers` computes, against a definition without its loops and its set.
use warptweet.Prelude.{
  ◌≤◌, Bool, true, false, not, List, length, length-take, take, ltb, if◌then◌else◌, ◌≡◌, refl, ap,
  ◌∙◌, arith,
}
use warptweet.Locator.Address.{Addr, is_6}
use warptweet.Locator.Answers.{
  max_answers_per_family, max_answers_total, filter_loop, cap_total, filter_answers,
}
use warptweet.Locator.Answers.Filtering.{
  keep_if, permitted, without-none, filter_loop-Finds, nothing_yet, nothing-Fits,
}
use warptweet.Locator.Answers.Alternate.{alternate, interleave_families-alternate, length-alternate}

-- Of a family, the first four.
abbrev pub chosen : (Addr → Bool) → Bool → List Addr → List Addr
chosen family allow_loopback answers =
    take max_answers_per_family (keep_if family (permitted allow_loopback answers))

length-chosen :
    (family : Addr → Bool) (allow_loopback : Bool) (answers : List Addr)
    → length (chosen family allow_loopback answers) ≤ max_answers_per_family
length-chosen family allow_loopback answers =
    omega (arith, length-take 4 (keep_if family (permitted allow_loopback answers)))

uncapped :
    (xs ys : List Addr)
    → xs ≡ ys
    → length ys ≤ max_answers_total
    → (cap_total xs ≡ ys) × (length (cap_total xs) ≤ max_answers_total)
uncapped xs ys e h = by_length (ltb max_answers_total (length xs)) refl
  where
    by_length :
        (b : Bool)
        → ltb max_answers_total (length xs) ≡ b
        → ((if b then take max_answers_total xs else xs) ≡ ys)
          × (length (if b then take max_answers_total xs else xs) ≤ max_answers_total)
    by_length true t = absurd (ground (arith, ap length e))
    by_length false t = (e, rw e h)

-- `FilterAnswers` returns the first four IPv6 and the first four IPv4 addresses of those that are
-- permitted, each once and in the order of the answers, alternating from IPv6, for any answers.
-- The cap of eight never cuts.
pub filter_answers-alternate :
    (answers : List Addr) (allow_loopback : Bool)
    → (filter_answers answers allow_loopback
        ≡ alternate
            (chosen is_6 allow_loopback answers)
            (chosen (λ a. not (is_6 a)) allow_loopback answers))
      × (length (filter_answers answers allow_loopback) ≤ max_answers_total)
unfolding filter_answers
filter_answers-alternate answers allow_loopback =
    let found = filter_loop-Finds allow_loopback answers nothing_yet nothing-Fits in
    let v6_is =
      found.v6_is
      ∙ ap (λ xs. take 4 (keep_if is_6 xs)) (without-none (permitted allow_loopback answers)) in
    let v4_is =
      found.v4_is
      ∙ ap (λ xs. take 4 (keep_if (λ a. not (is_6 a)) xs))
          (without-none (permitted allow_loopback answers)) in
    uncapped _ _
      (interleave_families-alternate _ _
        ∙ ap (λ xs. alternate xs (filter_loop allow_loopback answers nothing_yet).v4) v6_is
        ∙ ap (alternate (chosen is_6 allow_loopback answers)) v4_is)
      (omega (
        arith,
        length-alternate (chosen is_6 allow_loopback answers)
            (chosen (λ a. not (is_6 a)) allow_loopback answers),
        length-chosen is_6 allow_loopback answers,
        length-chosen (λ a. not (is_6 a)) allow_loopback answers,
      ))
