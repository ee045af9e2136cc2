-- ===== src/Locator/Answers.antt =====
-- The candidates of a dial and the choice among them: internal/locator/resolve.go.
pub mod Filtering
pub mod Alternate
pub mod Exact
use warptweet.Prelude.{
  ℕ, zero, suc, ◌+◌, Bool, true, false, not, ◌||◌, List, [], ◌∷◌, ◌++◌, length, take, ltb, leb,
  if◌then◌else◌, Result, ok, err,
}
use warptweet.Locator.Address.{Addr, same_addr, canonical_addr, is_6, AnswerError, validate_answer}

abbrev pub max_answers_per_family : ℕ
max_answers_per_family = 4

abbrev pub max_answers_total : ℕ
max_answers_total = 8

-- `v6`, `v4` and `seen`
pub record Filtered : Type 0 where
  pub v6 : List Addr
  pub v4 : List Addr
  pub seen : List Addr

abbrev pub member : Addr → List Addr → Bool
member a [] = false
member a (b ∷ seen) = same_addr a b || member a seen

abbrev pub is_ok : Result AnswerError (Unit {0}) → Bool
is_ok (ok _) = true
is_ok (err _) = false

-- `if len(family) >= maxAnswersPerFamily { continue }` and the append
abbrev pub push : List Addr → Addr → List Addr
push family addr =
    if leb max_answers_per_family (length family) then family else family ++ addr ∷ []

-- the end of a turn of the loop, for an address that is new
unfoldable pub add_new : Addr → Filtered → Filtered
add_new addr s =
    if is_6 addr
    then record s { v6 = push s.v6 addr; seen = addr ∷ s.seen }
    else record s { v4 = push s.v4 addr; seen = addr ∷ s.seen }

-- a turn of the loop
unfoldable pub filter_turn : Bool → Addr → Filtered → Filtered
filter_turn allow_loopback answer s =
    let addr = canonical_addr answer in
    if not (is_ok (validate_answer addr allow_loopback))
    then s
    else if member addr s.seen
    then s
    else add_new addr s

unfoldable pub filter_loop : Bool → List Addr → Filtered → Filtered
filter_loop allow_loopback [] s = s
filter_loop allow_loopback (answer ∷ answers) s =
    filter_loop allow_loopback answers (filter_turn allow_loopback answer s)

-- `append(out, family[i])`, if the index is in range
abbrev pub at_index : List Addr → ℕ → List Addr
at_index [] i = []
at_index (a ∷ family) zero = a ∷ []
at_index (a ∷ family) (suc i) = at_index family i

-- the loop of `InterleaveFamilies`, `n` turns before its end
unfoldable pub interleave_loop : ℕ → ℕ → List Addr → List Addr → List Addr
interleave_loop zero i v6 v4 = []
interleave_loop (suc n) i v6 v4 = at_index v6 i ++ at_index v4 i ++ interleave_loop n (i + 1) v6 v4

-- `InterleaveFamilies`
unfoldable pub interleave_families : List Addr → List Addr → List Addr
interleave_families v6 v4 =
    interleave_loop (if ltb (length v6) (length v4) then length v4 else length v6) 0 v6 v4

abbrev pub cap_total : List Addr → List Addr
cap_total interleaved =
    if ltb max_answers_total (length interleaved)
    then take max_answers_total interleaved
    else interleaved

-- `FilterAnswers`
unfoldable pub filter_answers : List Addr → Bool → List Addr
filter_answers answers allow_loopback =
    let s = filter_loop allow_loopback answers (record { v6 = []; v4 = []; seen = [] }) in
    cap_total (interleave_families s.v6 s.v4)
