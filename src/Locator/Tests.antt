-- ===== src/Locator/Tests.antt =====
-- Concrete answers, and the theorems at concrete inputs.
use warptweet.Prelude.{
  ℕ, ◌+◌, ◌*◌, ◌^◌, ◌≤◌, false, not, ◌==◌, if◌then◌else◌, List, [], ◌∷◌, length, none, some, equal,
  ok, err, ◌≡◌, ◌≢◌, refl, Bytes, Option, true, codes, arith,
}
use warptweet.Locator.Host.{
  Net, DialHost, parse_dial_host, canonical_host, canonical_dns_name, checked_name, check_runes,
  check_labels, check_label,
}
use warptweet.Locator.RoundTrip.{NetLaws, parse_dial_host-canonical_host}
use warptweet.Locator.Address.{
  Addr, invalid, ip4, ip6, same_addr, canonical_addr, is_6, validate_answer, loopback,
}
use warptweet.Locator.Answers.{
  max_answers_total, add_new, filter_turn, filter_loop, interleave_loop, interleave_families,
  filter_answers,
}
use warptweet.Locator.Answers.Alternate.{alternate}
use warptweet.Locator.Answers.Exact.{chosen, filter_answers-alternate}
use warptweet.Locator.Dial.{
  Network, connect_aggregate_limit, timeout_at, select_loop, select, Connected, select-Connected,
}

abbrev public : ℕ → Addr
public n = ip4 (134744072 + n)

abbrev global : ℕ → Addr
global n = ip6 (42540488161975842760550356425300246528 + n) []

-- 8.8.8.8 twice, once mapped into IPv6, a loopback, and an IPv6 address
abbrev answers : List Addr
answers = public 0 ∷ ip6 (65535 * 2 ^ 32 + 134744072) [] ∷ ip4 2130706433 ∷ global 1 ∷ public 1 ∷ []

filtered : filter_answers answers false ≡ global 1 ∷ public 0 ∷ public 1 ∷ []
unfolding filter_answers filter_loop filter_turn add_new interleave_families interleave_loop
    canonical_addr validate_answer same_addr equal
filtered = refl

loopback_refused : validate_answer (ip4 2130706433) false ≡ err loopback
unfolding validate_answer canonical_addr equal
loopback_refused = refl

filter_answers-alternate_example :
    (filter_answers answers false
      ≡ alternate (chosen is_6 false answers) (chosen (λ a. not (is_6 a)) false answers))
    × (length (filter_answers answers false) ≤ max_answers_total)
filter_answers-alternate_example = filter_answers-alternate answers false

-- A network that counts the dials, on which the second one succeeds, after a second each.
abbrev network : Network ℕ ℕ
network = record {
  cancelled = λ s. none;
  clock = λ s. s * 1_000_000_000;
  dial = λ candidate port timeout s. (s + 1, (if s == 0 then some 7 else none));
}

second_answers : select network 443 (global 1 ∷ public 0 ∷ public 1 ∷ []) 0 ≡ (2, ok (public 0))
unfolding select select_loop timeout_at
second_answers = refl

select-Connected_example :
    (◌≢◌ {A = ℕ} 443 0)
    × Connected network 443
        (0 * 1_000_000_000 + connect_aggregate_limit)
        (global 1 ∷ public 0 ∷ public 1 ∷ [])
        0
        2
        (public 0)
select-Connected_example =
    select-Connected network 443 (global 1 ∷ public 0 ∷ public 1 ∷ []) 0 2 (public 0) second_answers

-- A library whose texts of addresses are a 4 and the address.
abbrev toy_parse : Bytes → Option Addr
toy_parse (c ∷ bits ∷ []) = if c == 4 then some (ip4 bits) else none
toy_parse _ = none

abbrev toy_string : Addr → Bytes
toy_string (ip4 bits) = 4 ∷ bits ∷ []
toy_string _ = 6 ∷ []

abbrev toy_net : Net
toy_net = record { parse_addr = toy_parse; addr_string = toy_string; valid_utf8 = λ s. true }

toy_back :
    (s : Bytes) (a : Addr)
    → toy_parse s ≡ some a
    → toy_parse (toy_string (canonical_addr a)) ≡ some (canonical_addr a)
unfolding canonical_addr
toy_back [] a e = cc
toy_back (c ∷ []) a e = cc
toy_back (c ∷ bits ∷ []) a e = ground arith
toy_back (c ∷ d ∷ f ∷ s) a e = cc

toy-NetLaws : NetLaws toy_net
unfolding equal
toy-NetLaws = record { parse_string = λ s a e _. toy_back s a e; string_given = given }
  where
    given : (a : Addr) → equal (toy_string a) [] ≡ false
    given invalid = refl
    given (ip4 bits) = refl
    given (ip6 bits zone) = refl

abbrev example_host : DialHost
example_host = record { ip = invalid; name = codes "a.example" }

read_and_written :
    (parse_dial_host toy_net (codes "A.Example.") ≡ ok example_host)
    × (canonical_host toy_net example_host ≡ ok (codes "a.example"))
unfolding parse_dial_host canonical_host canonical_dns_name checked_name check_runes check_labels
    check_label equal
read_and_written = (refl, refl)

parse_dial_host-canonical_host_example :
    parse_dial_host toy_net (codes "a.example") ≡ ok example_host
parse_dial_host-canonical_host_example =
    parse_dial_host-canonical_host toy_net toy-NetLaws (codes "A.Example.") (codes "a.example")
      example_host read_and_written.0 read_and_written.1
