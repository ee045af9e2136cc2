-- ===== src/Locator/RoundTrip.antt =====
-- The canonical text of a dial host against its parser: internal/locator/dialhost.go.
use warptweet.Prelude.{
  ℕ, ◌/◌, ◌%◌, ◌^◌, Bool, true, false, not, List, [], ◌∷◌, Bytes, equal, ◌==◌, if◌then◌else◌, map,
  Option, none, some, Result, ok, err, ◌>>=◌, ◌>>◌, reject, ◌≡◌, refl, ap, sym, ◌∙◌, arith,
  reject-eq-ok, ok-injective,
}
use mathlib.Core.Path.{subst}
use warptweet.Enrollment.Texts.{to_lower}
use warptweet.Locator.Address.{Addr, invalid, ip4, ip6, canonical_addr, has_zone, is_valid}
use warptweet.Locator.Host.{
  Net, DialHost, HostError, is_some, last_is, without_last, in_first, split_dots, check_label,
  check_labels, checked_name, canonical_dns_name, ip_dial_host, parsed_host, parse_dial_host,
  canonical_arm, canonical_host,
}

abbrev last_empty : List Bytes → Bool
last_empty [] = false
last_empty (label ∷ []) = equal label []
last_empty (_ ∷ label ∷ labels) = last_empty (label ∷ labels)

-- The last of two labels or more is empty.
abbrev ends_empty : List Bytes → Bool
ends_empty [] = false
ends_empty (_ ∷ labels) = last_empty labels

in_first-ends :
    (c : ℕ) (labels : List Bytes) → ends_empty labels ≡ true → ends_empty (in_first c labels) ≡ true
in_first-ends c [] e = cc
in_first-ends c (_ ∷ labels) e = e

last_empty-cons : (labels : List Bytes) → ends_empty labels ≡ true → last_empty labels ≡ true
last_empty-cons [] e = cc
last_empty-cons (_ ∷ []) e = cc
last_empty-cons (_ ∷ label ∷ labels) e = e

-- A dot at the end leaves an empty label.
split_dots-ends : (s : Bytes) → last_is b'.' s ≡ true → ends_empty (split_dots s) ≡ true
unfolding equal
split_dots-ends [] e = cc
split_dots-ends (c ∷ []) e = ground arith
split_dots-ends (c ∷ d ∷ s) e = by_dot (c == b'.') (split_dots (d ∷ s)) (split_dots-ends (d ∷ s) e)
  where
    by_dot :
        (b : Bool) (rest : List Bytes)
        → ends_empty rest ≡ true
        → ends_empty (if b then [] ∷ rest else in_first c rest) ≡ true
    by_dot true rest h = last_empty-cons rest h
    by_dot false rest h = in_first-ends c rest h

check_labels-full : (labels : List Bytes) → check_labels labels ≡ ok tt → last_empty labels ≡ false
unfolding check_labels check_label
check_labels-full [] e = refl
check_labels-full (label ∷ []) e = ground arith
check_labels-full (label ∷ next ∷ labels) e = check_labels-full (next ∷ labels) (ground arith)

lower_twice : (s : Bytes) → map to_lower (map to_lower s) ≡ map to_lower s
lower_twice [] = refl
lower_twice (c ∷ s) = ground (arith, lower_twice s)

-- What a checked name looks like.
checked_name-IsLower :
    (x n : Bytes)
    → checked_name x ≡ ok n
    → (map to_lower n ≡ n) × (check_labels (split_dots n) ≡ ok tt)
unfolding checked_name
checked_name-IsLower x n e =
    let same : map to_lower x ≡ n = ground arith in (rw (← same) (lower_twice x), ground arith)

checked_name-dotless : (x n : Bytes) → checked_name x ≡ ok n → last_is b'.' n ≡ false
checked_name-dotless x n e = by_last (last_is b'.' n) refl
  where
    by_last : (b : Bool) → last_is b'.' n ≡ b → b ≡ false
    by_last false h = refl
    by_last true h = cc (
      last_empty-cons (split_dots n) (split_dots-ends n h),
      check_labels-full (split_dots n) (checked_name-IsLower x n e).1,
    )

-- What Go documents of netip: an address that was parsed, without a zone and unmapped, has a text,
-- which is parsed as that address.
pub record NetLaws (net : Net) : Type 0 where
  pub parse_string :
      (s : Bytes) (a : Addr)
      → net.parse_addr s ≡ some a
      → has_zone a ≡ false
      → net.parse_addr (net.addr_string (canonical_addr a)) ≡ some (canonical_addr a)
  pub string_given : (a : Addr) → equal (net.addr_string a) [] ≡ false

canonical_twice : (a : Addr) → canonical_addr (canonical_addr a) ≡ canonical_addr a
unfolding canonical_addr
canonical_twice invalid = refl
canonical_twice (ip4 bits) = refl
canonical_twice (ip6 bits zone) = by_test (bits / 2 ^ 32 == 65535) refl
  where
    by_test :
        (b : Bool)
        → (bits / 2 ^ 32 == 65535) ≡ b
        → canonical_addr (if b then ip4 (bits % 2 ^ 32) else ip6 bits zone)
          ≡ (if b then ip4 (bits % 2 ^ 32) else ip6 bits zone)
    by_test true e = refl
    by_test false e = rw e refl

canonical-zoneless : (a : Addr) → has_zone a ≡ false → has_zone (canonical_addr a) ≡ false
unfolding canonical_addr
canonical-zoneless invalid e = e
canonical-zoneless (ip4 bits) e = e
canonical-zoneless (ip6 bits zone) e = by_test (bits / 2 ^ 32 == 65535)
  where
    by_test : (b : Bool) → has_zone (if b then ip4 (bits % 2 ^ 32) else ip6 bits zone) ≡ false
    by_test true = refl
    by_test false = e

checked_name-lower : (x n : Bytes) → checked_name x ≡ ok n → map to_lower x ≡ n
unfolding checked_name
checked_name-lower x n e = ground arith

is_some-none {ℓ} : {A : Type ℓ} (o : Option A) → is_some o ≡ false → o ≡ none
is_some-none none e = refl
is_some-none (some a) e = cc

module _ (net : Net) where
  dns_name-checked :
      (x n : Bytes)
      → canonical_dns_name net x ≡ ok n
      → (equal x [] ≡ false)
        × (net.parse_addr x ≡ none)
        × (checked_name (if last_is b'.' x then without_last x else x) ≡ ok n)
  unfolding canonical_dns_name
  dns_name-checked x n e =
      (ground arith, is_some-none (net.parse_addr x) (ground arith), ground arith)

  -- a canonical name that is read again
  dns_name-again :
      (v n c : Bytes) → canonical_dns_name net v ≡ ok n → canonical_dns_name net n ≡ ok c → c ≡ n
  dns_name-again v n c first again =
      let checked = (dns_name-checked v n first).2 in
      let dotless = checked_name-dotless (if last_is b'.' v then without_last v else v) n checked in
      let lower =
        (checked_name-IsLower (if last_is b'.' v then without_last v else v) n checked).0 in
      let second : checked_name n ≡ ok c = rw dotless at ((dns_name-checked n c again).2) in
      sym (checked_name-lower n c second) ∙ lower

  abbrev Reads : DialHost → Type 0
  Reads h = (c : Bytes) → canonical_host net h ≡ ok c → parse_dial_host net c ≡ ok h

  name-Reads :
      (v n : Bytes) → canonical_dns_name net v ≡ ok n → Reads (record { ip = invalid; name = n })
  unfolding canonical_host parse_dial_host
  name-Reads v n first c e = by_name (equal n []) refl e
    where
      by_name :
          (b : Bool)
          → equal n [] ≡ b
          → canonical_arm net false (not b) (record { ip = invalid; name = n }) ≡ ok c
          → (reject (equal c []) HostError.host_empty >> parsed_host net c (net.parse_addr c))
            ≡ ok (record { ip = invalid; name = n })
      by_name true b e = cc
      by_name false b e =
          let same = dns_name-again v n c first e in
          rw (same, b, (dns_name-checked n c e).1, e) (rw same refl)

  ip-Reads :
      NetLaws net
      → (v : Bytes) (a : Addr) → net.parse_addr v ≡ some a
      → has_zone a ≡ false
      → Reads (ip_dial_host net a)
  unfolding canonical_host parse_dial_host ip_dial_host equal
  ip-Reads laws v a found zoneless c e = by_valid (is_valid (canonical_addr a)) e
    where
      host : DialHost
      host = record { ip = canonical_addr a; name = [] }

      no_zone : has_zone (canonical_addr a) ≡ false
      no_zone = canonical-zoneless a zoneless

      text : canonical_arm net true false host ≡ ok c → c ≡ net.addr_string (canonical_addr a)
      text e =
          sym
            (ok-injective (net.addr_string (canonical_addr (canonical_addr a))) c (rw no_zone at e))
          ∙ ap net.addr_string (canonical_twice a)

      by_valid :
          (b : Bool)
          → canonical_arm net b false host ≡ ok c
          → (reject (equal c []) HostError.host_empty >> parsed_host net c (net.parse_addr c))
            ≡ ok host
      by_valid false e = cc
      by_valid true e = rw (text e) (
          rw (laws.string_given (canonical_addr a), laws.parse_string v a found zoneless, no_zone)
            (ap (λ (b : Addr). ok (record { ip = b; name = [] })) (canonical_twice a)))

  parsed-Reads :
      NetLaws net
      → (v : Bytes) (o : Option Addr) (h : DialHost) → net.parse_addr v ≡ o
      → parsed_host net v o ≡ ok h
      → Reads h
  parsed-Reads laws v (some a) h found e = by_zone (has_zone a) refl e
    where
      by_zone :
          (b : Bool)
          → has_zone a ≡ b
          → (reject b HostError.zone_not_permitted >> ok (ip_dial_host net a)) ≡ ok h
          → Reads h
      by_zone true z e = cc
      by_zone false z e =
          subst Reads (ok-injective (ip_dial_host net a) h e) (ip-Reads laws v a found z)
  parsed-Reads laws v none h found e = by_name (canonical_dns_name net v) refl e
    where
      by_name :
          (r : Result HostError Bytes)
          → canonical_dns_name net v ≡ r
          → (r >>= λ n. ok (record { ip = invalid; name = n })) ≡ ok h
          → Reads h
      by_name (err bad) c e = cc
      by_name (ok n) c e =
          subst Reads (ok-injective (record { ip = invalid; name = n }) h e) (name-Reads v n c)

  -- For a library that parses the text of an address as that address: the canonical text of a host
  -- that was parsed, if it has one, is parsed as that same host.
  pub parse_dial_host-canonical_host :
      NetLaws net
      → (v c : Bytes) (h : DialHost) → parse_dial_host net v ≡ ok h
      → canonical_host net h ≡ ok c
      → parse_dial_host net c ≡ ok h
  unfolding parse_dial_host
  parse_dial_host-canonical_host laws v c h e canonical =
      parsed-Reads laws v (net.parse_addr v) h refl
        (reject-eq-ok (equal v []) HostError.host_empty (parsed_host net v (net.parse_addr v)) e).1
        c canonical
