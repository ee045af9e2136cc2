-- ===== src/Locator/Host.antt =====
-- The names and addresses to dial: internal/locator/dialhost.go. `netip.ParseAddr`, `Addr.String`
-- and `utf8.ValidString` are parameters. The runes of a text are read by its bytes: a rune above
-- 127 has bytes above 127 only.
use warptweet.Prelude.{
  ℕ, Bool, true, false, not, ◌||◌, ◌&&◌, List, [], ◌∷◌, Bytes, codes, equal, ◌==◌, leb, ltb, length,
  if◌then◌else◌, map, Option, none, some, Result, ok, err, ◌>>=◌, ◌>>◌, reject,
}
use warptweet.Enrollment.Texts.{any_of, contains, to_lower, is_digit}
use warptweet.Locator.Address.{Addr, invalid, canonical_addr, has_zone, is_valid}

pub record Net : Type 0 where
  pub parse_addr : Bytes → Option Addr
  pub addr_string : Addr → Bytes
  pub valid_utf8 : Bytes → Bool

-- `DialHost`: an address or a name; the one that is not set is invalid or empty
pub record DialHost : Type 0 where
  pub ip : Addr
  pub name : Bytes

pub data HostError : Type 0 where
  host_empty zone_not_permitted both_set : HostError
  name_empty not_utf8 ip_literal empty_label not_ascii forbidden : HostError
  name_too_long label_too_long hyphen_at_end : HostError

abbrev pub max_dns_name_octets : ℕ
max_dns_name_octets = 253

abbrev pub max_dns_label_octets : ℕ
max_dns_label_octets = 63

abbrev pub is_some {ℓ} : {A : Type ℓ} → Option A → Bool
is_some none = false
is_some (some _) = true

abbrev pub last_is : ℕ → Bytes → Bool
last_is d [] = false
last_is d (c ∷ []) = c == d
last_is d (_ ∷ c ∷ s) = last_is d (c ∷ s)

-- `strings.TrimSuffix` of one byte that is there
abbrev pub without_last : Bytes → Bytes
without_last [] = []
without_last (_ ∷ []) = []
without_last (c ∷ d ∷ s) = c ∷ without_last (d ∷ s)

-- `strings.Split` at dots
abbrev pub in_first : ℕ → List Bytes → List Bytes
in_first c [] = (c ∷ []) ∷ []
in_first c (label ∷ labels) = (c ∷ label) ∷ labels

abbrev pub split_dots : Bytes → List Bytes
split_dots [] = [] ∷ []
split_dots (c ∷ s) = let rest = split_dots s in if c == b'.' then [] ∷ rest else in_first c rest

abbrev pub is_forbidden_in_name : ℕ → Bool
is_forbidden_in_name c = ltb c 32 || c == 127 || c == 32 || any_of (λ d. c == d) (codes "/?#@:[]*%")

unfoldable pub check_runes : Bytes → Result HostError (Unit {0})
check_runes [] = ok tt
check_runes (c ∷ s) = do
  reject (ltb 127 c) not_ascii
  reject (is_forbidden_in_name c) forbidden
  check_runes s

abbrev pub is_label_byte : ℕ → Bool
is_label_byte c = (leb b'a' c && leb c b'z') || is_digit c || c == b'-'

abbrev pub first_is : ℕ → Bytes → Bool
first_is d [] = false
first_is d (c ∷ _) = c == d

unfoldable pub check_label : Bytes → Result HostError (Unit {0})
check_label label = do
  reject (equal label []) empty_label
  reject (ltb max_dns_label_octets (length label)) label_too_long
  reject (first_is b'-' label || last_is b'-' label) hyphen_at_end
  reject (any_of (λ c. not (is_label_byte c)) label) forbidden

unfoldable pub check_labels : List Bytes → Result HostError (Unit {0})
check_labels [] = ok tt
check_labels (label ∷ labels) = do check_label label; check_labels labels

-- the tests of a name behind its trailing dot, and the name in lower case
unfoldable pub checked_name : Bytes → Result HostError Bytes
checked_name name = do
  reject (equal name []) name_empty
  reject (contains name (codes "..")) empty_label
  check_runes name
  let lower = map to_lower name
  reject (ltb max_dns_name_octets (length lower)) name_too_long
  check_labels (split_dots lower)
  ok lower

module _ (net : Net) where
  -- `CanonicalDNSName`
  unfoldable pub canonical_dns_name : Bytes → Result HostError Bytes
  canonical_dns_name name = do
    reject (equal name []) name_empty
    reject (not (net.valid_utf8 name)) not_utf8
    reject (is_some (net.parse_addr name)) ip_literal
    checked_name (if last_is b'.' name then without_last name else name)

  -- `IPDialHost`
  unfoldable pub ip_dial_host : Addr → DialHost
  ip_dial_host addr = record { ip = canonical_addr addr; name = [] }

  abbrev pub parsed_host : Bytes → Option Addr → Result HostError DialHost
  parsed_host value (some addr) = do
    reject (has_zone addr) zone_not_permitted
    ok (ip_dial_host addr)
  parsed_host value none = do
    name ← canonical_dns_name value
    ok (record { ip = invalid; name = name })

  -- `ParseDialHost`
  unfoldable pub parse_dial_host : Bytes → Result HostError DialHost
  parse_dial_host value = do
    reject (equal value []) host_empty
    parsed_host value (net.parse_addr value)

  abbrev pub canonical_arm : Bool → Bool → DialHost → Result HostError Bytes
  canonical_arm true true host = err both_set
  canonical_arm true false host = do
    reject (has_zone host.ip) zone_not_permitted
    ok (net.addr_string (canonical_addr host.ip))
  canonical_arm false true host = canonical_dns_name host.name
  canonical_arm false false host = err host_empty

  -- `DialHost.Canonical`
  unfoldable pub canonical_host : DialHost → Result HostError Bytes
  canonical_host host = canonical_arm (is_valid host.ip) (not (equal host.name [])) host

  abbrev pub both_equal : Result HostError Bytes → Result HostError Bytes → Bool
  both_equal (ok left) (ok right) = equal left right
  both_equal _ _ = false

  -- `DialHost.Equal`
  unfoldable pub host_equal : DialHost → DialHost → Bool
  host_equal host other = both_equal (canonical_host host) (canonical_host other)
