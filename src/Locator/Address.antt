-- ===== src/Locator/Address.antt =====
-- `netip.Addr` as internal/locator uses it. An address is its bits; an IPv6 address has a zone.
use warptweet.Prelude.{
  ℕ, ◌/◌, ◌%◌, ◌^◌, Bool, true, false, not, ◌&&◌, [], Bytes, ◌==◌, equal, equal_iff, if◌then◌else◌,
  Result, ◌>>◌, reject, ◌≡◌, ◌↔◌, arith,
}

pub data Addr : Type 0 where
  invalid : Addr
  ip4 : ℕ → Addr
  ip6 : ℕ → Bytes → Addr

-- `==`
unfoldable pub same_addr : Addr → Addr → Bool
same_addr invalid invalid = true
same_addr (ip4 a) (ip4 b) = a == b
same_addr (ip6 a zone) (ip6 b zone') = a == b && equal zone zone'
same_addr _ _ = false

pub same_addr_iff : (a b : Addr) → (same_addr a b ≡ true) ↔ (a ≡ b)
unfolding same_addr
same_addr_iff (ip6 a zone) (ip6 b zone') = ground (arith, equal_iff zone zone')
same_addr_iff invalid _ = ground arith
same_addr_iff _ _ = ground arith

-- `Unmap`, of an address in ::ffff:0:0/96
abbrev unmap_bits : ℕ → Bytes → Addr
unmap_bits bits zone = if bits / 2 ^ 32 == 65535 then ip4 (bits % 2 ^ 32) else ip6 bits zone

-- `canonicalAddr`
unfoldable pub canonical_addr : Addr → Addr
canonical_addr (ip6 bits zone) = unmap_bits bits zone
canonical_addr a = a

abbrev pub is_6 : Addr → Bool
is_6 (ip6 _ _) = true
is_6 _ = false

-- `Zone() != ""`
abbrev pub has_zone : Addr → Bool
has_zone (ip6 _ zone) = not (equal zone [])
has_zone _ = false

abbrev pub is_valid : Addr → Bool
is_valid invalid = false
is_valid _ = true

abbrev pub is_unspecified : Addr → Bool
is_unspecified (ip4 bits) = bits == 0
is_unspecified (ip6 bits zone) = bits == 0 && equal zone []
is_unspecified invalid = false

-- 224.0.0.0/4 and ff00::/8
abbrev is_multicast : Addr → Bool
is_multicast (ip4 bits) = bits / 2 ^ 28 == 14
is_multicast (ip6 bits _) = bits / 2 ^ 120 == 255
is_multicast invalid = false

abbrev is_broadcast : Addr → Bool
is_broadcast (ip4 bits) = bits == 4294967295
is_broadcast _ = false

-- 169.254.0.0/16 and fe80::/10
abbrev is_link_local_unicast : Addr → Bool
is_link_local_unicast (ip4 bits) = bits / 2 ^ 16 == 43518
is_link_local_unicast (ip6 bits _) = bits / 2 ^ 118 == 1018
is_link_local_unicast invalid = false

-- 127.0.0.0/8 and ::1
abbrev is_loopback : Addr → Bool
is_loopback (ip4 bits) = bits / 2 ^ 24 == 127
is_loopback (ip6 bits _) = bits == 1
is_loopback invalid = false

pub data AnswerError : Type 0 where
  not_valid zoned unspecified multicast broadcast link_local loopback : AnswerError

-- `validateAnswer`
unfoldable pub validate_answer : Addr → Bool → Result AnswerError (Unit {0})
validate_answer given allow_loopback = do
  reject (not (is_valid given)) not_valid
  reject (has_zone given) zoned
  let addr = canonical_addr given
  reject (is_unspecified addr) unspecified
  reject (is_multicast addr) multicast
  reject (is_broadcast addr) broadcast
  reject (is_link_local_unicast addr) link_local
  reject (is_loopback addr && not allow_loopback) loopback
