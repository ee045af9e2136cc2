-- ===== src/Dataplane/Policy.antt =====
-- What the data plane allows: internal/dataplane/policy.go, and the names that a client's KEXINIT
-- offers (kexinit.go and conn.go).
use warptweet.Prelude.{
  ℕ, ◌+◌, ◌%◌, ◌^◌, Bool, false, not, ◌||◌, ◌&&◌, List, [], ◌∷◌, ◌++◌, Bytes, length, drop, ltb,
  ◌==◌, if◌then◌else◌, equal, codes, Result, ok, err, ◌>>=◌, ◌>>◌, reject,
}
use warptweet.Wire.{be32, consume_ssh_string, Truncated}

-- `netip.AddrPort`, of an address without a 4-in-6 prefix
pub record AddrPort : Type 0 where
  pub address : Bytes
  pub port : ℕ

unfoldable pub same_addr_port : AddrPort → AddrPort → Bool
same_addr_port a b = equal a.address b.address && a.port == b.port

-- `Policy`, of its fields those that a connection reads, with the names of its profile
pub record Policy : Type 0 where
  pub key_exchange_algorithm : Bytes
  pub authentication_key_type : Bytes
  pub cipher : Bytes
  pub target : AddrPort
  pub management : AddrPort

-- `allowChannelType`
unfoldable pub allow_channel_type : Bytes → Bool
allow_channel_type name = equal name (codes "direct-tcpip")

-- `allowGlobalRequest`
unfoldable pub allow_global_request : Bytes → Bool
allow_global_request name =
    equal name (codes "keepalive@openssh.com") || equal name (codes "no-more-sessions@openssh.com")

-- `allowDirectTCPIP`
unfoldable pub allow_direct_tcpip : Policy → AddrPort → Bool
allow_direct_tcpip policy dest =
    same_addr_port dest policy.target || same_addr_port dest policy.management

-- `strings.Split(list, ",")`: the first name, and the others
unfoldable pub split_names : Bytes → Bytes × List Bytes
split_names [] = ([], [])
split_names (c ∷ cs) =
    let (name, names) = split_names cs in
    if c == b',' then ([], name ∷ names) else (c ∷ name, names)

unfoldable pub any_equal : Bytes → List Bytes → Bool
any_equal want [] = false
any_equal want (name ∷ names) = equal name want || any_equal want names

-- `nameListContains`
unfoldable pub name_list_contains : Bytes → Bytes → Bool
name_list_contains list want = let (name, names) = split_names list in any_equal want (name ∷ names)

abbrev pub kex_init : ℕ
kex_init = 20

-- `if len(body) > 0 && body[0] == sshMsgKexInit { body = body[1:] }`
unfoldable pub kex_body : Bytes → Bytes
kex_body [] = []
kex_body (b ∷ body) = if b == kex_init then body else b ∷ body

-- `appendKexInitHash`, less `dst`
unfoldable pub kex_init_hash : Bytes → Bytes
kex_init_hash kex = be32 ((length (kex_body kex) + 1) % 2 ^ 32) ++ kex_init ∷ kex_body kex

-- `clientOffersStrictKEX`
unfoldable pub client_offers_strict_kex : Bytes → Bool
client_offers_strict_kex kex =
    if ltb (length (kex_body kex)) 16
    then false
    else elim (consume_ssh_string (drop 16 (kex_body kex))) [
      | ok (kex_list, _) ↦ name_list_contains kex_list (codes "kex-strict-c-v00@openssh.com")
      | err _ ↦ false
    ]

pub data OfferError : Type 0 where
  truncated_kexinit : OfferError
  unread : Truncated → OfferError
  missing : Bytes → OfferError

abbrev pub offered : {A : Type 0} → Result Truncated A → Result OfferError A
offered (ok a) = ok a
offered (err e) = err (unread e)

-- `clientOffersPinnedAlgorithms`
unfoldable pub client_offers_pinned_algorithms : Bytes → Policy → Result OfferError (Unit {0})
client_offers_pinned_algorithms kex policy = do
  reject (ltb (length (kex_body kex)) 16) truncated_kexinit
  (kex_list, body) ← offered (consume_ssh_string (drop 16 (kex_body kex)))
  (host_list, body) ← offered (consume_ssh_string body)
  (client_to_server, body) ← offered (consume_ssh_string body)
  (server_to_client, _) ← offered (consume_ssh_string body)
  reject (not (name_list_contains kex_list policy.key_exchange_algorithm))
      (missing policy.key_exchange_algorithm)
  reject (not (name_list_contains host_list policy.authentication_key_type))
      (missing policy.authentication_key_type)
  reject
      (not (name_list_contains client_to_server policy.cipher)
        || not (name_list_contains server_to_client policy.cipher))
      (missing policy.cipher)
  ok tt
