-- ===== src/Dataplane/Kex.antt =====
-- The key exchange of a connection: `handleKexInit`, `handleKEX` and `handleNewKeys`, with
-- `exchangeHash` and `deriveOne`.
use warptweet.Prelude.{
  ℕ, zero, suc, Bool, false, ◌&&◌, ◌||◌, [], ◌∷◌, ◌++◌, Option, none, some, Bytes, length, take,
  drop, ltb, ◌==◌, if◌then◌else◌, codes, Result, ok, err,
}
use warptweet.Wire.{ssh_string, consume_ssh_string, tagged_blob}
use warptweet.Dataplane.Policy.{
  Policy, kex_init_hash, client_offers_strict_kex, client_offers_pinned_algorithms, OfferError,
  truncated_kexinit, unread, missing,
}
use warptweet.Dataplane.Connection.{
  Phase, await_init, await_ecdh, await_new_keys, ready, Connection, Reply, continue, failed,
  Answers, write, disconnect, and_then, read_then, or_fail, encapsulate_failed, kexinit_failed,
  host_key_failed, sign_failed, short_key, new_keys_early, ecdh_early, ecdh_trailing,
}

-- `composite.Algorithm`
abbrev pub composite_algorithm : Bytes
composite_algorithm = codes "ssh-mldsa44-ed25519@openssh.com"

-- `handleKexInit`, by the phase it reads first
unfoldable pub handle_kex_init : Answers → Phase → Bytes → Connection → Reply
handle_kex_init a ready payload c = or_fail c kexinit_failed a.server_kexinit (λ kex.
    write a (record c { server_kex = kex; client_kex = some payload; phase = await_ecdh }) kex)
handle_kex_init a await_init payload c = continue (record c {
  client_kex = some payload;
  strict_kex = c.strict_kex || (c.initial_kex && client_offers_strict_kex payload);
  phase = await_ecdh;
})
handle_kex_init a _ payload c = disconnect a c (codes "unexpected KEXINIT")

-- `if c.strictKEX { seq = 0 }`
abbrev pub reset_seq : Bool → ℕ → ℕ
reset_seq strict seq = if strict then 0 else seq

-- `handleNewKeys`, by the phase and the pending key
unfoldable pub handle_new_keys : Phase → Option Bytes → Connection → Reply
handle_new_keys await_new_keys (some key) c = continue (record c {
  key_in = some key;
  pending_in = none;
  clear_in = false;
  in_seq = reset_seq c.strict_kex c.in_seq;
  initial_kex = false;
  phase = ready;
  bytes_out = 0;
})
handle_new_keys _ _ c = failed new_keys_early c

-- `exchangeHash`, with the hash function
unfoldable pub exchange_hash :
    (Bytes → Bytes) → (c : Connection) → Bytes → Bytes → Bytes → Bytes → Bytes → Bytes
exchange_hash sha256 c client_kex host_blob client_pub server_pub secret = sha256 (
    ssh_string c.client_id
    ++ ssh_string c.server_id
    ++ kex_init_hash client_kex
    ++ kex_init_hash c.server_kex
    ++ ssh_string host_blob
    ++ ssh_string client_pub
    ++ ssh_string server_pub
    ++ secret)

-- The loop of `deriveOne`, for at most this many turns.
unfoldable pub derive_more : (Bytes → Bytes) → ℕ → Bytes → ℕ → Bytes → Bytes
derive_more sha256 zero prefix need digest = digest
derive_more sha256 (suc fuel) prefix need digest =
    let longer = derive_more sha256 fuel prefix need (digest ++ sha256 (prefix ++ digest)) in
    if ltb (length digest) need then longer else digest

-- `deriveOne`
unfoldable pub derive_one : (Bytes → Bytes) → Bytes → Bytes → Bytes → ℕ → ℕ → Bytes
derive_one sha256 secret hash session_id id need =
    take need
      (derive_more sha256 need (secret ++ hash) need (sha256 (secret ++ hash ++ id ∷ session_id)))

abbrev pub chacha_key_total : ℕ
chacha_key_total = 64

-- `newChaChaDirection`, of which only the key counts here
abbrev pub chacha_key : Bytes → Option Bytes
chacha_key key = if ltb (length key) chacha_key_total then none else some key

abbrev pub set_session_id : Bytes → Bytes → Bytes
set_session_id [] hash = hash
set_session_id (b ∷ id) hash = b ∷ id

-- The keys have been derived, and NEWKEYS is written.
unfoldable pub install_keys : Bytes → Bytes → Connection → Reply
install_keys key_out pending_in c = continue (record c {
  key_out = some key_out;
  pending_in = some pending_in;
  clear_out = false;
  phase = await_new_keys;
  out_seq = reset_seq c.strict_kex c.out_seq;
})

unfoldable pub derive_and_switch : Answers → Bytes → Bytes → Bytes → Connection → Reply
derive_and_switch a secret hash session_id c =
    or_fail c short_key
      (chacha_key (derive_one a.sha256 secret hash session_id b'D' chacha_key_total))
      (λ key_out.
        or_fail c short_key
          (chacha_key (derive_one a.sha256 secret hash session_id b'C' chacha_key_total))
          (λ key_in. and_then (write a c (21 ∷ [])) (install_keys key_out key_in)))

unfoldable pub sign_and_reply : Answers → Bytes → Bytes → Bytes → Bytes → Connection → Reply
sign_and_reply a host_blob server_pub secret hash c =
    or_fail c sign_failed (a.sign hash) (λ signature.
      and_then
        (write a c (
          31 ∷ ssh_string host_blob
          ++ ssh_string server_pub
          ++ ssh_string (tagged_blob composite_algorithm signature)))
        (derive_and_switch a secret hash c.session_id))

-- `err.Error()` of `clientOffersPinnedAlgorithms`
abbrev pub offer_text : OfferError → Bytes
offer_text truncated_kexinit = codes "truncated client KEXINIT"
offer_text (unread _) = codes "truncated SSH field"
offer_text (missing name) = codes "client KEXINIT missing " ++ name

abbrev pub offer_then : Answers → Connection → Result OfferError (Unit {0}) → Reply → Reply
offer_then a c (ok _) next = next
offer_then a c (err e) next = disconnect a c (offer_text e)

unfoldable pub exchange : Answers → Policy → Bytes → Bytes → Connection → Reply
exchange a policy client_kex client_pub c =
    or_fail c encapsulate_failed (a.encapsulate client_pub) (λ (server_pub, shared).
      offer_then a c (client_offers_pinned_algorithms client_kex policy) (
        or_fail c host_key_failed a.host_public (λ host_pub.
          let host_blob = tagged_blob composite_algorithm host_pub in
          let secret = ssh_string shared in
          let hash = exchange_hash a.sha256 c client_kex host_blob client_pub server_pub secret in
          sign_and_reply a host_blob server_pub secret hash
            (record c { session_id = set_session_id c.session_id hash }))))

-- `handleKEX`, by the phase and `clientKex`
unfoldable pub handle_kex : Answers → Policy → Phase → Option Bytes → Bytes → Connection → Reply
handle_kex a policy await_ecdh (some client_kex) payload c =
    read_then c (consume_ssh_string (drop 1 payload)) (λ (client_pub, rest).
      if length rest == 0
      then exchange a policy client_kex client_pub c
      else failed ecdh_trailing c)
handle_kex a policy _ _ payload c = failed ecdh_early c
