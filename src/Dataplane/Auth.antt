-- ===== src/Dataplane/Auth.antt =====
-- Authentication and global requests on a connection: `handleService`, `handleUserauth`,
-- `knownClient` and `handleGlobal` of internal/dataplane/conn.go.
use warptweet.Prelude.{
  Bool, true, false, ◌&&◌, [], ◌∷◌, ◌++◌, Option, none, some, Bytes, drop, if◌then◌else◌, equal,
  codes, ok, err,
}
use warptweet.Wire.{ssh_string, consume_ssh_string, consume_bool, tagged_blob}
use warptweet.Dataplane.Policy.{allow_global_request, any_equal}
use warptweet.Dataplane.Connection.{
  Connection, Reply, continue, Answers, write, disconnect, read_then, parsed_then, found_then,
  or_fail, no_connection_id,
}
use warptweet.Dataplane.Kex.{composite_algorithm}

abbrev pub is_empty : Bytes → Bool
is_empty [] = true
is_empty (_ ∷ _) = false

-- `handleService`
unfoldable pub handle_service : Answers → Bytes → Connection → Reply
handle_service a payload c = read_then c (consume_ssh_string (drop 1 payload)) (λ (name, rest).
    if is_empty rest && equal name (codes "ssh-userauth")
    then write a c (6 ∷ ssh_string (codes "ssh-userauth"))
    else disconnect a c (codes "WarpTweet only accepts ssh-userauth"))

-- `userauthFailure`
abbrev pub userauth_failure : Bytes
unfolding ssh_string
userauth_failure = 51 ∷ ssh_string (codes "publickey") ++ 0 ∷ []

-- `knownClient`
unfoldable pub known_client : Answers → Bytes → Bool
known_client a raw_pub = elim a.authorized_keys [
  | none ↦ false
  | some keys ↦ any_equal raw_pub keys
]

-- What stands in a blob or a signature behind its algorithm: `composite.Algorithm`, one string,
-- and nothing else.
unfoldable pub tagged_raw : Bytes → Option Bytes
tagged_raw blob = elim (consume_ssh_string blob) [
  | err _ ↦ none
  | ok (alg, rest) ↦
      if equal alg composite_algorithm
      then elim (consume_ssh_string rest) [
        | err _ ↦ none
        | ok (raw, rest) ↦ if is_empty rest then some raw else none
      ]
      else none
]

-- `signed`
unfoldable pub signed_request : Bytes → Bytes → Bytes → Bytes → Bytes
signed_request session_id user service pub_blob =
    ssh_string session_id
    ++ 50 ∷ ssh_string user
    ++ ssh_string service
    ++ ssh_string (codes "publickey")
    ++ 1 ∷ ssh_string composite_algorithm
    ++ ssh_string pub_blob

-- The grant's session, the session table, and the answer.
unfoldable pub register_session : Answers → Option Bool → Connection → Reply
register_session a (some false) c = disconnect a c (codes "grant session registration failed")
register_session a _ c = write a c (52 ∷ [])

-- Behind a signature that verifies. The blob of the key is kept in place of its digest.
unfoldable pub authenticate : Answers → Bytes → Connection → Reply
authenticate a raw_pub c =
    let c' = record c {
      authed = true;
      bytes_out = 0;
      key_blob = tagged_blob composite_algorithm raw_pub;
    } in
    or_fail c' no_connection_id a.new_connection_id
      (λ id. register_session a a.register (record c' { connection_id = id }))

-- The signature in a request's last string.
unfoldable pub check_signature :
    Answers → Bytes → Bytes → Bytes → Bytes → Bytes → Connection → Reply
check_signature a user service pub_blob raw_pub rest c =
    parsed_then (consume_ssh_string rest) (write a c userauth_failure) (λ (sig_wire, rest).
      if is_empty rest
      then found_then (tagged_raw sig_wire) (write a c userauth_failure) (λ raw_sig.
        if a.verify raw_pub (signed_request c.session_id user service pub_blob) raw_sig
        then authenticate a raw_pub c
        else write a c userauth_failure)
      else write a c userauth_failure)

unfoldable pub check_key : Answers → Bytes → Bytes → Bool → Bytes → Bytes → Connection → Reply
check_key a user service has_sig pub_blob rest c =
    found_then (tagged_raw pub_blob) (write a c userauth_failure) (λ raw_pub.
      if known_client a raw_pub
      then if has_sig
        then check_signature a user service pub_blob raw_pub rest c
        else if is_empty rest
        then write a c (60 ∷ ssh_string composite_algorithm ++ ssh_string pub_blob)
        else write a c userauth_failure
      else write a c userauth_failure)

-- `handleUserauth`
unfoldable pub handle_userauth : Answers → Bytes → Connection → Reply
handle_userauth a payload c = read_then c (consume_ssh_string (drop 1 payload)) (λ (user, rest).
    read_then c (consume_ssh_string rest) (λ (service, rest).
      read_then c (consume_ssh_string rest) (λ (method, rest).
        if equal user (codes "warptweet")
          && equal service (codes "ssh-connection")
          && equal method (codes "publickey")
        then read_then c (consume_bool rest) (λ (has_sig, rest).
          read_then c (consume_ssh_string rest) (λ (alg, rest).
            read_then c (consume_ssh_string rest) (λ (pub_blob, rest).
              if equal alg composite_algorithm
              then check_key a user service has_sig pub_blob rest c
              else write a c userauth_failure)))
        else write a c userauth_failure)))

-- `handleGlobal`
unfoldable pub handle_global : Answers → Bytes → Connection → Reply
handle_global a payload c = read_then c (consume_ssh_string (drop 1 payload)) (λ (name, rest).
    read_then c (consume_bool rest) (λ (want_reply, rest).
      if is_empty rest
      then if want_reply
        then write a c ((if allow_global_request name then 81 else 82) ∷ [])
        else continue c
      else disconnect a c (codes "trailing global-request payload")))
