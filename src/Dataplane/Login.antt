-- ===== src/Dataplane/Login.antt =====
-- `handleUserauth`, from a connection that is not authenticated yet.
use warptweet.Prelude.{
  ◌≡◌, refl, sym, Bool, true, false, ◌&&◌, List, [], ◌∷◌, Option, none, some, Bytes, drop, equal,
  equal_iff, codes, arith, ◌||◌, Result, ok, ap, ◌∙◌,
}
use mathlib.Core.Path.{subst}
use warptweet.Wire.{Truncated, consume_ssh_string, consume_bool}
use warptweet.Dataplane.Policy.{any_equal}
use warptweet.Dataplane.Connection.{
  Connection, Answers, check_ssh_seq, write_frame, is_ready, start_rekey, needs_rekey, write,
  left_by,
}
use warptweet.Dataplane.Kex.{composite_algorithm}
use warptweet.Dataplane.Auth.{
  is_empty, known_client, tagged_raw, signed_request, authenticate, check_signature, check_key,
  handle_userauth,
}
use warptweet.Dataplane.Replies.{
  Left, Left-map, if-Left, and_then-Left, read_as-Left, or_fail-Left, Left-all, parsed_as-Left,
  found_as-Left, left_by-Left,
}

-- The key is one of these.
pub data IsAmong (key : Bytes) : List Bytes → Type 0 where
  here : (keys : List Bytes) → IsAmong key (key ∷ keys)
  there : (k : Bytes) (keys : List Bytes) → IsAmong key keys → IsAmong key (k ∷ keys)

any_equal-IsAmong : (key : Bytes) (keys : List Bytes) → any_equal key keys ≡ true → IsAmong key keys
unfolding any_equal
any_equal-IsAmong key [] h = cc
any_equal-IsAmong key (k ∷ keys) h = go (equal k key) refl h (any_equal-IsAmong key keys)
  where
    go :
        (b : Bool)
        → equal k key ≡ b
        → (b || any_equal key keys) ≡ true
        → (any_equal key keys ≡ true → IsAmong key keys)
        → IsAmong key (k ∷ keys)
    go true e h ih = subst (λ x. IsAmong key (x ∷ keys)) (sym ((equal_iff k key).0 e)) (here keys)
    go false e h ih = there k keys (ih h)

-- The payload is a request of the dedicated user for this service, with the composite algorithm,
-- a mark that says if it is signed, and this key blob; `rest` is what follows.
pub record Asks (payload : Bytes) (has_sig : Bool) (blob rest : Bytes) : Type 0 where
  pub after_user : Bytes
  pub after_service : Bytes
  pub after_method : Bytes
  pub after_mark : Bytes
  pub after_algorithm : Bytes
  pub user_read : consume_ssh_string (drop 1 payload) ≡ ok (codes "warptweet", after_user)
  pub service_read : consume_ssh_string after_user ≡ ok (codes "ssh-connection", after_service)
  pub method_read : consume_ssh_string after_service ≡ ok (codes "publickey", after_method)
  pub mark_read : consume_bool after_method ≡ ok (has_sig, after_mark)
  pub algorithm_read : consume_ssh_string after_mark ≡ ok (composite_algorithm, after_algorithm)
  pub blob_read : consume_ssh_string after_algorithm ≡ ok (blob, rest)

-- The payload's key blob carries an authorized key, and the signature in the payload's last string
-- verifies with that key over this session's id and the payload's user, service and key blob.
pub record Signed (a : Answers) (session_id payload : Bytes) : Type 0 where
  pub keys : List Bytes
  pub key : Bytes
  pub blob : Bytes
  pub rest : Bytes
  pub sig_wire : Bytes
  pub signature : Bytes
  pub asks : Asks payload true blob rest
  pub signature_read : consume_ssh_string rest ≡ ok (sig_wire, [])
  pub signature_carried : tagged_raw sig_wire ≡ some signature
  pub keys_read : a.authorized_keys ≡ some keys
  pub key_authorized : IsAmong key keys
  pub blob_carries : tagged_raw blob ≡ some key
  pub verified :
      a.verify key
        (signed_request session_id (codes "warptweet") (codes "ssh-connection") blob)
        signature
      ≡ true

-- The connection counts as authenticated only with such a signature.
abbrev pub AuthedSigned : Answers → Bytes → Bytes → Connection → Type 0
AuthedSigned a session_id payload c = c.authed ≡ true → Signed a session_id payload

abbrev IsUnauthed : Connection → Type 0
IsUnauthed c = c.authed ≡ false

write_frame-IsUnauthed :
    (a : Answers) (c : Connection) (payload : Bytes)
    → IsUnauthed c
    → Left IsUnauthed (write_frame a c payload)
unfolding write_frame
write_frame-IsUnauthed a c payload h =
    if-Left IsUnauthed (check_ssh_seq c.out_seq) _ _
      (λ _. or_fail-Left IsUnauthed c _ (a.deliver payload) _ h (λ _. h)) (λ _. h)

write-IsUnauthed :
    (a : Answers) (c : Connection) (payload : Bytes)
    → IsUnauthed c
    → Left IsUnauthed (write a c payload)
unfolding write start_rekey
write-IsUnauthed a c payload h =
    and_then-Left IsUnauthed (write_frame a c payload) _ (write_frame-IsUnauthed a c payload h)
      (λ c' h'.
        if-Left IsUnauthed (needs_rekey payload c') _ _
          (λ _. or_fail-Left IsUnauthed c' _ a.server_kexinit _ h' (λ kex.
            if-Left IsUnauthed (is_ready c'.phase) _ _ (λ _. write_frame-IsUnauthed a _ kex h')
              (λ _. h')))
          (λ _. h'))

known_client-IsAmong :
    (a : Answers) (key : Bytes)
    → known_client a key ≡ true
    → (keys : List Bytes) × (a.authorized_keys ≡ some keys) × IsAmong key keys
unfolding known_client
known_client-IsAmong a key h = go a.authorized_keys refl h
  where
    go :
        (o : Option (List Bytes))
        → a.authorized_keys ≡ o
        → elim o [ none ↦ false | some keys ↦ any_equal key keys ] ≡ true
        → (keys : List Bytes) × (a.authorized_keys ≡ some keys) × IsAmong key keys
    go none e h = cc
    go (some keys) e h = (keys, e, any_equal-IsAmong key keys h)

and_true : {b c : Bool} → (b && c) ≡ true → (b ≡ true) × (c ≡ true)
and_true h = ground arith

module _ (a : Answers) (request : Bytes) (c : Connection) (unauthed : c.authed ≡ false) where
  -- A handler that only answers leaves the connection as it was.
  answered : (payload : Bytes) → Left (AuthedSigned a c.session_id request) (write a c payload)
  answered payload =
      Left-map IsUnauthed (AuthedSigned a c.session_id request) (write a c payload)
        (λ c' h e. absurd (clash h e)) (write-IsUnauthed a c payload unauthed)
    where
      clash : {b : Bool} → b ≡ false → b ≡ true → ⊥
      clash h e = cc

  unchanged : AuthedSigned a c.session_id request c
  unchanged e = absurd (clash c.authed unauthed e)
    where
      clash : (b : Bool) → b ≡ false → b ≡ true → ⊥
      clash b h e = cc

  module _ (blob key : Bytes) (carries : tagged_raw blob ≡ some key)
      (known : known_client a key ≡ true) where
    check_signature-Signed :
        (rest : Bytes)
        → Asks request true blob rest
        → Left
            (AuthedSigned a c.session_id request)
            (check_signature a (codes "warptweet") (codes "ssh-connection") blob key rest c)
    unfolding check_signature
    check_signature-Signed rest asks =
        let refused = answered _ in
        parsed_as-Left _ (consume_ssh_string rest) _ _ refused (λ (sig_wire, behind) read.
          if-Left _ (is_empty behind) _ _
            (λ last. found_as-Left _ (tagged_raw sig_wire) _ _ refused (λ signature carried.
              if-Left _
                (a.verify key
                  (signed_request c.session_id (codes "warptweet") (codes "ssh-connection") blob)
                  signature)
                _ _
                (λ verified.
                  Left-all _
                    (λ c' _.
                      signed sig_wire signature (read ∙ nothing_behind sig_wire behind last) carried
                        verified)
                    (authenticate a key c))
                (λ _. refused)))
            (λ _. refused))
      where
        nothing_behind :
            (sig_wire behind : Bytes)
            → is_empty behind ≡ true
            → ◌≡◌ {A = Result Truncated (Bytes × Bytes)} (ok (sig_wire, behind)) (ok (sig_wire, []))
        nothing_behind sig_wire [] last = refl
        nothing_behind sig_wire (b ∷ bs) last = cc

        signed :
            (sig_wire signature : Bytes)
            → consume_ssh_string rest ≡ ok (sig_wire, [])
            → tagged_raw sig_wire ≡ some signature
            → a.verify key
                (signed_request c.session_id (codes "warptweet") (codes "ssh-connection") blob)
                signature
              ≡ true
            → Signed a c.session_id request
        signed sig_wire signature read carried verified =
            let (keys, keys_read, among) = known_client-IsAmong a key known in
            record {
              keys = keys;
              key = key;
              blob = blob;
              rest = rest;
              sig_wire = sig_wire;
              signature = signature;
              asks = asks;
              signature_read = read;
              signature_carried = carried;
              keys_read = keys_read;
              key_authorized = among;
              blob_carries = carries;
              verified = verified;
            }

  check_key-Signed :
      (has_sig : Bool) (blob rest : Bytes)
      → Asks request has_sig blob rest
      → Left
          (AuthedSigned a c.session_id request)
          (check_key a (codes "warptweet") (codes "ssh-connection") has_sig blob rest c)
  unfolding check_key
  check_key-Signed has_sig blob rest asks =
      let refused = answered _ in
      found_as-Left _ (tagged_raw blob) _ _ refused (λ key carries.
        if-Left _ (known_client a key) _ _
          (λ known.
            if-Left _ has_sig _ _
              (λ signs.
                check_signature-Signed blob key carries known rest
                  (subst (λ b. Asks request b blob rest) signs asks))
              (λ _. if-Left _ (is_empty rest) _ _ (λ _. answered _) (λ _. refused)))
          (λ _. refused))

  handle_userauth-Left : Left (AuthedSigned a c.session_id request) (handle_userauth a request c)
  unfolding handle_userauth
  handle_userauth-Left =
      read_as-Left _ c (consume_ssh_string (drop 1 request)) _ unchanged (λ (user, r₁) e₁.
        read_as-Left _ c (consume_ssh_string r₁) _ unchanged (λ (service, r₂) e₂.
          read_as-Left _ c (consume_ssh_string r₂) _ unchanged (λ (method, r₃) e₃.
            if-Left _
              (equal user (codes "warptweet")
                && equal service (codes "ssh-connection")
                && equal method (codes "publickey"))
              _ _
              (λ named.
                let is_user = (equal_iff user _).0 (and_true (and_true named).0).0 in
                let is_service = (equal_iff service _).0 (and_true (and_true named).0).1 in
                let is_method = (equal_iff method _).0 (and_true named).1 in
                read_as-Left _ c (consume_bool r₃) _ unchanged (λ (has_sig, r₄) e₄.
                  read_as-Left _ c (consume_ssh_string r₄) _ unchanged (λ (alg, r₅) e₅.
                    read_as-Left _ c (consume_ssh_string r₅) _ unchanged (λ (blob, rest) e₆.
                      if-Left _ (equal alg composite_algorithm) _ _
                        (λ same_alg.
                          subst
                            (λ p.
                              Left (AuthedSigned a c.session_id request)
                                (check_key a p.0 p.1 has_sig blob rest c))
                            (pair (sym is_user) (sym is_service))
                            (check_key-Signed has_sig blob rest (record {
                              after_user = r₁;
                              after_service = r₂;
                              after_method = r₃;
                              after_mark = r₄;
                              after_algorithm = r₅;
                              user_read = e₁ ∙ named_as r₁ is_user;
                              service_read = e₂ ∙ named_as r₂ is_service;
                              method_read = e₃ ∙ named_as r₃ is_method;
                              mark_read = e₄;
                              algorithm_read = e₅ ∙ named_as r₅ ((equal_iff alg _).0 same_alg);
                              blob_read = e₆;
                            })))
                        (λ _. answered _)))))
              (λ _. answered _))))
    where
      pair : {u v s t : Bytes} → u ≡ v → s ≡ t → ◌≡◌ {A = Bytes × Bytes} (u, s) (v, t)
      pair e e' = cc

      named_as :
          {u v : Bytes} (r : Bytes)
          → u ≡ v
          → ◌≡◌ {A = Result Truncated (Bytes × Bytes)} (ok (u, r)) (ok (v, r))
      named_as r e = ap (λ x. ok (x, r)) e

-- A userauth request authenticates a connection that was not authenticated only if the request is
-- one of the dedicated user with the composite algorithm and a signature, its key blob carries one
-- of the authorized keys, and its own signature, the last thing in it, verifies with that key over
-- this session's id and the request's user, service and key blob.
pub handle_userauth-Signed :
    (a : Answers) (payload : Bytes) (c : Connection)
    → c.authed ≡ false
    → (left_by (handle_userauth a payload c)).authed ≡ true
    → Signed a c.session_id payload
handle_userauth-Signed a payload c unauthed =
    left_by-Left (AuthedSigned a c.session_id payload) (handle_userauth a payload c)
      (handle_userauth-Left a payload c unauthed)
