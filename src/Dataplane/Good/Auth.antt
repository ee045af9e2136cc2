-- ===== src/Dataplane/Good/Auth.antt =====
-- The invariant of a connection, through its service, userauth and global requests.
use warptweet.Prelude.{
  ◌≡◌, inr, refl, Bool, true, false, ◌&&◌, Option, none, some, Bytes, drop, equal, codes,
}
use warptweet.Wire.{consume_ssh_string, consume_bool}
use warptweet.Dataplane.Policy.{Policy}
use warptweet.Dataplane.Connection.{Connection, Answers}
use warptweet.Dataplane.Kex.{composite_algorithm}
use warptweet.Dataplane.Auth.{
  is_empty, handle_service, known_client, tagged_raw, signed_request, register_session,
  authenticate, check_signature, check_key, handle_userauth, handle_global,
}
use warptweet.Dataplane.Replies.{
  found_then-Left, if-Left, or_fail-Left, parsed_then-Left, read_then-Left,
}
use warptweet.Dataplane.Good.{PartsGood, Good, Holds, write-Holds, disconnect-Holds}

module _ (policy : Policy) where
  pub handle_service-Holds :
      (a : Answers) (payload : Bytes) (c : Connection)
      → Good policy c
      → Holds policy (handle_service a payload c)
  unfolding handle_service
  handle_service-Holds a payload c g =
      read_then-Left (Good policy) c (consume_ssh_string (drop 1 payload)) _ g (λ (name, rest).
        if-Left (Good policy) (is_empty rest && equal name (codes "ssh-userauth")) _ _
          (λ _. write-Holds policy a c _ g) (λ _. disconnect-Holds policy a c _ g))

  register_session-Holds :
      (a : Answers) (o : Option Bool) (c : Connection)
      → Good policy c
      → Holds policy (register_session a o c)
  unfolding register_session
  register_session-Holds a (some false) c g = disconnect-Holds policy a c _ g
  register_session-Holds a (some true) c g = write-Holds policy a c _ g
  register_session-Holds a none c g = write-Holds policy a c _ g

  authenticate-Holds :
      (a : Answers) (raw_pub : Bytes) (c : Connection)
      → c.clear_in ≡ false
      → Good policy c
      → Holds policy (authenticate a raw_pub c)
  unfolding authenticate
  authenticate-Holds a raw_pub c sealed g =
      or_fail-Left (Good policy) _ _ a.new_connection_id _ authed
        (λ id. register_session-Holds a a.register _ authed)
    where
      authed :
          PartsGood policy c.max_channels true c.clear_in c.clear_out c.pending_in c.in_seq
            c.out_seq c.channels
      authed = record {
        channels_good = record {
          within_quota = g.channels_good.within_quota;
          each_good = g.channels_good.each_good;
          only_authed = inr refl;
        };
        sealed_good = record {
          authed_sealed = inr sealed;
          in_sealed = g.sealed_good.in_sealed;
          pending_sealed = g.sealed_good.pending_sealed;
        };
        counts_good = g.counts_good;
      }

  check_signature-Holds :
      (a : Answers) (user service pub_blob raw_pub rest : Bytes) (c : Connection)
      → c.clear_in ≡ false
      → Good policy c
      → Holds policy (check_signature a user service pub_blob raw_pub rest c)
  unfolding check_signature
  check_signature-Holds a user service pub_blob raw_pub rest c sealed g =
      let refused = write-Holds policy a c _ g in
      parsed_then-Left (Good policy) (consume_ssh_string rest) _ _ refused (λ (sig_wire, rest).
        if-Left (Good policy) (is_empty rest) _ _
          (λ _. found_then-Left (Good policy) (tagged_raw sig_wire) _ _ refused (λ raw_sig.
            if-Left (Good policy)
              (a.verify raw_pub (signed_request c.session_id user service pub_blob) raw_sig) _ _
              (λ _. authenticate-Holds a raw_pub c sealed g) (λ _. refused)))
          (λ _. refused))

  check_key-Holds :
      (a : Answers) (user service : Bytes) (has_sig : Bool) (pub_blob rest : Bytes) (c : Connection)
      → c.clear_in ≡ false
      → Good policy c
      → Holds policy (check_key a user service has_sig pub_blob rest c)
  unfolding check_key
  check_key-Holds a user service has_sig pub_blob rest c sealed g =
      let refused = write-Holds policy a c _ g in
      found_then-Left (Good policy) (tagged_raw pub_blob) _ _ refused (λ raw_pub.
        if-Left (Good policy) (known_client a raw_pub) _ _
          (λ _.
            if-Left (Good policy) has_sig _ _
              (λ _. check_signature-Holds a user service pub_blob raw_pub rest c sealed g)
              (λ _.
                if-Left (Good policy) (is_empty rest) _ _ (λ _. write-Holds policy a c _ g)
                  (λ _. refused)))
          (λ _. refused))

  pub handle_userauth-Holds :
      (a : Answers) (payload : Bytes) (c : Connection)
      → c.clear_in ≡ false
      → Good policy c
      → Holds policy (handle_userauth a payload c)
  unfolding handle_userauth
  handle_userauth-Holds a payload c sealed g =
      read_then-Left (Good policy) c (consume_ssh_string (drop 1 payload)) _ g (λ (user, rest).
        read_then-Left (Good policy) c (consume_ssh_string rest) _ g (λ (service, rest).
          read_then-Left (Good policy) c (consume_ssh_string rest) _ g (λ (method, rest).
            if-Left (Good policy)
              (equal user (codes "warptweet")
                && equal service (codes "ssh-connection")
                && equal method (codes "publickey"))
              _ _
              (λ _. read_then-Left (Good policy) c (consume_bool rest) _ g (λ (has_sig, rest).
                read_then-Left (Good policy) c (consume_ssh_string rest) _ g (λ (alg, rest).
                  read_then-Left (Good policy) c (consume_ssh_string rest) _ g (λ (pub_blob, rest).
                    if-Left (Good policy) (equal alg composite_algorithm) _ _
                      (λ _. check_key-Holds a user service has_sig pub_blob rest c sealed g)
                      (λ _. write-Holds policy a c _ g)))))
              (λ _. write-Holds policy a c _ g))))

  pub handle_global-Holds :
      (a : Answers) (payload : Bytes) (c : Connection)
      → Good policy c
      → Holds policy (handle_global a payload c)
  unfolding handle_global
  handle_global-Holds a payload c g =
      read_then-Left (Good policy) c (consume_ssh_string (drop 1 payload)) _ g (λ (name, rest).
        read_then-Left (Good policy) c (consume_bool rest) _ g (λ (want_reply, rest).
          if-Left (Good policy) (is_empty rest) _ _
            (λ _. if-Left (Good policy) want_reply _ _ (λ _. write-Holds policy a c _ g) (λ _. g))
            (λ _. disconnect-Holds policy a c _ g)))
