-- ===== src/Dataplane/Good/Kex.antt =====
-- The invariant of a connection, through its key exchange.
use warptweet.Prelude.{
  ℕ, ◌^◌, ◌≤◌, ◌≡◌, ◌⊎◌, inl, inr, refl, Bool, true, false, Option, none, some, Bytes, length, ◌==◌,
  Result, ok, err, arith, drop,
}
use warptweet.Wire.{consume_ssh_string}
use warptweet.Dataplane.Policy.{Policy, OfferError, client_offers_pinned_algorithms}
use warptweet.Dataplane.Connection.{
  Phase, await_init, await_ecdh, await_new_keys, ready, Connection, Reply, Answers,
}
use warptweet.Dataplane.Kex.{
  handle_kex_init, reset_seq, handle_new_keys, chacha_key, install_keys, derive_and_switch,
  sign_and_reply, offer_then, exchange, handle_kex, derive_one, chacha_key_total, offer_text,
}
use warptweet.Dataplane.Replies.{and_then-Left, if-Left, or_fail-Left, read_then-Left}
use warptweet.Dataplane.Good.{Good, Holds, write-Holds, disconnect-Holds}

reset_seq-bound : (strict : Bool) (seq : ℕ) → seq ≤ 2 ^ 32 → reset_seq strict seq ≤ 2 ^ 32
reset_seq-bound true seq h = omega arith
reset_seq-bound false seq h = h

module _ (policy : Policy) where
  pub handle_kex_init-Holds :
      (a : Answers) (p : Phase) (payload : Bytes) (c : Connection)
      → Good policy c
      → Holds policy (handle_kex_init a p payload c)
  unfolding handle_kex_init
  handle_kex_init-Holds a ready payload c g =
      or_fail-Left (Good policy) c _ a.server_kexinit _ g (λ kex. write-Holds policy a _ kex g)
  handle_kex_init-Holds a await_init payload c g = g
  handle_kex_init-Holds a await_ecdh payload c g = disconnect-Holds policy a c _ g
  handle_kex_init-Holds a await_new_keys payload c g = disconnect-Holds policy a c _ g

  -- The key that was pending comes into use, so the other direction is sealed.
  pub handle_new_keys-Holds :
      (p : Phase) (k : Option Bytes) (c : Connection)
      → c.pending_in ≡ k
      → Good policy c
      → Holds policy (handle_new_keys p k c)
  unfolding handle_new_keys
  handle_new_keys-Holds await_new_keys (some key) c e g = record {
    channels_good = g.channels_good;
    sealed_good = record {
      authed_sealed = inr refl;
      in_sealed = inr (waiting c.pending_in e g.sealed_good.pending_sealed);
      pending_sealed = inl refl;
    };
    counts_good = record {
      in_counted = reset_seq-bound c.strict_kex c.in_seq g.counts_good.in_counted;
      out_counted = g.counts_good.out_counted;
    };
  }
    where
      waiting :
          (k : Option Bytes)
          → k ≡ some key
          → (k ≡ none) ⊎ (c.clear_out ≡ false)
          → c.clear_out ≡ false
      waiting k e (inr h) = h
      waiting k e (inl h) = cc
  handle_new_keys-Holds await_new_keys none c e g = g
  handle_new_keys-Holds await_init k c e g = g
  handle_new_keys-Holds await_ecdh k c e g = g
  handle_new_keys-Holds ready k c e g = g

  install_keys-Holds :
      (key_out key_in : Bytes) (c : Connection)
      → Good policy c
      → Holds policy (install_keys key_out key_in c)
  unfolding install_keys
  install_keys-Holds key_out key_in c g = record {
    channels_good = g.channels_good;
    sealed_good = record {
      authed_sealed = g.sealed_good.authed_sealed;
      in_sealed = inr refl;
      pending_sealed = inr refl;
    };
    counts_good = record {
      in_counted = g.counts_good.in_counted;
      out_counted = reset_seq-bound c.strict_kex c.out_seq g.counts_good.out_counted;
    };
  }

  derive_and_switch-Holds :
      (a : Answers) (secret hash id : Bytes) (c : Connection)
      → Good policy c
      → Holds policy (derive_and_switch a secret hash id c)
  unfolding derive_and_switch
  derive_and_switch-Holds a secret hash id c g =
      or_fail-Left (Good policy) c _
        (chacha_key (derive_one a.sha256 secret hash id b'D' chacha_key_total)) _ g
        (λ key_out.
          or_fail-Left (Good policy) c _
            (chacha_key (derive_one a.sha256 secret hash id b'C' chacha_key_total)) _ g
            (λ key_in.
              and_then-Left (Good policy) _ _ (write-Holds policy a c _ g)
                (install_keys-Holds key_out key_in)))

  sign_and_reply-Holds :
      (a : Answers) (blob server_pub secret hash : Bytes) (c : Connection)
      → Good policy c
      → Holds policy (sign_and_reply a blob server_pub secret hash c)
  unfolding sign_and_reply
  sign_and_reply-Holds a blob server_pub secret hash c g =
      or_fail-Left (Good policy) c _ (a.sign hash) _ g (λ signature.
        and_then-Left (Good policy) _ _ (write-Holds policy a c _ g)
          (derive_and_switch-Holds a secret hash c.session_id))

  offer_then-Holds :
      (a : Answers) (c : Connection) (r : Result OfferError (Unit {0})) (next : Reply)
      → Good policy c
      → Holds policy next
      → Holds policy (offer_then a c r next)
  offer_then-Holds a c (ok _) next g h = h
  offer_then-Holds a c (err e) next g h = disconnect-Holds policy a c (offer_text e) g

  exchange-Holds :
      (a : Answers) (client_kex client_pub : Bytes) (c : Connection)
      → Good policy c
      → Holds policy (exchange a policy client_kex client_pub c)
  unfolding exchange
  exchange-Holds a client_kex client_pub c g =
      or_fail-Left (Good policy) c _ (a.encapsulate client_pub) _ g (λ (server_pub, shared).
        offer_then-Holds a c (client_offers_pinned_algorithms client_kex policy) _ g (
          or_fail-Left (Good policy) c _ a.host_public _ g
            (λ host_pub. sign_and_reply-Holds a _ server_pub _ _ _ g)))

  pub handle_kex-Holds :
      (a : Answers) (p : Phase) (k : Option Bytes) (payload : Bytes) (c : Connection)
      → Good policy c
      → Holds policy (handle_kex a policy p k payload c)
  unfolding handle_kex
  handle_kex-Holds a await_ecdh (some client_kex) payload c g =
      read_then-Left (Good policy) c (consume_ssh_string (drop 1 payload)) _ g
        (λ (client_pub, rest).
          if-Left (Good policy) (length rest == 0) _ _
            (λ _. exchange-Holds a client_kex client_pub c g) (λ _. g))
  handle_kex-Holds a await_ecdh none payload c g = g
  handle_kex-Holds a await_init k payload c g = g
  handle_kex-Holds a await_new_keys k payload c g = g
  handle_kex-Holds a ready k payload c g = g
