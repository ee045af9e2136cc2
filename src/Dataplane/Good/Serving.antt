-- ===== src/Dataplane/Good/Serving.antt =====
-- The invariant of a connection, along the steps of `serve` and `forwardBackend`.
use warptweet.Prelude.{
  ℕ, ◌+◌, ◌-◌, ◌^◌, ◌≤◌, ◌≡◌, inl, refl, Bool, true, false, ◌||◌, ◌&&◌, [], ◌∷◌, Option, none, some,
  Bytes, IsByte, leb→le, ltb, if◌then◌else◌, All, arith, drop, ℤ,
}
use mathlib.Core.Path.{subst}
use warptweet.Dataplane.Policy.{Policy}
use warptweet.Dataplane.Connection.{
  is_ready, Channel, Connection, Reply, continue, failed, Answers, check_ssh_seq,
}
use warptweet.Dataplane.Channels.{find_channel, send_turn, send_chunk}
use warptweet.Dataplane.Serve.{
  Message, message_of, during_exchange, dispatch, dispatch_secure, handle, handle_payload, receive,
  new_connection, unless_failed, backend_end, Serving, opened, received, sent_data, backend_ended,
  kexinit_message, ecdh_init, new_keys_message, transport_generic, disconnect_message,
  service_request, userauth_request, global_request, channel_open, channel_data, window_adjust,
  channel_eof, channel_close, channel_request, unexpected,
}
use warptweet.Dataplane.Replies.{if-Left, left_by-Left}
use warptweet.Dataplane.Good.{Good, Holds, write-Holds, disconnect-Holds}
use warptweet.Dataplane.Good.Kex.{handle_kex_init-Holds, handle_kex-Holds, handle_new_keys-Holds}
use warptweet.Dataplane.Good.Auth.{handle_service-Holds, handle_userauth-Holds, handle_global-Holds}
use warptweet.Dataplane.Good.Table.{close_channel-Good}
use warptweet.Dataplane.Good.Open.{handle_channel_open-Holds}
use warptweet.Dataplane.Good.Flow.{
  handle_channel_data-Holds, handle_window_adjust-Holds, handle_channel_eof-Holds,
  handle_channel_close-Holds, handle_channel_request-Holds, send_chunk-Holds,
}

module _ (policy : Policy) where
  module _ (a : Answers) (payload : Bytes) (bytes : All IsByte (drop 1 payload)) where
    dispatch-Holds :
        (m : Message) (c : Connection)
        → c.clear_in ≡ false
        → Good policy c
        → Holds policy (dispatch a policy m payload c)
    unfolding dispatch
    dispatch-Holds service_request c s g = handle_service-Holds policy a payload c g
    dispatch-Holds userauth_request c s g = handle_userauth-Holds policy a payload c s g
    dispatch-Holds global_request c s g = handle_global-Holds policy a payload c g
    dispatch-Holds channel_open c s g = handle_channel_open-Holds policy a payload c bytes g
    dispatch-Holds channel_data c s g = handle_channel_data-Holds policy a payload c g
    dispatch-Holds window_adjust c s g = handle_window_adjust-Holds policy a payload c g
    dispatch-Holds channel_eof c s g = handle_channel_eof-Holds policy a payload c g
    dispatch-Holds channel_close c s g = handle_channel_close-Holds policy a payload c g
    dispatch-Holds channel_request c s g = handle_channel_request-Holds policy a payload c g
    dispatch-Holds kexinit_message c s g = disconnect-Holds policy a c _ g
    dispatch-Holds ecdh_init c s g = disconnect-Holds policy a c _ g
    dispatch-Holds new_keys_message c s g = disconnect-Holds policy a c _ g
    dispatch-Holds transport_generic c s g = disconnect-Holds policy a c _ g
    dispatch-Holds disconnect_message c s g = disconnect-Holds policy a c _ g
    dispatch-Holds unexpected c s g = disconnect-Holds policy a c _ g

    dispatch_secure-Holds :
        (m : Message) (c : Connection)
        → Good policy c
        → Holds policy (dispatch_secure a policy m payload c)
    unfolding dispatch_secure
    dispatch_secure-Holds m c g =
        if-Left (Good policy) c.clear_in _ _ (λ _. disconnect-Holds policy a c _ g)
          (λ s.
            if-Left (Good policy) (is_ready c.phase || during_exchange m) _ _
              (λ _. dispatch-Holds m c s g) (λ _. disconnect-Holds policy a c _ g))

    handle-Holds :
        (m : Message) (c : Connection) → Good policy c → Holds policy (handle a policy m payload c)
    unfolding handle
    handle-Holds kexinit_message c g = handle_kex_init-Holds policy a c.phase payload c g
    handle-Holds ecdh_init c g = handle_kex-Holds policy a c.phase c.client_kex payload c g
    handle-Holds new_keys_message c g = handle_new_keys-Holds policy c.phase c.pending_in c refl g
    handle-Holds transport_generic c g =
        if-Left (Good policy) c.initial_kex _ _ (λ _. disconnect-Holds policy a c _ g) (λ _. g)
    handle-Holds disconnect_message c g = g
    handle-Holds unexpected c g = disconnect-Holds policy a c _ g
    handle-Holds service_request c g = dispatch_secure-Holds service_request c g
    handle-Holds userauth_request c g = dispatch_secure-Holds userauth_request c g
    handle-Holds global_request c g = dispatch_secure-Holds global_request c g
    handle-Holds channel_open c g = dispatch_secure-Holds channel_open c g
    handle-Holds channel_data c g = dispatch_secure-Holds channel_data c g
    handle-Holds window_adjust c g = dispatch_secure-Holds window_adjust c g
    handle-Holds channel_eof c g = dispatch_secure-Holds channel_eof c g
    handle-Holds channel_close c g = dispatch_secure-Holds channel_close c g
    handle-Holds channel_request c g = dispatch_secure-Holds channel_request c g

  handle_payload-Holds :
      (a : Answers) (payload : Bytes) (c : Connection)
      → All IsByte payload
      → Good policy c
      → Holds policy (handle_payload a policy payload c)
  unfolding handle_payload
  handle_payload-Holds a [] c bytes g = g
  handle_payload-Holds a (b ∷ payload) c bytes g =
      handle-Holds a (b ∷ payload) bytes.1 (message_of b) c g

  pub receive-Holds :
      (a : Answers) (payload : Bytes) (c : Connection)
      → All IsByte payload
      → Good policy c
      → Holds policy (receive a policy payload c)
  unfolding receive check_ssh_seq
  receive-Holds a payload c bytes g =
      if-Left (Good policy) (check_ssh_seq c.in_seq) _ _
        (λ h. handle_payload-Holds a payload _ bytes (record {
          channels_good = g.channels_good;
          sealed_good = g.sealed_good;
          counts_good = record {
            in_counted = counted c.in_seq (leb→le c.in_seq (2 ^ 32 - 1) h);
            out_counted = g.counts_good.out_counted;
          };
        }))
        (λ _. g)
    where
      counted : (n : ℕ) → n ≤ 2 ^ 32 - 1 → n + 1 ≤ 2 ^ 32
      counted n h = omega arith

  new_connection-Good :
      (rekey_after : ℕ) (max_channels : ℤ) (server_id client_id server_kex : Bytes)
      → Good policy (new_connection rekey_after max_channels server_id client_id server_kex)
  unfolding new_connection
  new_connection-Good rekey_after max_channels server_id client_id server_kex = record {
    channels_good = record { within_quota = omega arith; each_good = tt; only_authed = inl refl };
    sealed_good = record {
      authed_sealed = inl refl;
      in_sealed = inl refl;
      pending_sealed = inl refl;
    };
    counts_good = record { in_counted = omega arith; out_counted = omega arith };
  }

  unless_failed-Good :
      (a : Answers) (id : ℕ) (r : Reply) → Holds policy r → Good policy (unless_failed a id r)
  unless_failed-Good a id (continue c) h = h
  unless_failed-Good a id (failed e c) h = close_channel-Good policy a id c h

  send_turn-Holds :
      (a : Answers) (id : ℕ) (bytes rest : Bytes) (c : Connection) (o : Option Channel) (r : Reply)
      → Good policy c
      → send_turn a id bytes c o ≡ some (r, rest)
      → Holds policy r
  unfolding send_turn
  send_turn-Holds a id bytes rest c none r g e = cc
  send_turn-Holds a id bytes rest c (some ch) r g e = go (is_ready c.phase && ltb 0 ch.window) e
    where
      go :
          (b : Bool)
          → (if b then some (send_chunk a bytes c ch) else none) ≡ some (r, rest)
          → Holds policy r
      go false e = cc
      go true e =
          let eq : send_chunk a bytes c ch ≡ (r, rest) = cc in
          subst (λ p. Holds policy p.0) eq (send_chunk-Holds policy a bytes c ch g)

  backend_end-Good :
      (a : Answers) (id : ℕ) (c : Connection) (o : Option Channel)
      → Good policy c
      → Good policy (backend_end a id c o)
  unfolding backend_end
  backend_end-Good a id c none g = g
  backend_end-Good a id c (some ch) g =
      close_channel-Good policy a id _ (left_by-Left (Good policy) _ (write-Holds policy a c _ g))

-- Every connection that is served has at most its quota of channels, and channels only once its
-- client is authenticated; each leads to the target or to the management address, and its windows
-- are in bounds; nobody is authenticated before the client's packets are sealed, and those are
-- not opened before the server's are sealed; and no packet counter exceeds 2 ^ 32.
pub Serving-Good : (policy : Policy) (c : Connection) → Serving policy c → Good policy c
Serving-Good policy _ (opened a n m sid cid kex c e) =
    subst (Holds policy) e (write-Holds policy a _ kex (new_connection-Good policy n m sid cid kex))
Serving-Good policy _ (received a payload c c' bytes s e) =
    subst (Holds policy) e (receive-Holds policy a payload c bytes (Serving-Good policy c s))
Serving-Good policy _ (sent_data a id bytes rest c r s e) = unless_failed-Good policy a id r (
    send_turn-Holds policy a id bytes rest c (find_channel id c.channels) r
      (Serving-Good policy c s) e)
Serving-Good policy _ (backend_ended a id c s) =
    backend_end-Good policy a id c (find_channel id c.channels) (Serving-Good policy c s)
