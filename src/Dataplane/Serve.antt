-- ===== src/Dataplane/Serve.antt =====
-- The life of one connection: `serveConnection`, `serve`, `read` and `dispatchSecure`.
-- A connection steps with a payload that its peer sends, with bytes or an end of a backend, one at
-- a time, in any order.
use warptweet.Prelude.{
  ℕ, suc, ◌+◌, ◌*◌, ◌/◌, ◌%◌, ◌^◌, Bool, true, false, ◌||◌, [], ◌∷◌, ◌++◌, Option, none, some,
  Bytes, IsByte, All, ltb, ◌==◌, if◌then◌else◌, codes, ◌≡◌, ℤ, pos,
}
use warptweet.Wire.{be32}
use warptweet.Dataplane.Policy.{Policy, kex_init}
use warptweet.Dataplane.Connection.{
  await_init, is_ready, Channel, Connection, Reply, continue, failed, Answers, write, left_by,
  disconnect, check_ssh_seq, sequence_exhausted,
}
use warptweet.Dataplane.Kex.{handle_kex_init, handle_kex, handle_new_keys}
use warptweet.Dataplane.Auth.{handle_service, handle_userauth, handle_global}
use warptweet.Dataplane.Channels.{
  handle_channel_open, handle_channel_data, handle_window_adjust, handle_channel_eof,
  handle_channel_close, handle_channel_request, find_channel, close_channel, send_turn,
}

-- the messages by their numbers
pub data Message : Type 0 where
  kexinit_message ecdh_init new_keys_message transport_generic disconnect_message : Message
  service_request userauth_request global_request : Message
  channel_open channel_data window_adjust channel_eof channel_close channel_request : Message
  unexpected : Message

unfoldable pub message_of : ℕ → Message
message_of b =
    if b == kex_init
    then kexinit_message
    else if b == 30
    then ecdh_init
    else if b == 21
    then new_keys_message
    else if b == 2 || b == 3 || b == 4 || b == 7
    then transport_generic
    else if b == 1
    then disconnect_message
    else if b == 5
    then service_request
    else if b == 50
    then userauth_request
    else if b == 80
    then global_request
    else if b == 90
    then channel_open
    else if b == 94
    then channel_data
    else if b == 93
    then window_adjust
    else if b == 96
    then channel_eof
    else if b == 97
    then channel_close
    else if b == 98
    then channel_request
    else unexpected

-- `%d` of a byte
unfoldable pub decimal_byte : ℕ → Bytes
decimal_byte b =
    if ltb b 10
    then (b'0' + b) ∷ []
    else if ltb b 100
    then (b'0' + b / 10) ∷ (b'0' + b % 10) ∷ []
    else (b'0' + b / 100) ∷ (b'0' + b / 10 % 10) ∷ (b'0' + b % 10) ∷ []

abbrev pub unexpected_text : Bytes → Bytes
unexpected_text [] = []
unexpected_text (b ∷ _) = codes "unexpected SSH message " ++ decimal_byte b

-- What `dispatchSecure` accepts during a key exchange.
abbrev pub during_exchange : Message → Bool
during_exchange channel_data = true
during_exchange window_adjust = true
during_exchange channel_eof = true
during_exchange channel_close = true
during_exchange global_request = true
during_exchange _ = false

module _ (a : Answers) (policy : Policy) where
  unfoldable pub dispatch : Message → Bytes → Connection → Reply
  dispatch service_request payload c = handle_service a payload c
  dispatch userauth_request payload c = handle_userauth a payload c
  dispatch global_request payload c = handle_global a payload c
  dispatch channel_open payload c = handle_channel_open a policy payload c
  dispatch channel_data payload c = handle_channel_data a payload c
  dispatch window_adjust payload c = handle_window_adjust a payload c
  dispatch channel_eof payload c = handle_channel_eof a payload c
  dispatch channel_close payload c = handle_channel_close a payload c
  dispatch channel_request payload c = handle_channel_request a payload c
  dispatch _ payload c = disconnect a c (unexpected_text payload)

  -- `dispatchSecure`
  unfoldable pub dispatch_secure : Message → Bytes → Connection → Reply
  dispatch_secure m payload c =
      if c.clear_in
      then disconnect a c (codes "post-KEX message before NEWKEYS")
      else if is_ready c.phase || during_exchange m
      then dispatch m payload c
      else disconnect a c (codes "application message during key exchange")

  -- the body of the loop of `serve` behind `read`, less the return at a disconnect message
  unfoldable pub handle : Message → Bytes → Connection → Reply
  handle kexinit_message payload c = handle_kex_init a c.phase payload c
  handle ecdh_init payload c = handle_kex a policy c.phase c.client_kex payload c
  handle new_keys_message payload c = handle_new_keys c.phase c.pending_in c
  handle transport_generic payload c =
      if c.initial_kex
      then disconnect a c (codes "unexpected message during initial KEX")
      else continue c
  handle disconnect_message payload c = continue c
  handle unexpected payload c = disconnect a c (unexpected_text payload)
  handle m payload c = dispatch_secure m payload c

  -- `if len(payload) == 0 { continue }`
  unfoldable pub handle_payload : Bytes → Connection → Reply
  handle_payload [] c = continue c
  handle_payload (b ∷ payload) c = handle (message_of b) (b ∷ payload) c

  -- one turn of the loop: `read` has returned this payload
  unfoldable pub receive : Bytes → Connection → Reply
  receive payload c =
      if check_ssh_seq c.in_seq
      then handle_payload payload (record c { in_seq = c.in_seq + 1 })
      else failed sequence_exhausted c

-- `defaultRekeyAfter` and `defaultMaxChannels`
abbrev pub default_rekey_after : ℕ
default_rekey_after = 512 * 2 ^ 20

abbrev pub default_max_channels : ℕ
default_max_channels = 4

-- `serveConnection`, with `RekeyAfter` and `MaxChannels`
unfoldable pub new_connection : ℕ → ℤ → Bytes → Bytes → Bytes → Connection
new_connection rekey_after max_channels server_id client_id server_kex = record {
  clear_in = true;
  clear_out = true;
  key_in = none;
  key_out = none;
  pending_in = none;
  phase = await_init;
  in_seq = 0;
  out_seq = 0;
  bytes_out = 0;
  rekey_after = if rekey_after == 0 then default_rekey_after else rekey_after;
  client_id = client_id;
  server_id = server_id;
  client_kex = none;
  server_kex = server_kex;
  session_id = [];
  strict_kex = false;
  initial_kex = true;
  authed = false;
  channels = [];
  next_local = 0;
  max_channels = elim max_channels [ pos (suc n) ↦ suc n | _ ↦ default_max_channels ];
  key_blob = [];
  connection_id = [];
  sent = [];
}

-- `closeChannel` behind a `sendChannelData` that failed, or behind the backend's end
abbrev pub unless_failed : Answers → ℕ → Reply → Connection
unless_failed a id (continue c) = c
unless_failed a id (failed e c) = close_channel a id c

-- The end of the backend in `forwardBackend`: an EOF, and the channel closes.
unfoldable pub backend_end : Answers → ℕ → Connection → Option Channel → Connection
backend_end a id c none = c
backend_end a id c (some ch) = close_channel a id (left_by (write a c (96 ∷ be32 ch.remote_id)))

-- The connections that a served one runs through, from behind its own KEXINIT.
pub data Serving (policy : Policy) : Connection → Type 0 where
  opened :
      (a : Answers) (rekey_after : ℕ) (max_channels : ℤ) (server_id client_id server_kex : Bytes)
      (c : Connection)
      → write a (new_connection rekey_after max_channels server_id client_id server_kex) server_kex
        ≡ continue c
      → Serving policy c
  received :
      (a : Answers) (payload : Bytes) (c c' : Connection)
      → All IsByte payload
      → Serving policy c
      → receive a policy payload c ≡ continue c'
      → Serving policy c'
  sent_data :
      (a : Answers) (id : ℕ) (bytes rest : Bytes) (c : Connection) (r : Reply)
      → Serving policy c
      → send_turn a id bytes c (find_channel id c.channels) ≡ some (r, rest)
      → Serving policy (unless_failed a id r)
  backend_ended :
      (a : Answers) (id : ℕ) (c : Connection)
      → Serving policy c
      → Serving policy (backend_end a id c (find_channel id c.channels))
