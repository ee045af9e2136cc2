-- ===== src/Dataplane/Channels.antt =====
-- The channels of a connection: internal/dataplane/forward.go, and `teardownChannels`.
-- The map of channels is a list with one entry for each local id.
use warptweet.Prelude.{
  ℕ, ◌+◌, ◌-◌, ◌*◌, ◌%◌, ◌^◌, Bool, ◌&&◌, ◌||◌, List, [], ◌∷◌, ◌++◌, Option, none, some, Bytes,
  length, take, drop, ltb, ◌==◌, if◌then◌else◌, codes,
}
use warptweet.Wire.{be32, ssh_string, consume_ssh_string, consume_uint32, consume_bool}
use warptweet.Dataplane.Policy.{Policy, AddrPort, allow_channel_type, allow_direct_tcpip}
use warptweet.Dataplane.Connection.{
  is_ready, Channel, Connection, Reply, continue, failed, Answers, write, left_by, disconnect,
  read_then, found_then,
}
use warptweet.Dataplane.Auth.{is_empty}

-- `c.channels[id]`
unfoldable pub find_channel : ℕ → List Channel → Option Channel
find_channel id [] = none
find_channel id (ch ∷ chs) = if ch.local_id == id then some ch else find_channel id chs

-- `delete(c.channels, id)`
unfoldable pub delete_channel : ℕ → List Channel → List Channel
delete_channel id [] = []
delete_channel id (ch ∷ chs) =
    let rest = delete_channel id chs in if ch.local_id == id then rest else ch ∷ rest

-- What a handler writes through its `*sshChannel`.
unfoldable pub update_channel : ℕ → (Channel → Channel) → List Channel → List Channel
update_channel id f [] = []
update_channel id f (ch ∷ chs) =
    let rest = update_channel id f chs in if ch.local_id == id then f ch ∷ chs else ch ∷ rest

abbrev pub on_channels : (List Channel → List Channel) → Connection → Connection
on_channels f c = record c { channels = f c.channels }

-- `closeChannel`. The outcome of its write is dropped.
unfoldable pub close_found : Answers → ℕ → Connection → Option Channel → Connection
close_found a id c none = c
close_found a id c (some ch) =
    left_by (write a (on_channels (delete_channel id) c) (97 ∷ be32 ch.remote_id))

unfoldable pub close_channel : Answers → ℕ → Connection → Connection
close_channel a id c = close_found a id c (find_channel id c.channels)

-- `channelOpenFailure`
unfoldable pub channel_open_failure : Answers → ℕ → Bytes → Connection → Reply
channel_open_failure a sender reason c =
    write a c (92 ∷ be32 sender ++ be32 1 ++ ssh_string reason ++ ssh_string [])

abbrev pub receive_window_size : ℕ
receive_window_size = 2 * 2 ^ 20

abbrev pub receive_packet_size : ℕ
receive_packet_size = 32 * 2 ^ 10

-- `closeChannel(localID)` behind a write that failed, and the error
unfoldable pub confirm_or_close : Answers → ℕ → Reply → Reply
confirm_or_close a id (continue c) = continue c
confirm_or_close a id (failed e c) = failed e (close_channel a id c)

-- The channel of an open request that is granted.
abbrev pub new_channel : ℕ → ℕ → ℕ → ℕ → AddrPort → Channel
new_channel local_id sender window max_packet dest = record {
  local_id = local_id;
  remote_id = sender;
  window = window;
  max_packet = max_packet;
  receive_window = receive_window_size;
  max_receive = receive_packet_size;
  consumed = 0;
  backend = dest;
}

abbrev pub quota_left : Connection → Bool
quota_left c = ltb (length c.channels) c.max_channels

unfoldable pub dialled : Answers → ℕ → ℕ → ℕ → AddrPort → Connection → Option Bytes → Reply
dialled a sender window max_packet dest c (some reason) = channel_open_failure a sender reason c
dialled a sender window max_packet dest c none =
    let id = c.next_local in
    let ch = new_channel id sender window max_packet dest in
    confirm_or_close a id (
      write a
        (record c { next_local = (id + 1) % 2 ^ 32; channels = ch ∷ delete_channel id c.channels })
        (91 ∷ be32 sender ++ be32 id ++ be32 receive_window_size ++ be32 receive_packet_size))

-- `handleChannelOpen` from the address on. Between its two tests of the quota only this handler
-- could add a channel, so the second one finds what the first one found.
unfoldable pub open_channel : Answers → ℕ → ℕ → ℕ → AddrPort → Connection → Reply
open_channel a sender window max_packet dest c =
    if quota_left c
    then dialled a sender window max_packet dest c (a.dial dest)
    else channel_open_failure a sender (codes "channel quota exceeded") c

unfoldable pub open_to_host : Answers → Policy → ℕ → ℕ → ℕ → Bytes → ℕ → Connection → Reply
open_to_host a policy sender window max_packet host port c =
    found_then (a.parse_addr host)
      (channel_open_failure a sender (codes "destination is not a numeric address") c)
      (λ address.
        let dest : AddrPort = record { address = address; port = port % 2 ^ 16 } in
        if allow_direct_tcpip policy dest
        then open_channel a sender window max_packet dest c
        else channel_open_failure a sender
            (codes "direct-tcpip destination "
              ++ a.addr_port_text dest
              ++ codes " is not permitted")
            c)

-- `handleChannelOpen` behind the channel type
unfoldable pub open_direct : Answers → Policy → ℕ → ℕ → ℕ → Bytes → Connection → Reply
open_direct a policy sender window max_packet rest c =
    read_then c (consume_ssh_string rest) (λ (host, rest).
      read_then c (consume_uint32 rest) (λ (port, rest).
        if ltb 65535 port
        then channel_open_failure a sender (codes "destination port out of range") c
        else read_then c (consume_ssh_string rest) (λ (_, rest).
          read_then c (consume_uint32 rest) (λ (origin_port, rest).
            if is_empty rest
            then if ltb 65535 origin_port
              then channel_open_failure a sender (codes "originator port out of range") c
              else open_to_host a policy sender window max_packet host port c
            else disconnect a c (codes "trailing channel-open payload")))))

-- `handleChannelOpen`
unfoldable pub handle_channel_open : Answers → Policy → Bytes → Connection → Reply
handle_channel_open a policy payload c =
    if c.authed
    then read_then c (consume_ssh_string (drop 1 payload)) (λ (name, rest).
      read_then c (consume_uint32 rest) (λ (sender, rest).
        read_then c (consume_uint32 rest) (λ (window, rest).
          read_then c (consume_uint32 rest) (λ (max_packet, rest).
            if max_packet == 0
            then channel_open_failure a sender (codes "max packet size is zero") c
            else if allow_channel_type name
            then open_direct a policy sender window max_packet rest c
            else channel_open_failure a sender
                (codes "WarpTweet allows only direct-tcpip channels, not " ++ a.quoted name) c))))
    else disconnect a c (codes "channel open before authentication")

abbrev pub window_adjust_threshold : ℕ
window_adjust_threshold = 2 ^ 20

-- `ch.recvWindow -= size`
abbrev pub take_window : ℕ → Channel → Channel
take_window size ch = record ch { receive_window = ch.receive_window - size }

-- `ch.consumed += uint32(n)`
abbrev pub add_consumed : ℕ → Channel → Channel
add_consumed n ch = record ch { consumed = (ch.consumed + n) % 2 ^ 32 }

-- `ch.consumed = 0; ch.recvWindow += adjust`
abbrev pub give_back : Channel → Channel
give_back ch = record ch {
  consumed = 0;
  receive_window = (ch.receive_window + ch.consumed) % 2 ^ 32;
}

-- Behind the backend's write: `ch` is the channel with what it has consumed.
unfoldable pub adjust_window : Answers → ℕ → Channel → Connection → Reply
adjust_window a id ch c =
    if ltb ch.consumed window_adjust_threshold
    then continue (on_channels (update_channel id (λ _. ch)) c)
    else write a (on_channels (update_channel id (λ _. give_back ch)) c)
        (93 ∷ be32 ch.remote_id ++ be32 ch.consumed)

unfoldable pub to_backend : Answers → ℕ → Bytes → ℕ → Channel → Connection → Reply
to_backend a id bytes size ch c =
    if a.backend_write bytes
    then adjust_window a id (add_consumed size (take_window size ch)) c
    else continue (close_channel a id c)

-- `handleChannelData` behind the look-up, with `size`, which the backend's count is as well
unfoldable pub receive_data : Answers → ℕ → Bytes → ℕ → Connection → Option Channel → Reply
receive_data a id bytes size c none = continue c
receive_data a id bytes size c (some ch) =
    if ltb ch.max_receive size || ltb ch.receive_window size
    then disconnect a c (codes "channel data exceeds window")
    else to_backend a id bytes size ch (on_channels (update_channel id (take_window size)) c)

-- `handleChannelData`
unfoldable pub handle_channel_data : Answers → Bytes → Connection → Reply
handle_channel_data a payload c = read_then c (consume_uint32 (drop 1 payload)) (λ (id, rest).
    read_then c (consume_ssh_string rest) (λ (bytes, _).
      receive_data a id bytes (length bytes % 2 ^ 32) c (find_channel id c.channels)))

-- `ch.window += add`
abbrev pub widen : ℕ → Channel → Channel
widen add ch = record ch { window = (ch.window + add) % 2 ^ 32 }

unfoldable pub adjust_found : Answers → ℕ → ℕ → Connection → Option Channel → Reply
adjust_found a id add c none = continue c
adjust_found a id add c (some ch) =
    if ltb (2 ^ 32 - 1 - ch.window) add
    then disconnect a c (codes "channel window overflow")
    else continue (on_channels (update_channel id (widen add)) c)

-- `handleWindowAdjust`
unfoldable pub handle_window_adjust : Answers → Bytes → Connection → Reply
handle_window_adjust a payload c = read_then c (consume_uint32 (drop 1 payload)) (λ (id, rest).
    read_then c (consume_uint32 rest)
      (λ (add, _). adjust_found a id add c (find_channel id c.channels)))

-- `handleChannelEOF`, which shuts the backend's writing side
unfoldable pub handle_channel_eof : Answers → Bytes → Connection → Reply
handle_channel_eof a payload c =
    read_then c (consume_uint32 (drop 1 payload)) (λ (id, _). continue c)

-- `handleChannelClose`
unfoldable pub handle_channel_close : Answers → Bytes → Connection → Reply
handle_channel_close a payload c =
    read_then c (consume_uint32 (drop 1 payload)) (λ (id, _). continue (close_channel a id c))

unfoldable pub refuse_request : Answers → Connection → Option Channel → Reply
refuse_request a c none = continue c
refuse_request a c (some ch) = write a c (100 ∷ be32 ch.remote_id)

-- `handleChannelRequest`
unfoldable pub handle_channel_request : Answers → Bytes → Connection → Reply
handle_channel_request a payload c = read_then c (consume_uint32 (drop 1 payload)) (λ (id, rest).
    read_then c (consume_ssh_string rest) (λ (_, rest).
      read_then c (consume_bool rest) (λ (want_reply, _).
        if want_reply then refuse_request a c (find_channel id c.channels) else continue c)))

-- `chunk` in `sendChannelData`, in 32 bits
unfoldable pub chunk_size : Channel → ℕ → ℕ
chunk_size ch size =
    let chunk = size % 2 ^ 32 in
    let chunk' = if ltb ch.max_packet chunk then ch.max_packet else chunk in
    if ltb ch.window chunk' then ch.window else chunk'

-- `ch.window -= chunk`
abbrev pub narrow : ℕ → Channel → Channel
narrow chunk ch = record ch { window = ch.window - chunk }

-- One turn of `sendChannelData`, from where it waits until its write returns: `none` if it waits
-- on, or the channel is closed.
unfoldable pub send_chunk : Answers → Bytes → Connection → Channel → Reply × Bytes
send_chunk a bytes c ch =
    let chunk = chunk_size ch (length bytes) in
    (
      write a (on_channels (update_channel ch.local_id (narrow chunk)) c)
          (94 ∷ be32 ch.remote_id ++ ssh_string (take chunk bytes)),
      drop chunk bytes,
    )

unfoldable pub send_turn :
    Answers → ℕ → Bytes → Connection → Option Channel → Option (Reply × Bytes)
send_turn a id bytes c none = none
send_turn a id bytes c (some ch) =
    if is_ready c.phase && ltb 0 ch.window then some (send_chunk a bytes c ch) else none

-- `teardownChannels`
unfoldable pub teardown_channels : Connection → Connection
teardown_channels c = on_channels (λ _. []) c
