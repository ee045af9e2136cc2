-- ===== src/Dataplane/Good/Open.antt =====
-- The invariant of a connection, through `handleChannelOpen`.
use warptweet.Prelude.{
  ℕ, suc, ◌%◌, ◌^◌, ◌<◌, ◌≤◌, ◌≡◌, inr, true, false, ◌∷◌, Option, none, some, Bytes, IsByte, length,
  ltb, ltb→lt, ◌==◌, All, arith, drop,
}
use warptweet.Wire.{consume_uint32, consume_ssh_string}
use warptweet.Wire.Bounds.{consume_uint32-IsWord, consume_ssh_string-IsBytes}
use warptweet.Dataplane.Policy.{Policy, AddrPort, allow_channel_type, allow_direct_tcpip}
use warptweet.Dataplane.Connection.{Connection, Reply, continue, failed, Answers}
use warptweet.Dataplane.Auth.{is_empty}
use warptweet.Dataplane.Channels.{
  delete_channel, channel_open_failure, confirm_or_close, new_channel, quota_left, dialled,
  open_channel, open_to_host, open_direct, handle_channel_open,
}
use warptweet.Dataplane.Replies.{found_then-Left, if-Left, read_as-Left}
use warptweet.Dataplane.Good.{ChannelsGood, Good, Holds, write-Holds, disconnect-Holds}
use warptweet.Dataplane.Good.Table.{length-delete_channel, delete_channel-All, close_channel-Good}

module _ (policy : Policy) where
  channel_open_failure-Holds :
      (a : Answers) (sender : ℕ) (reason : Bytes) (c : Connection)
      → Good policy c
      → Holds policy (channel_open_failure a sender reason c)
  unfolding channel_open_failure
  channel_open_failure-Holds a sender reason c g = write-Holds policy a c _ g

  confirm_or_close-Holds :
      (a : Answers) (id : ℕ) (r : Reply) → Holds policy r → Holds policy (confirm_or_close a id r)
  unfolding confirm_or_close
  confirm_or_close-Holds a id (continue c) h = h
  confirm_or_close-Holds a id (failed e c) h = close_channel-Good policy a id c h

  module _ (a : Answers) (window max_packet : ℕ) (fits : window < 2 ^ 32)
      (some_packet : 1 ≤ max_packet) (c : Connection) (g : Good policy c) (authed : c.authed ≡ true)
      (sender : ℕ) where
    -- One more channel, within the quota.
    added-Good :
        (dest : AddrPort)
        → allow_direct_tcpip policy dest ≡ true
        → length c.channels < c.max_channels
        → ChannelsGood policy c.max_channels c.authed (
            new_channel c.next_local sender window max_packet dest
            ∷ delete_channel c.next_local c.channels)
    added-Good dest allowed room = record {
      within_quota = within (length-delete_channel policy c.next_local c.channels);
      each_good = (
        record {
          permitted = allowed;
          window_fits = fits;
          packet_some = some_packet;
          receive_kept = omega arith;
        },
        delete_channel-All policy c.next_local c.channels g.channels_good.each_good,
      );
      only_authed = inr authed;
    }
      where
        within :
            length (delete_channel c.next_local c.channels) ≤ length c.channels
            → suc (length (delete_channel c.next_local c.channels)) ≤ c.max_channels
        within h = omega arith

    dialled-Holds :
        (dest : AddrPort) (o : Option Bytes)
        → allow_direct_tcpip policy dest ≡ true
        → length c.channels < c.max_channels
        → Holds policy (dialled a sender window max_packet dest c o)
    unfolding dialled
    dialled-Holds dest (some reason) allowed room = channel_open_failure-Holds a sender reason c g
    dialled-Holds dest none allowed room = confirm_or_close-Holds a c.next_local _ (
        write-Holds policy a _ _ (record {
          channels_good = added-Good dest allowed room;
          sealed_good = g.sealed_good;
          counts_good = g.counts_good;
        }))

    open_channel-Holds :
        (dest : AddrPort)
        → allow_direct_tcpip policy dest ≡ true
        → Holds policy (open_channel a sender window max_packet dest c)
    unfolding open_channel
    open_channel-Holds dest allowed =
        if-Left (Good policy) (quota_left c) _ _
          (λ h.
            dialled-Holds dest (a.dial dest) allowed (ltb→lt (length c.channels) c.max_channels h))
          (λ _. channel_open_failure-Holds a sender _ c g)

    open_to_host-Holds :
        (host : Bytes) (port : ℕ)
        → Holds policy (open_to_host a policy sender window max_packet host port c)
    unfolding open_to_host
    open_to_host-Holds host port =
        found_then-Left (Good policy) (a.parse_addr host) _ _
          (channel_open_failure-Holds a sender _ c g)
          (λ address.
            let dest : AddrPort = record { address = address; port = port % 2 ^ 16 } in
            if-Left (Good policy) (allow_direct_tcpip policy dest) _ _
              (λ h. open_channel-Holds dest h) (λ _. channel_open_failure-Holds a sender _ c g))

    open_direct-Holds :
        (rest : Bytes) → Holds policy (open_direct a policy sender window max_packet rest c)
    unfolding open_direct
    open_direct-Holds rest =
        read_as-Left (Good policy) c (consume_ssh_string rest) _ g (λ (host, rest) _.
          read_as-Left (Good policy) c (consume_uint32 rest) _ g (λ (port, rest) _.
            if-Left (Good policy) (ltb 65535 port) _ _
              (λ _. channel_open_failure-Holds a sender _ c g)
              (λ _. read_as-Left (Good policy) c (consume_ssh_string rest) _ g (λ (_, rest) _.
                read_as-Left (Good policy) c (consume_uint32 rest) _ g (λ (origin_port, rest) _.
                  if-Left (Good policy) (is_empty rest) _ _
                    (λ _.
                      if-Left (Good policy) (ltb 65535 origin_port) _ _
                        (λ _. channel_open_failure-Holds a sender _ c g)
                        (λ _. open_to_host-Holds host port))
                    (λ _. disconnect-Holds policy a c _ g))))))

  -- Of a payload of bytes, the window that it reads has 32 bits.
  pub handle_channel_open-Holds :
      (a : Answers) (payload : Bytes) (c : Connection)
      → All IsByte (drop 1 payload)
      → Good policy c
      → Holds policy (handle_channel_open a policy payload c)
  unfolding handle_channel_open
  handle_channel_open-Holds a payload c bytes g =
      if-Left (Good policy) c.authed _ _
        (λ authed.
          read_as-Left (Good policy) c (consume_ssh_string (drop 1 payload)) _ g (λ (name, rest) e₁.
            read_as-Left (Good policy) c (consume_uint32 rest) _ g (λ (sender, rest') e₂.
              read_as-Left (Good policy) c (consume_uint32 rest') _ g (λ (window, rest'') e₃.
                read_as-Left (Good policy) c (consume_uint32 rest'') _ g
                  (λ (max_packet, rest''') e₄.
                    let b₁ = consume_ssh_string-IsBytes (drop 1 payload) name rest bytes e₁ in
                    let b₂ = consume_uint32-IsWord rest sender rest' b₁ e₂ in
                    let b₃ = consume_uint32-IsWord rest' window rest'' b₂.1 e₃ in
                    if-Left (Good policy) (max_packet == 0) _ _
                      (λ _. channel_open_failure-Holds a sender _ c g)
                      (λ z.
                        if-Left (Good policy) (allow_channel_type name) _ _
                          (λ _.
                            open_direct-Holds a window max_packet b₃.0 (positive max_packet z) c g
                              authed sender rest''')
                          (λ _. channel_open_failure-Holds a sender _ c g)))))))
        (λ _. disconnect-Holds policy a c _ g)
    where
      positive : (n : ℕ) → (n == 0) ≡ false → 1 ≤ n
      positive n h = ground arith
