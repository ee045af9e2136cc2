-- ===== src/Dataplane/Good/Flow.antt =====
-- The invariant of a connection, through the handlers of open channels.
use warptweet.Prelude.{
  ℕ, ◌+◌, ◌-◌, ◌*◌, ◌%◌, ◌^◌, ◌<◌, ◌≤◌, ◌≡◌, refl, false, ◌||◌, Option, none, some, Bytes, length,
  ltb, arith, drop,
}
use warptweet.Wire.{consume_uint32, consume_ssh_string, consume_bool}
use warptweet.Dataplane.Policy.{Policy}
use warptweet.Dataplane.Connection.{Channel, Connection, Answers}
use warptweet.Dataplane.Channels.{
  find_channel, take_window, give_back, adjust_window, to_backend, receive_data,
  handle_channel_data, widen, adjust_found, handle_window_adjust, handle_channel_eof,
  handle_channel_close, refuse_request, handle_channel_request, chunk_size, narrow, send_chunk,
  window_adjust_threshold,
}
use warptweet.Dataplane.Replies.{if-Left, read_then-Left}
use warptweet.Dataplane.Good.{ChannelGood, Good, Holds, write-Holds, disconnect-Holds}
use warptweet.Dataplane.Good.Table.{
  find_channel-Good, updated-Good, close_channel-Good, received-Good, windowed-Good,
}

module _ (policy : Policy) where
  adjust_window-Holds :
      (a : Answers) (id : ℕ) (ch : Channel) (c : Connection)
      → ChannelGood policy ch
      → Good policy c
      → Holds policy (adjust_window a id ch c)
  unfolding adjust_window
  adjust_window-Holds a id ch c k g =
      if-Left (Good policy) (ltb ch.consumed window_adjust_threshold) _ _
        (λ _. updated-Good policy id (λ _. ch) c (λ _ _ _. k) g)
        (λ _. write-Holds policy a _ _ (
          updated-Good policy id (λ _. give_back ch) c
            (λ _ _ _.
              received-Good policy ((ch.receive_window + ch.consumed) % 2 ^ 32) 0 ch
                (all_back k.receive_kept) k)
            g))
    where
      all_back : {n : ℕ} → n ≤ 2 * 2 ^ 20 → n % 2 ^ 32 + 0 ≤ 2 * 2 ^ 20
      all_back h = omega arith

  to_backend-Holds :
      (a : Answers) (id : ℕ) (bytes : Bytes) (size : ℕ) (ch : Channel) (c : Connection)
      → size ≤ ch.receive_window
      → ChannelGood policy ch
      → Good policy c
      → Holds policy (to_backend a id bytes size ch c)
  unfolding to_backend
  to_backend-Holds a id bytes size ch c h k g =
      if-Left (Good policy) (a.backend_write bytes) _ _
        (λ _.
          adjust_window-Holds a id _ c
            (received-Good policy (ch.receive_window - size) ((ch.consumed + size) % 2 ^ 32) ch
              (kept ch.receive_window ch.consumed h k.receive_kept) k)
            g)
        (λ _. close_channel-Good policy a id c g)
    where
      kept :
          (r n : ℕ) → size ≤ r → r + n ≤ 2 * 2 ^ 20 → (r - size) + (n + size) % 2 ^ 32 ≤ 2 * 2 ^ 20
      kept r n h k = omega arith

  receive_data-Holds :
      (a : Answers) (id : ℕ) (bytes : Bytes) (size : ℕ) (c : Connection) (o : Option Channel)
      → find_channel id c.channels ≡ o
      → Good policy c
      → Holds policy (receive_data a id bytes size c o)
  unfolding receive_data
  receive_data-Holds a id bytes size c none e g = g
  receive_data-Holds a id bytes size c (some ch) e g =
      let k = find_channel-Good policy id c.channels ch g.channels_good.each_good e in
      if-Left (Good policy) (ltb ch.max_receive size || ltb ch.receive_window size) _ _
        (λ _. disconnect-Holds policy a c _ g)
        (λ h. to_backend-Holds a id bytes size ch _ (fits ch.max_receive h) k (
          updated-Good policy id (take_window size) c
            (λ x _ k.
              received-Good policy (x.receive_window - size) x.consumed x
                (less x.receive_window x.consumed k.receive_kept) k)
            g))
    where
      fits : (m : ℕ) → (ltb m size || ltb ch.receive_window size) ≡ false → size ≤ ch.receive_window
      fits m h = ground arith

      less : (r n : ℕ) → r + n ≤ 2 * 2 ^ 20 → (r - size) + n ≤ 2 * 2 ^ 20
      less r n h = omega arith

  pub handle_channel_data-Holds :
      (a : Answers) (payload : Bytes) (c : Connection)
      → Good policy c
      → Holds policy (handle_channel_data a payload c)
  unfolding handle_channel_data
  handle_channel_data-Holds a payload c g =
      read_then-Left (Good policy) c (consume_uint32 (drop 1 payload)) _ g (λ (id, rest).
        read_then-Left (Good policy) c (consume_ssh_string rest) _ g (λ (bytes, _).
          receive_data-Holds a id bytes (length bytes % 2 ^ 32) c (find_channel id c.channels) refl
            g))

  adjust_found-Holds :
      (a : Answers) (id add : ℕ) (c : Connection) (o : Option Channel)
      → find_channel id c.channels ≡ o
      → Good policy c
      → Holds policy (adjust_found a id add c o)
  unfolding adjust_found
  adjust_found-Holds a id add c none e g = g
  adjust_found-Holds a id add c (some ch) e g =
      if-Left (Good policy) (ltb (2 ^ 32 - 1 - ch.window) add) _ _
        (λ _. disconnect-Holds policy a c _ g)
        (λ _.
          updated-Good policy id (widen add) c
            (λ x _ k. windowed-Good policy ((x.window + add) % 2 ^ 32) x (omega arith) k) g)

  pub handle_window_adjust-Holds :
      (a : Answers) (payload : Bytes) (c : Connection)
      → Good policy c
      → Holds policy (handle_window_adjust a payload c)
  unfolding handle_window_adjust
  handle_window_adjust-Holds a payload c g =
      read_then-Left (Good policy) c (consume_uint32 (drop 1 payload)) _ g (λ (id, rest).
        read_then-Left (Good policy) c (consume_uint32 rest) _ g
          (λ (add, _). adjust_found-Holds a id add c (find_channel id c.channels) refl g))

  pub handle_channel_eof-Holds :
      (a : Answers) (payload : Bytes) (c : Connection)
      → Good policy c
      → Holds policy (handle_channel_eof a payload c)
  unfolding handle_channel_eof
  handle_channel_eof-Holds a payload c g =
      read_then-Left (Good policy) c (consume_uint32 (drop 1 payload)) _ g (λ _. g)

  pub handle_channel_close-Holds :
      (a : Answers) (payload : Bytes) (c : Connection)
      → Good policy c
      → Holds policy (handle_channel_close a payload c)
  unfolding handle_channel_close
  handle_channel_close-Holds a payload c g =
      read_then-Left (Good policy) c (consume_uint32 (drop 1 payload)) _ g
        (λ (id, _). close_channel-Good policy a id c g)

  refuse_request-Holds :
      (a : Answers) (c : Connection) (o : Option Channel)
      → Good policy c
      → Holds policy (refuse_request a c o)
  unfolding refuse_request
  refuse_request-Holds a c none g = g
  refuse_request-Holds a c (some ch) g = write-Holds policy a c _ g

  pub handle_channel_request-Holds :
      (a : Answers) (payload : Bytes) (c : Connection)
      → Good policy c
      → Holds policy (handle_channel_request a payload c)
  unfolding handle_channel_request
  handle_channel_request-Holds a payload c g =
      read_then-Left (Good policy) c (consume_uint32 (drop 1 payload)) _ g (λ (id, rest).
        read_then-Left (Good policy) c (consume_ssh_string rest) _ g (λ (_, rest).
          read_then-Left (Good policy) c (consume_bool rest) _ g (λ (want_reply, _).
            if-Left (Good policy) want_reply _ _
              (λ _. refuse_request-Holds a c (find_channel id c.channels) g) (λ _. g))))

  pub send_chunk-Holds :
      (a : Answers) (bytes : Bytes) (c : Connection) (ch : Channel)
      → Good policy c
      → Holds policy ((send_chunk a bytes c ch).0)
  unfolding send_chunk
  send_chunk-Holds a bytes c ch g = write-Holds policy a _ _ (
      updated-Good policy ch.local_id (narrow (chunk_size ch (length bytes))) c
        (λ x _ k.
          windowed-Good policy (x.window - chunk_size ch (length bytes)) x
            (narrower x.window (chunk_size ch (length bytes)) k.window_fits) k)
        g)
    where
      narrower : (w n : ℕ) → w < 2 ^ 32 → w - n < 2 ^ 32
      narrower w n h = omega arith
