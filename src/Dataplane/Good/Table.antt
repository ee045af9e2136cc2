-- ===== src/Dataplane/Good/Table.antt =====
-- The invariant of a connection, and its table of channels.
use warptweet.Prelude.{
  ℕ, ◌+◌, ◌*◌, ◌^◌, ◌<◌, ◌≤◌, ◌≡◌, ◌⊎◌, inl, inr, refl, Bool, true, false, List, [], ◌∷◌, Option,
  none, some, length, ◌==◌, if◌then◌else◌, All, arith,
}
use mathlib.Core.Path.{subst}
use warptweet.Dataplane.Policy.{Policy}
use warptweet.Dataplane.Connection.{Channel, Connection, Answers}
use warptweet.Dataplane.Channels.{
  find_channel, delete_channel, update_channel, on_channels, close_found, close_channel,
}
use warptweet.Dataplane.Replies.{left_by-Left}
use warptweet.Dataplane.Good.{ChannelGood, Good, write-Holds}

module _ (policy : Policy) where
  pub find_channel-Good :
      (id : ℕ) (chs : List Channel) (ch : Channel)
      → All (ChannelGood policy) chs
      → find_channel id chs ≡ some ch
      → ChannelGood policy ch
  unfolding find_channel
  find_channel-Good id [] ch h e = absurd (ground arith)
  find_channel-Good id (x ∷ chs) ch h e = go (x.local_id == id) (find_channel-Good id chs ch h.1) e
    where
      go :
          (b : Bool)
          → (find_channel id chs ≡ some ch → ChannelGood policy ch)
          → (if b then some x else find_channel id chs) ≡ some ch
          → ChannelGood policy ch
      go true ih e = let eq : x ≡ ch = cc in subst (ChannelGood policy) eq h.0
      go false ih e = ih e

  pub length-delete_channel :
      (id : ℕ) (chs : List Channel) → length (delete_channel id chs) ≤ length chs
  unfolding delete_channel
  length-delete_channel id [] = omega arith
  length-delete_channel id (x ∷ chs) = let ih = length-delete_channel id chs in ground arith

  pub delete_channel-All :
      (id : ℕ) (chs : List Channel)
      → All (ChannelGood policy) chs
      → All (ChannelGood policy) (delete_channel id chs)
  unfolding delete_channel
  delete_channel-All id [] h = tt
  delete_channel-All id (x ∷ chs) h = go (x.local_id == id) (delete_channel-All id chs h.1)
    where
      go :
          (b : Bool)
          → All (ChannelGood policy) (delete_channel id chs)
          → All
              (ChannelGood policy)
              (if b then delete_channel id chs else x ∷ delete_channel id chs)
      go true ih = ih
      go false ih = (h.0, ih)

  length-update_channel :
      (id : ℕ) (f : Channel → Channel) (chs : List Channel)
      → length (update_channel id f chs) ≡ length chs
  unfolding update_channel
  length-update_channel id f [] = refl
  length-update_channel id f (x ∷ chs) = let ih = length-update_channel id f chs in ground arith

  update_channel-All :
      (id : ℕ) (f : Channel → Channel) (chs : List Channel)
      → ((ch : Channel)
          → find_channel id chs ≡ some ch
          → ChannelGood policy ch
          → ChannelGood policy (f ch))
      → All (ChannelGood policy) chs
      → All (ChannelGood policy) (update_channel id f chs)
  unfolding update_channel find_channel
  update_channel-All id f [] g h = tt
  update_channel-All id f (x ∷ chs) g h =
      go (x.local_id == id) g (λ g. update_channel-All id f chs g h.1)
    where
      go :
          (b : Bool)
          → ((ch : Channel)
              → (if b then some x else find_channel id chs) ≡ some ch
              → ChannelGood policy ch
              → ChannelGood policy (f ch))
          → (((ch : Channel)
                → find_channel id chs ≡ some ch
                → ChannelGood policy ch
                → ChannelGood policy (f ch))
              → All (ChannelGood policy) (update_channel id f chs))
          → All (ChannelGood policy) (if b then f x ∷ chs else x ∷ update_channel id f chs)
      go true g ih = (g x refl h.0, h.1)
      go false g ih = (h.0, ih g)

  -- A handler's write through the channel it has found.
  pub updated-Good :
      (id : ℕ) (f : Channel → Channel) (c : Connection)
      → ((ch : Channel)
          → find_channel id c.channels ≡ some ch
          → ChannelGood policy ch
          → ChannelGood policy (f ch))
      → Good policy c
      → Good policy (on_channels (update_channel id f) c)
  unfolding update_channel
  updated-Good id f c h g = record {
    channels_good = record {
      within_quota =
          within (length (update_channel id f c.channels)) (length-update_channel id f c.channels);
      each_good = update_channel-All id f c.channels h g.channels_good.each_good;
      only_authed = still c.channels g.channels_good.only_authed;
    };
    sealed_good = g.sealed_good;
    counts_good = g.counts_good;
  }
    where
      within : (n : ℕ) → n ≡ length c.channels → n ≤ c.max_channels
      within n e = let q = g.channels_good.within_quota in omega arith

      still :
          (chs : List Channel)
          → (chs ≡ []) ⊎ (c.authed ≡ true)
          → (update_channel id f chs ≡ []) ⊎ (c.authed ≡ true)
      still chs (inr a) = inr a
      still [] (inl e) = inl refl
      still (x ∷ chs) (inl e) = cc

  deleted-Good :
      (id : ℕ) (c : Connection) → Good policy c → Good policy (on_channels (delete_channel id) c)
  unfolding delete_channel
  deleted-Good id c g = record {
    channels_good = record {
      within_quota = within (length-delete_channel id c.channels) g.channels_good.within_quota;
      each_good = delete_channel-All id c.channels g.channels_good.each_good;
      only_authed = still c.channels g.channels_good.only_authed;
    };
    sealed_good = g.sealed_good;
    counts_good = g.counts_good;
  }
    where
      within : {n m k : ℕ} → n ≤ m → m ≤ k → n ≤ k
      within h g = omega arith

      still :
          (chs : List Channel)
          → (chs ≡ []) ⊎ (c.authed ≡ true)
          → (delete_channel id chs ≡ []) ⊎ (c.authed ≡ true)
      still chs (inr a) = inr a
      still [] (inl e) = inl refl
      still (x ∷ chs) (inl e) = cc

  close_found-Good :
      (a : Answers) (id : ℕ) (c : Connection) (o : Option Channel)
      → Good policy c
      → Good policy (close_found a id c o)
  unfolding close_found
  close_found-Good a id c none g = g
  close_found-Good a id c (some ch) g =
      left_by-Left (Good policy) _ (write-Holds policy a _ _ (deleted-Good id c g))

  pub close_channel-Good :
      (a : Answers) (id : ℕ) (c : Connection) → Good policy c → Good policy (close_channel a id c)
  unfolding close_channel
  close_channel-Good a id c g = close_found-Good a id c (find_channel id c.channels) g

  -- The channel with another receive window, or other consumed bytes.
  pub received-Good :
      (receive consumed : ℕ) (ch : Channel)
      → receive + consumed ≤ 2 * 2 ^ 20
      → ChannelGood policy ch
      → ChannelGood policy (record ch { receive_window = receive; consumed = consumed })
  received-Good receive consumed ch h g = record {
    permitted = g.permitted;
    window_fits = g.window_fits;
    packet_some = g.packet_some;
    receive_kept = h;
  }

  pub windowed-Good :
      (window : ℕ) (ch : Channel)
      → window < 2 ^ 32
      → ChannelGood policy ch
      → ChannelGood policy (record ch { window = window })
  windowed-Good window ch h g = record {
    permitted = g.permitted;
    window_fits = h;
    packet_some = g.packet_some;
    receive_kept = g.receive_kept;
  }
