-- ===== src/Dataplane/Windows.antt =====
-- The chunks of `sendChannelData`.
use warptweet.Prelude.{ℕ, ◌^◌, ◌<◌, ◌≤◌, ◌≡◌, arith}
use warptweet.Dataplane.Connection.{Channel}
use warptweet.Dataplane.Channels.{chunk_size}

-- The chunk of a turn with data to send is not empty, is no larger than the data, the peer's
-- window and its packet size, and fills one of these.
pub record Fitting (ch : Channel) (size chunk : ℕ) : Type 0 where
  pub some_sent : 1 ≤ chunk
  pub within_size : chunk ≤ size
  pub within_window : chunk ≤ ch.window
  pub within_packet : chunk ≤ ch.max_packet
  pub maximal : (chunk < size) → (chunk < ch.window) → chunk ≡ ch.max_packet

-- The chunk that is cut of fewer than 2 ^ 32 bytes, for a channel with a window and a packet
-- size, is the largest that the data, the window and the packet size allow, and is not empty.
pub chunk_size-Fitting :
    (ch : Channel) (size : ℕ)
    → 1 ≤ size
    → size < 2 ^ 32
    → 1 ≤ ch.window
    → 1 ≤ ch.max_packet
    → Fitting ch size (chunk_size ch size)
unfolding chunk_size
chunk_size-Fitting ch size some_data small some_window some_packet = record {
  some_sent = ground arith;
  within_size = ground arith;
  within_window = ground arith;
  within_packet = ground arith;
  maximal = λ h g. ground arith;
}
