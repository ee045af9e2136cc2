-- ===== src/Dataplane/Good.antt =====
-- The invariant of a connection, and `write`, `startRekey` and `disconnect` under it.
pub mod Kex
pub mod Auth
pub mod Table
pub mod Open
pub mod Flow
pub mod Serving
use warptweet.Prelude.{
  ℕ, ◌+◌, ◌-◌, ◌*◌, ◌^◌, ◌<◌, ◌≤◌, ◌≡◌, ◌⊎◌, inl, inr, refl, Bool, true, false, List, [], ◌∷◌,
  Option, none, some, Bytes, length, leb, leb→le, if◌then◌else◌, All, Result, ok, err, arith,
}
use warptweet.Wire.{Truncated}
use warptweet.Dataplane.Policy.{Policy, allow_direct_tcpip}
use warptweet.Dataplane.Replies.{Left, if-Left, and_then-Left, or_fail-Left, left_by-Left}
use warptweet.Dataplane.Connection.{
  Phase, is_ready, Channel, Connection, ConnError, Reply, continue, failed, Answers, written,
  check_ssh_seq, write_frame, needs_rekey, start_rekey, write, and_then, read_then, parsed_then,
  found_then, or_fail, left_by, disconnect, marshal_disconnect,
}

-- A channel leads to a permitted destination, its window has 32 bits, and what the peer may send
-- together with what waits to be granted again is within the window of its start.
pub record ChannelGood (policy : Policy) (ch : Channel) : Type 0 where
  pub permitted : allow_direct_tcpip policy ch.backend ≡ true
  pub window_fits : ch.window < 2 ^ 32
  pub packet_some : 1 ≤ ch.max_packet
  pub receive_kept : ch.receive_window + ch.consumed ≤ 2 * 2 ^ 20

pub record ChannelsGood (policy : Policy) (max : ℕ) (authed : Bool) (chs : List Channel)
    : Type 0 where
  pub within_quota : length chs ≤ max
  pub each_good : All (ChannelGood policy) chs
  pub only_authed : (chs ≡ []) ⊎ (authed ≡ true)

-- Nobody is authenticated in the clear, and a key waits or is in use only if the other
-- direction is sealed already.
pub record SealedGood (authed clear_in clear_out : Bool) (pending : Option Bytes) : Type 0 where
  pub authed_sealed : (authed ≡ false) ⊎ (clear_in ≡ false)
  pub in_sealed : (clear_in ≡ true) ⊎ (clear_out ≡ false)
  pub pending_sealed : (pending ≡ none) ⊎ (clear_out ≡ false)

pub record CountsGood (in_seq out_seq : ℕ) : Type 0 where
  pub in_counted : in_seq ≤ 2 ^ 32
  pub out_counted : out_seq ≤ 2 ^ 32

pub record PartsGood (policy : Policy) (max : ℕ) (authed clear_in clear_out : Bool)
    (pending : Option Bytes) (in_seq out_seq : ℕ) (chs : List Channel) : Type 0 where
  pub channels_good : ChannelsGood policy max authed chs
  pub sealed_good : SealedGood authed clear_in clear_out pending
  pub counts_good : CountsGood in_seq out_seq

abbrev pub Good : Policy → Connection → Type 0
Good policy c =
    PartsGood policy c.max_channels c.authed c.clear_in c.clear_out c.pending_in c.in_seq c.out_seq
      c.channels

-- The connection that a reply leaves is good.
abbrev pub Holds : Policy → Reply → Type 0
Holds policy = Left (Good policy)

write_frame-Holds :
    (policy : Policy) (a : Answers) (c : Connection) (payload : Bytes)
    → Good policy c
    → Holds policy (write_frame a c payload)
unfolding write_frame check_ssh_seq
write_frame-Holds policy a c payload g =
    if-Left (Good policy) (leb c.out_seq (2 ^ 32 - 1)) _ _
      (λ h. or_fail-Left (Good policy) c _ (a.deliver payload) _ g (λ frame. record {
        channels_good = g.channels_good;
        sealed_good = g.sealed_good;
        counts_good = record {
          in_counted = g.counts_good.in_counted;
          out_counted = counted (leb→le c.out_seq (2 ^ 32 - 1) h);
        };
      }))
      (λ h. g)
  where
    counted : c.out_seq ≤ 2 ^ 32 - 1 → c.out_seq + 1 ≤ 2 ^ 32
    counted h = omega arith

start_rekey-Holds :
    (policy : Policy) (a : Answers) (c : Connection)
    → Good policy c
    → Holds policy (start_rekey a c)
unfolding start_rekey
start_rekey-Holds policy a c g = or_fail-Left (Good policy) c _ a.server_kexinit _ g (λ kex.
    if-Left (Good policy) (is_ready c.phase) _ _ (λ _. write_frame-Holds policy a _ kex g) (λ _. g))

pub write-Holds :
    (policy : Policy) (a : Answers) (c : Connection) (payload : Bytes)
    → Good policy c
    → Holds policy (write a c payload)
unfolding write
write-Holds policy a c payload g =
    and_then-Left (Good policy) (write_frame a c payload) _ (write_frame-Holds policy a c payload g)
      (λ c' g'.
        if-Left (Good policy) (needs_rekey payload c') _ _ (λ _. start_rekey-Holds policy a c' g')
          (λ _. g'))

pub disconnect-Holds :
    (policy : Policy) (a : Answers) (c : Connection) (reason : Bytes)
    → Good policy c
    → Holds policy (disconnect a c reason)
unfolding disconnect
disconnect-Holds policy a c reason g =
    left_by-Left (Good policy) (write a c (marshal_disconnect reason))
      (write-Holds policy a c (marshal_disconnect reason) g)
