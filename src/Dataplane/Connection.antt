-- ===== src/Dataplane/Connection.antt =====
-- The state of one connection, and what it writes: `connection`, `write`, `startRekey` and
-- `disconnect` of internal/dataplane/conn.go, and `sshChannel`.
-- A handler returns the connection it leaves, with its error if it has one. What it calls outside
-- the data plane answers by `Answers`, a value of its own in each step.
use warptweet.Prelude.{
  ℕ, ◌+◌, ◌-◌, ◌%◌, ◌^◌, Bool, true, false, not, ◌&&◌, List, [], ◌∷◌, ◌++◌, Option, none, some,
  Bytes, length, ltb, leb, ◌==◌, if◌then◌else◌, Result, ok, err,
}
use warptweet.Wire.{be32, Truncated}
use warptweet.Dataplane.Policy.{AddrPort, OfferError, kex_init}

-- `kexPhase`
pub data Phase : Type 0 where
  await_init await_ecdh await_new_keys ready : Phase

abbrev pub is_ready : Phase → Bool
is_ready ready = true
is_ready _ = false

-- `sshChannel`, whose backend is the address it was dialled at. `closed` is set only as the channel
-- leaves the connection.
pub record Channel : Type 0 where
  pub local_id : ℕ
  pub remote_id : ℕ
  pub window : ℕ
  pub max_packet : ℕ
  pub receive_window : ℕ
  pub max_receive : ℕ
  pub consumed : ℕ
  pub backend : AddrPort

pub record Connection : Type 0 where
  pub clear_in : Bool
  pub clear_out : Bool
  -- the keys of `in`, `out` and `pendingIn`
  pub key_in : Option Bytes
  pub key_out : Option Bytes
  pub pending_in : Option Bytes
  pub phase : Phase
  pub in_seq : ℕ
  pub out_seq : ℕ
  pub bytes_out : ℕ
  pub rekey_after : ℕ
  pub client_id : Bytes
  pub server_id : Bytes
  pub client_kex : Option Bytes
  pub server_kex : Bytes
  pub session_id : Bytes
  pub strict_kex : Bool
  pub initial_kex : Bool
  pub authed : Bool
  pub channels : List Channel
  pub next_local : ℕ
  pub max_channels : ℕ
  -- the blob whose digest is `keyDigest`, and `connectionID`
  pub key_blob : Bytes
  pub connection_id : Bytes
  -- the payloads written, the latest first
  pub sent : List Bytes

pub data ConnError : Type 0 where
  truncated_payload : Truncated → ConnError
  disconnected : Bytes → ConnError
  offer_refused : OfferError → ConnError
  new_keys_early ecdh_early ecdh_trailing : ConnError
  sequence_exhausted transport_failed kexinit_failed : ConnError
  encapsulate_failed host_key_failed sign_failed short_key no_connection_id : ConnError

pub data Reply : Type 0 where
  continue : Connection → Reply
  failed : ConnError → Connection → Reply

-- Go on from what a call leaves, unless it fails.
abbrev pub and_then : Reply → (Connection → Reply) → Reply
and_then (continue c) next = next c
and_then (failed e c) next = failed e c

-- `if err != nil { return err }`
abbrev pub read_then : {A : Type 0} → Connection → Result Truncated A → (A → Reply) → Reply
read_then c (ok a) next = next a
read_then c (err e) next = failed (truncated_payload e) c

abbrev pub or_fail : {A : Type 0} → Connection → ConnError → Option A → (A → Reply) → Reply
or_fail c e (some a) next = next a
or_fail c e none next = failed e c

-- The same with an answer of the handler's own in place of the error.
abbrev pub parsed_then : {A : Type 0} → Result Truncated A → Reply → (A → Reply) → Reply
parsed_then (ok a) other next = next a
parsed_then (err e) other next = other

abbrev pub found_then : {A : Type 0} → Option A → Reply → (A → Reply) → Reply
found_then (some a) other next = next a
found_then none other next = other

pub record Answers : Type 0 where
  -- the length of the packet that carries a payload, if the transport takes it
  pub deliver : Bytes → Option ℕ
  -- `marshalKexInit`, which draws a cookie
  pub server_kexinit : Option Bytes
  -- `serverHybridEncapsulate`: the server's public value and the shared secret
  pub encapsulate : Bytes → Option (Bytes × Bytes)
  -- `HostSigner`
  pub host_public : Option Bytes
  pub sign : Bytes → Option Bytes
  -- `sha256.Sum256`
  pub sha256 : Bytes → Bytes
  -- `authorizedRawKeys` of the file
  pub authorized_keys : Option (List Bytes)
  -- `composite.Verify`: the key, the signed bytes, the signature
  pub verify : Bytes → Bytes → Bytes → Bool
  pub new_connection_id : Option Bytes
  -- `c.grant.Register`, where there is a grant
  pub register : Option Bool
  -- `netip.ParseAddr`, with `Unmap`
  pub parse_addr : Bytes → Option Bytes
  -- the dialler's error, if it does not reach the address
  pub dial : AddrPort → Option Bytes
  -- `%q` of a string, and `%s` of an address with its port
  pub quoted : Bytes → Bytes
  pub addr_port_text : AddrPort → Bytes
  -- whether the backend takes these bytes: an `io.Writer` that takes less has an error
  pub backend_write : Bytes → Bool

-- `checkSSHSeq`, with `maxSSHSeq`
unfoldable pub check_ssh_seq : ℕ → Bool
check_ssh_seq seq = leb seq (2 ^ 32 - 1)

-- What `write` does under the lock.
abbrev pub written : Connection → Bytes → ℕ → Connection
written c payload n = record c {
  out_seq = c.out_seq + 1;
  bytes_out = (c.bytes_out + n) % 2 ^ 64;
  sent = payload ∷ c.sent;
}

-- A clear packet counts its payload, a sealed one its frame.
abbrev pub counted : Connection → Bytes → ℕ → ℕ
counted c payload frame = if c.clear_out then length payload else frame

unfoldable pub write_frame : Answers → Connection → Bytes → Reply
write_frame a c payload =
    if check_ssh_seq c.out_seq
    then or_fail c transport_failed (a.deliver payload)
        (λ frame. continue (written c payload (counted c payload frame)))
    else failed sequence_exhausted c

abbrev pub is_kex_init : Bytes → Bool
is_kex_init [] = false
is_kex_init (b ∷ _) = b == kex_init

-- `needRekey`
unfoldable pub needs_rekey : Bytes → Connection → Bool
needs_rekey payload c =
    c.authed
    && is_ready c.phase
    && ltb 0 c.rekey_after
    && leb c.rekey_after c.bytes_out
    && not (is_kex_init payload)

-- `startRekey`. Its own `write` needs no rekey, since the phase is not `kexReady` any more.
unfoldable pub start_rekey : Answers → Connection → Reply
start_rekey a c = or_fail c kexinit_failed a.server_kexinit (λ kex.
    if is_ready c.phase
    then write_frame a (record c { server_kex = kex; client_kex = none; phase = await_init }) kex
    else continue c)

-- `write`
unfoldable pub write : Answers → Connection → Bytes → Reply
write a c payload =
    and_then (write_frame a c payload)
      (λ c'. if needs_rekey payload c' then start_rekey a c' else continue c')

-- `marshalDisconnect`
unfoldable pub marshal_disconnect : Bytes → Bytes
marshal_disconnect description =
    1 ∷ be32 2 ++ be32 (length description % 2 ^ 32) ++ description ++ be32 0

-- the connection that a reply leaves
abbrev pub left_by : Reply → Connection
left_by (continue c) = c
left_by (failed e c) = c

-- `disconnect`: the outcome of the write is dropped.
unfoldable pub disconnect : Answers → Connection → Bytes → Reply
disconnect a c reason =
    failed (disconnected reason) (left_by (write a c (marshal_disconnect reason)))
