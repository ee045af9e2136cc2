-- ===== src/Lib.antt =====
-- WarpTweet: a tunnel that forwards TCP over SSH, with grants that expire.
--
-- The host runs an SSH data plane of its own, which serves each client one connection with
-- direct-tcpip channels to one target. A client's key is authorized by a grant, which has a status,
-- a duration and an expiry, and is ended by five operations on the host. The client supervises one
-- tunnel process and restarts it. These files model the parts in which the program decides.
--
-- Prelude: helpers that the files share. `Bytes` is a list of numbers, `length`, `take` and `drop`
--   are over the native ℕ, and a fallible function returns a `Result`.
-- Wire: internal/sshwire/public_key.go and internal/dataplane/wire.go, AppendString (append_string),
--   ConsumeString (consume_string), sshString, consumeSSHString, consumeUint32, consumeBool.
-- Packet: internal/dataplane/packet.go and writePacket of listen.go. `open` is `unseal`. A reader is
--   the list of the bytes to come; the stream cipher, the tag and the random bytes are parameters.
-- Dataplane: the connection of internal/dataplane. Dataplane/Connection has the state and write,
--   startRekey and disconnect; Kex has handleKexInit, handleKEX and handleNewKeys; Auth has
--   handleService, handleUserauth and handleGlobal; Channels has forward.go; Serve has serve and
--   dispatchSecure, and the relation `Serving` of the connections that a served one runs through;
--   Limiter has sourceLimiter of listen.go.
--   A handler returns the connection that it leaves, with its error if it has one. What a handler
--   calls outside is a field of `Answers`, one value for each step. A handler is one step: the mutex
--   is held in shorter pieces in the source, between which the goroutines of the backends may run.
--   An `io.Writer` that reports no error has taken all the bytes.
-- Grant: internal/grant. Grant/Status has state.go, Duration has duration.go with Time for the
--   timestamps, Policy has policy.go, Clock has ObserveClock of clock.go, Expire has expire.go. The
--   state of the host that ExecuteExpire's operations change is a parameter, with those operations.
--   A `time.Duration` is an integer of nanoseconds with its 64 bits written out.
-- Session: internal/grantsession. Session/Match has matchingGrant of authority.go; a client's record
--   comes with the digest of its key; Session/Fields has splitAuthorizedKeyFieldsStrict.
-- Enrollment: internal/enrollment/clients.go. Enrollment/Client has the record of a client, Texts
--   the checks of texts, Store the directory of records as a map from a client's id, Revoke, Rotate,
--   Expire and Reconcile the operations. An operation is an action on a `World`: the files, the rest
--   of the host, and the list of what the operations did, which is only for the theorems. What
--   RemoveAuthorization, the session hooks, the lock and the write of a file do is a parameter, any
--   of them may fail, and a write may fail after it replaced the file. Lawful says which order of
--   events is right, and its children follow each operation. An operation holds its client's lock
--   from its first read to its end, so operations on a client run one after the other.
-- Invitation: internal/enrollment/invite.go, accept.go and client.go. Invitation/Invite has the
--   invitation with its checks, Create has Create, Store the directory of records, Use has Consume,
--   Cancel, Revoke, List and UnusedIssuedForGeneration, Request the request and the proof, Resume and
--   Accept have Accept with its retries. An operation is an action on a `Registry`: the records of the invitations,
--   the world of Enrollment, and the keys that were installed. A write may fail before or after
--   it replaced the file, and an installer may fail. Accept and Cancel hold the lock of their
--   invitation, so they run one after the other; Revoke and UnusedIssuedForGeneration take no lock,
--   and Runs lets anything happen between their reading and their writing.
-- Locator: internal/locator. Locator/Host has dialhost.go, Endpoint has endpoint.go, and of
--   resolve.go Locator/Address has `netip.Addr` and validateAnswer, Answers has FilterAnswers and
--   InterleaveFamilies, Dial has Select.
-- Routes: internal/routestate. Routes/Store has the directories of the routes with the files that
--   count here, PortOwner and ValidateRouteID, Reserve has Reserve, ReservePort, Remove,
--   WriteTransaction and ReserveAndWriteTransaction. How a call of the operating system ends is an
--   argument, for a removal also what it leaves. The order of the directories is not modelled.
-- StrictJson: internal/strictjson/duplicates.go. The input is the list of the decoder's tokens, with
--   one for text that is not JSON; StrictJson/Trees has JSON values and their tokens.
-- Supervisor: internal/supervisor/supervisor.go. Supervisor/Policy has the policy and nextBackoff,
--   Restart has RunPrepared, Attempt has runReadyAttempt and terminateAndReap, Ready has
--   RunPreparedReady. A loop runs along the list of its turns, each of which says what the process,
--   the clock and the context do; an attempt's effects are a list in their order. An error is the
--   list of the errors in its tree.
--
-- Fuel: derive_more, the loop of deriveOne, has as many turns as bytes are needed, which is enough
-- since each turn appends at least one byte. The walk of StrictJson has as much fuel as tokens. The
-- loops of the supervisor end with their list.
--
-- Not modelled: files, sockets, processes and clocks themselves; the identification line and the
-- text of authorized_keys; ML-DSA, composite signatures and the hybrid key exchange, which are
-- answers; deadlines; logs; an expiry that is given no BurnManagementToken. Texts of errors are
-- modelled where they are sent to the peer.
pub mod Prelude
pub mod Wire
pub mod Packet
pub mod Dataplane
pub mod Grant
pub mod Session
pub mod Enrollment
pub mod Invitation
pub mod Locator
pub mod Routes
pub mod StrictJson
pub mod Supervisor
