-- ===== src/Packet.antt =====
-- Binary packets of the data plane: internal/dataplane/packet.go and `writePacket` of listen.go.
-- A reader is the list of the bytes still to come, and a read returns what it leaves. The stream
-- cipher and the tag are golang.org/x/crypto's, and the padding comes from crypto/rand: they are
-- parameters.
pub mod Padding
pub mod Clear
pub mod Sealed
mod Tests
use warptweet.Prelude.{
  ℕ, ◌+◌, ◌-◌, ◌*◌, ◌/◌, ◌%◌, ◌^◌, ◌<◌, ◌≤◌, ◌≡◌, Bool, true, false, not, ◌||◌, List, [], ◌∷◌, ◌++◌,
  Option, none, some, Bytes, length, take, drop, get_or, ltb, leb, if◌then◌else◌, equal, Result, ok,
  err, ◌>>=◌, ◌>>◌, reject,
}
use warptweet.Wire.{be32, be32_value}

pub data PacketError : Type 0 where
  empty_payload short_key cipher_refused no_random end_of_stream tag_mismatch : PacketError
  short_body invalid_padding : PacketError
  invalid_length : ℕ → PacketError

abbrev pub max_packet : ℕ
max_packet = 256 * 1024

abbrev pub chacha_key_size : ℕ
chacha_key_size = 32

abbrev pub chacha_key_total : ℕ
chacha_key_total = 64

abbrev pub poly1305_tag_size : ℕ
poly1305_tag_size = 16

abbrev pub chacha_block : ℕ
chacha_block = 8

-- `rand.Read` into a buffer of this many bytes.
abbrev pub Noise : Type 0
Noise = ℕ → Option Bytes

abbrev pub fill : Noise → ℕ → Result PacketError Bytes
fill noise n = elim (noise n) [ none ↦ err no_random | some bytes ↦ ok bytes ]

-- `io.ReadFull` of this many bytes: those, and what is left.
unfoldable pub read_full : ℕ → Bytes → Result PacketError (Bytes × Bytes)
read_full n stream =
    if ltb (length stream) n then err end_of_stream else ok (take n stream, drop n stream)

-- `padding` in `padPayload` and in `writePacket`, whose packets count `before` bytes before it
unfoldable pub padding_for : ℕ → ℕ → ℕ
padding_for before block =
    let padding = block - before % block in if ltb padding 4 then padding + block else padding

unfoldable pub pad_payload : Noise → Bytes → ℕ → Result PacketError Bytes
pad_payload noise payload block = do
  let padding = padding_for (1 + length payload) block
  bytes ← fill noise padding
  ok ((padding % 256) ∷ (payload ++ bytes))

unfoldable pub unpad_payload : Bytes → Result PacketError Bytes
unpad_payload [] = err short_body
unpad_payload (pad ∷ rest) =
    if ltb (1 + length rest) 5
    then err short_body
    else if ltb pad 4 || leb (1 + length rest) (1 + pad)
    then err invalid_padding
    else ok (take (length rest - pad) rest)

-- `writePacket`: the frame that it hands to the connection
unfoldable pub write_packet : Noise → Bytes → Result PacketError Bytes
write_packet noise payload = do
  let padding = padding_for (1 + length payload + 4) 8
  let packet_len = 1 + length payload + padding
  bytes ← fill noise padding
  ok (be32 (packet_len % 2 ^ 32) ++ ((padding % 256) ∷ (payload ++ bytes)))

-- the checks of `readClearPacket` on the packet behind its header
unfoldable pub clear_body : ℕ → Bytes → Result PacketError Bytes
clear_body pad rest =
    if ltb pad 4 || ltb (length rest) pad
    then err invalid_padding
    else ok (take (length rest - pad) rest)

unfoldable pub read_clear_packet : Bytes → Result PacketError (Bytes × Bytes)
read_clear_packet stream = do
  (header, behind) ← read_full 5 stream
  let n = be32_value (take 4 header)
  reject (ltb n 12 || ltb max_packet n) (invalid_length n)
  (rest, left) ← read_full (n - 1) behind
  payload ← clear_body (get_or header 4 0) rest
  ok (payload, left)

-- What golang.org/x/crypto supplies: `NewUnauthenticatedCipher(key, nonce)`, `SetCounter` and
-- `XORKeyStream`, at once, and `poly1305.Sum`.
pub record Crypto : Type 0 where
  pub xor_key_stream : Bytes → Bytes → ℕ → Bytes → Option Bytes
  pub poly1305_sum : Bytes → Bytes → Bytes

-- What its documentation says: keys of 32 and nonces of 12 bytes are accepted, the output is as
-- long as the input, the same stream undoes it, and a tag is 16 bytes long.
pub record IsCrypto (c : Crypto) : Type 0 where
  pub accepts :
      (key nonce : Bytes) (counter : ℕ) (message : Bytes)
      → length key ≡ 32
      → length nonce ≡ 12
      → (out : Bytes) × (c.xor_key_stream key nonce counter message ≡ some out)
  pub keeps_length :
      (key nonce : Bytes) (counter : ℕ) (message out : Bytes)
      → c.xor_key_stream key nonce counter message ≡ some out
      → length out ≡ length message
  pub undoes :
      (key nonce : Bytes) (counter : ℕ) (message out : Bytes)
      → c.xor_key_stream key nonce counter message ≡ some out
      → c.xor_key_stream key nonce counter out ≡ some message
  pub tag_length : (key message : Bytes) → length (c.poly1305_sum key message) ≡ 16

pub record ChachaDirection : Type 0 where
  pub payload_key : Bytes
  pub length_key : Bytes

unfoldable pub new_chacha_direction : Bytes → Result PacketError ChachaDirection
new_chacha_direction key =
    if ltb (length key) chacha_key_total
    then err short_key
    else ok (record {
      payload_key = take chacha_key_size key;
      length_key = drop chacha_key_size (take chacha_key_total key);
    })

-- `binary.BigEndian.PutUint64(n[4:], seq)`
unfoldable pub seq_nonce : ℕ → Bytes
seq_nonce seq = 0 ∷ 0 ∷ 0 ∷ 0 ∷ (be32 (seq / 2 ^ 32 % 2 ^ 32) ++ be32 (seq % 2 ^ 32))

-- `var polyKey [32]byte`
abbrev pub zero_key : Bytes
zero_key =
    0 ∷ 0 ∷ 0 ∷ 0 ∷ 0 ∷ 0 ∷ 0 ∷ 0 ∷ 0 ∷ 0 ∷ 0 ∷ 0 ∷ 0 ∷ 0 ∷ 0 ∷ 0 ∷ 0 ∷ 0 ∷ 0 ∷ 0 ∷ 0 ∷ 0 ∷ 0 ∷ 0
    ∷ 0 ∷ 0 ∷ 0 ∷ 0 ∷ 0 ∷ 0 ∷ 0 ∷ 0 ∷ []

module _ (c : Crypto) where
  abbrev pub stream : Bytes → Bytes → ℕ → Bytes → Result PacketError Bytes
  stream key nonce counter message = elim (c.xor_key_stream key nonce counter message) [
    | none ↦ err cipher_refused
    | some out ↦ ok out
  ]

  unfoldable pub poly1305_tag : Bytes → Bytes → Bytes → Bytes → Result PacketError Bytes
  poly1305_tag payload_key nonce enc_len enc_body = do
    poly_key ← stream payload_key nonce 0 zero_key
    ok (c.poly1305_sum poly_key (enc_len ++ enc_body))

  unfoldable pub seal : Noise → ChachaDirection → ℕ → Bytes → Result PacketError Bytes
  seal noise d seq [] = err empty_payload
  seal noise d seq (b ∷ bs) = do
    body ← pad_payload noise (b ∷ bs) chacha_block
    let nonce = seq_nonce seq
    enc_len ← stream d.length_key nonce 0 (be32 (length body % 2 ^ 32))
    enc_body ← stream d.payload_key nonce 1 body
    tag ← poly1305_tag d.payload_key nonce enc_len enc_body
    ok ((enc_len ++ enc_body) ++ tag)

  -- `open`
  unfoldable pub unseal : ChachaDirection → ℕ → Bytes → Result PacketError (Bytes × Bytes)
  unseal d seq input = do
    (enc_len, behind) ← read_full 4 input
    let nonce = seq_nonce seq
    plain_len ← stream d.length_key nonce 0 enc_len
    let n = be32_value plain_len
    reject (ltb n 5 || ltb max_packet n) (invalid_length n)
    (rest, left) ← read_full (n + poly1305_tag_size) behind
    let enc_body = take n rest
    want ← poly1305_tag d.payload_key nonce enc_len enc_body
    reject (not (equal (drop n rest) want)) tag_mismatch
    body ← stream d.payload_key nonce 1 enc_body
    payload ← unpad_payload body
    ok (payload, left)
