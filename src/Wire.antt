-- ===== src/Wire.antt =====
-- SSH wire encodings: internal/sshwire/public_key.go and internal/dataplane/wire.go.
-- A byte slice is the list of its bytes; slices are values here, since no caller writes through
-- one that it has handed on.
pub mod RoundTrip
pub mod Bounds
mod Tests
use warptweet.Prelude.{
  ℕ, ◌+◌, ◌-◌, ◌*◌, ◌/◌, ◌%◌, ◌^◌, Bool, not, List, [], ◌∷◌, ◌++◌, Bytes, length, take, drop, ltb,
  ◌==◌, if◌then◌else◌, Result, ok, err,
}

pub data WireError : Type 0 where
  truncated_length truncated_value : WireError

-- `binary.BigEndian.AppendUint32(dst, uint32(n))`, less `dst`
unfoldable pub be32 : ℕ → Bytes
be32 n = (n / 2 ^ 24 % 256) ∷ (n / 2 ^ 16 % 256) ∷ (n / 2 ^ 8 % 256) ∷ (n % 256) ∷ []

-- `binary.BigEndian.Uint32`, which reads the first four bytes
unfoldable pub be32_value : Bytes → ℕ
be32_value (a ∷ b ∷ c ∷ d ∷ _) = a * 2 ^ 24 + b * 2 ^ 16 + c * 2 ^ 8 + d
be32_value _ = 0

-- `AppendString`
unfoldable pub append_string : Bytes → Bytes → Bytes
append_string dst value = (dst ++ be32 (length value % 2 ^ 32)) ++ value

-- `ConsumeString`: the remainder, then the value. `int(length)` is exact on a 64-bit machine.
unfoldable pub consume_string : Bytes → Result WireError (Bytes × Bytes)
consume_string input =
    if ltb (length input) 4
    then err truncated_length
    else let size = be32_value (take 4 input) in
      if ltb (length input - 4) size
      then err truncated_value
      else ok (drop (4 + size) input, drop 4 (take (4 + size) input))

-- `sshString` of dataplane/wire.go
unfoldable pub ssh_string : Bytes → Bytes
ssh_string value = append_string [] value

-- `errTruncated`
pub data Truncated : Type 0 where
  truncated : Truncated

-- `consumeSSHString`: the value, then the remainder
unfoldable pub consume_ssh_string : Bytes → Result Truncated (Bytes × Bytes)
consume_ssh_string input = elim (consume_string input) [
  | ok (rest, value) ↦ ok (value, rest)
  | err e ↦ err truncated
]

-- `consumeUint32`
unfoldable pub consume_uint32 : Bytes → Result Truncated (ℕ × Bytes)
consume_uint32 input =
    if ltb (length input) 4 then err truncated else ok (be32_value (take 4 input), drop 4 input)

-- `consumeBool`
unfoldable pub consume_bool : Bytes → Result Truncated (Bool × Bytes)
consume_bool [] = err truncated
consume_bool (b ∷ rest) = ok (not (b == 0), rest)

-- `hostKeyBlob` and `signatureBlob`: `composite.Algorithm`, then the raw bytes.
unfoldable pub tagged_blob : Bytes → Bytes → Bytes
tagged_blob algorithm raw = ssh_string algorithm ++ ssh_string raw
