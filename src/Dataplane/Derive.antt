-- ===== src/Dataplane/Derive.antt =====
-- The loop of `deriveOne`.
use warptweet.Prelude.{
  ℕ, zero, suc, ◌+◌, ◌≤◌, ◌≡◌, ◌∷◌, ◌++◌, Bytes, length, length-append, length-take, arith,
}
use warptweet.Dataplane.Kex.{derive_more, derive_one}

-- A hash of at least one byte brings the loop to its end in as many turns as bytes are missing.
derive_more-length :
    (sha256 : Bytes → Bytes)
    → ((b : Bytes) → 1 ≤ length (sha256 b))
    → (fuel : ℕ) (prefix : Bytes) (need : ℕ) (digest : Bytes) → need ≤ length digest + fuel
    → need ≤ length (derive_more sha256 fuel prefix need digest)
unfolding derive_more
derive_more-length sha256 some_byte zero prefix need digest h = omega arith
derive_more-length sha256 some_byte (suc fuel) prefix need digest h =
    let more = some_byte (prefix ++ digest) in
    let grown = length-append digest (sha256 (prefix ++ digest)) in
    let ih =
      derive_more-length sha256 some_byte fuel prefix need (digest ++ sha256 (prefix ++ digest))
        (omega arith) in
    ground arith

-- A key that `deriveOne` returns has the length asked for: its loop ends, for any hash that is
-- not empty.
pub length-derive_one :
    (sha256 : Bytes → Bytes) (secret hash session_id : Bytes) (id need : ℕ)
    → ((b : Bytes) → 1 ≤ length (sha256 b))
    → length (derive_one sha256 secret hash session_id id need) ≡ need
unfolding derive_one
length-derive_one sha256 secret hash session_id id need some_byte =
    let digest = sha256 (secret ++ hash ++ id ∷ session_id) in
    let enough =
      derive_more-length sha256 some_byte need (secret ++ hash) need digest (omega arith) in
    let taken = length-take need (derive_more sha256 need (secret ++ hash) need digest) in
    omega arith
