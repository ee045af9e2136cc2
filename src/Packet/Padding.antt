-- ===== src/Packet/Padding.antt =====
-- `padPayload` and `unpadPayload`.
use warptweet.Prelude.{
  ℕ, ◌+◌, ◌%◌, ◌≤◌, ◌≡◌, ◌≢◌, refl, [], ◌∷◌, ◌++◌, some, Bytes, length, ok, arith, length-append,
  take-append, >>=-eq-ok,
}
use warptweet.Packet.{Noise, fill, padding_for, pad_payload, unpad_payload}

-- The documented behaviour of `rand.Read`: it fills the buffer or fails.
abbrev pub FillsBuffer : Noise → Type 0
FillsBuffer noise = (n : ℕ) (bytes : Bytes) → noise n ≡ some bytes → length bytes ≡ n

pub padding_for_bounds :
    (before : ℕ)
    → (4 ≤ padding_for before 8)
      × (padding_for before 8 ≤ 11)
      × ((before + padding_for before 8) % 8 ≡ 0)
unfolding padding_for
padding_for_bounds before = ground arith

pub length-fill :
    (noise : Noise) (n : ℕ) {bytes : Bytes}
    → FillsBuffer noise
    → fill noise n ≡ ok bytes
    → length bytes ≡ n
length-fill noise n {bytes} fills e = ground (arith, fills n bytes)

-- A padded payload: the count of padding bytes, the payload, and as much padding, in whole blocks.
pub record IsPadded (payload body : Bytes) : Type 0 where
  pub padding : Bytes
  pub shape : body ≡ length padding ∷ (payload ++ padding)
  pub at_least : 4 ≤ length padding
  pub at_most : length padding ≤ 11
  pub whole_blocks : length body % 8 ≡ 0

-- `padPayload` puts the count of the padding first and the padding last: 4 to 11 bytes of it, which
-- complete the last block of 8.
pub pad_payload-IsPadded :
    (noise : Noise) (payload : Bytes) {body : Bytes}
    → FillsBuffer noise
    → pad_payload noise payload 8 ≡ ok body
    → IsPadded payload body
unfolding pad_payload
pad_payload-IsPadded noise payload {body} fills e =
    let p = padding_for (1 + length payload) 8 in
    let (bytes, filled, made) = >>=-eq-ok (fill noise p) _ e in
    let long : length bytes ≡ p = length-fill noise p fills filled in
    let (lo, hi, whole) = padding_for_bounds (1 + length payload) in
    let shape : body ≡ length bytes ∷ (payload ++ bytes) = ground (arith, long, lo, hi, made) in
    record {
      padding = bytes;
      shape = shape;
      at_least = omega (arith, long, lo);
      at_most = omega (arith, long, hi);
      whole_blocks = rw shape (omega (arith, long, whole, length-append payload bytes));
    }

-- Taking the padding off gives back the payload, unless that was empty.
pub unpad_payload-IsPadded :
    (payload : Bytes) {body : Bytes}
    → payload ≢ []
    → IsPadded payload body
    → unpad_payload body ≡ ok payload
unfolding unpad_payload
unpad_payload-IsPadded [] ne p = absurd (ne refl)
unpad_payload-IsPadded (x ∷ xs) ne p =
    rw (p.shape)
      (ground (arith, length-append xs p.padding, take-append (length xs + 1) (x ∷ xs) p.padding))
