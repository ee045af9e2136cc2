-- ===== src/Packet/Tests.antt =====
-- Runs over a cipher that changes nothing and a tag of zeros, and the theorems at these inputs.
use warptweet.Prelude.{
  ℕ, zero, suc, ◌≡◌, refl, ap, ◌&&◌, [], ◌∷◌, ◌++◌, none, some, Bytes, length, ◌==◌, if◌then◌else◌,
  equal, ok, err, arith,
}
use warptweet.Packet.{
  Noise, read_full, padding_for, pad_payload, unpad_payload, Crypto, IsCrypto, ChachaDirection,
  seq_nonce, zero_key, poly1305_tag, seal, unseal, tag_mismatch,
}
use warptweet.Packet.Padding.{FillsBuffer}
use warptweet.Packet.Sealed.{unseal-seal, IsAuthentic, unseal-IsAuthentic}
use warptweet.Wire.{be32, be32_value}

abbrev zeros : ℕ → Bytes
zeros zero = []
zeros (suc n) = 0 ∷ zeros n

length-zeros : (n : ℕ) → length (zeros n) ≡ n
length-zeros zero = refl
length-zeros (suc n) = ap suc (length-zeros n)

abbrev quiet : Noise
quiet n = some (zeros n)

quiet-FillsBuffer : FillsBuffer quiet
quiet-FillsBuffer n bytes e = ground (arith, length-zeros n)

abbrev plain : Crypto
plain = record {
  xor_key_stream = λ key nonce counter message.
      if length key == 32 && length nonce == 12 then some message else none;
  poly1305_sum = λ key message. zeros 16;
}

plain-IsCrypto : IsCrypto plain
plain-IsCrypto = record {
  accepts = λ key nonce counter message k n. (message, ground arith);
  keeps_length = λ key nonce counter message out e. ground arith;
  undoes = λ key nonce counter message out e. ground arith;
  tag_length = λ key message. refl;
}

abbrev keys : ChachaDirection
keys = record { payload_key = zero_key; length_key = zero_key }

abbrev hello : Bytes
hello = b'h' ∷ b'i' ∷ []

abbrev hello_frame : Bytes
hello_frame = 0 ∷ 0 ∷ 0 ∷ 8 ∷ 5 ∷ b'h' ∷ b'i' ∷ (zeros 5 ++ zeros 16)

sealed_greeting : seal plain quiet keys 3 hello ≡ ok hello_frame
unfolding seal pad_payload padding_for poly1305_tag seq_nonce be32
sealed_greeting = refl

unsealed_greeting : unseal plain keys 3 (hello_frame ++ 9 ∷ []) ≡ ok (hello, 9 ∷ [])
unfolding unseal unpad_payload poly1305_tag seq_nonce be32 be32_value read_full equal
unsealed_greeting = refl

unseal_forged :
    unseal plain keys 3 (0 ∷ 0 ∷ 0 ∷ 8 ∷ 5 ∷ b'h' ∷ b'i' ∷ (zeros 5 ++ 1 ∷ zeros 15))
    ≡ err tag_mismatch
unfolding unseal unpad_payload poly1305_tag seq_nonce be32 be32_value read_full equal
unseal_forged = refl

unseal-seal_example : unseal plain keys 3 (hello_frame ++ 9 ∷ []) ≡ ok (hello, 9 ∷ [])
unseal-seal_example =
    unseal-seal plain plain-IsCrypto quiet keys 3 hello (9 ∷ []) quiet-FillsBuffer (omega arith)
      sealed_greeting

unseal-IsAuthentic_example : IsAuthentic plain keys 3 (hello_frame ++ 9 ∷ []) hello (9 ∷ [])
unseal-IsAuthentic_example =
    unseal-IsAuthentic plain keys 3 (hello_frame ++ 9 ∷ []) hello (9 ∷ []) unsealed_greeting

pad_hello : pad_payload quiet hello 8 ≡ ok (5 ∷ b'h' ∷ b'i' ∷ zeros 5)
unfolding pad_payload padding_for
pad_hello = refl
