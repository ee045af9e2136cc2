-- ===== src/Packet/Sealed.antt =====
-- Packets under the negotiated keys: `seal` and `open` of `chachaDirection`.
use warptweet.Prelude.{
  ℕ, ◌+◌, ◌%◌, ◌^◌, ◌≤◌, ◌≡◌, ◌≢◌, sym, ap, ◌∙◌, false, not, ◌||◌, [], ◌∷◌, ◌++◌, Bytes, length,
  take, drop, ltb, equal, equal_iff, equal_refl, ok, arith, length-append, take-append, drop-append,
  length-take, length-drop, take-append-drop, append_assoc, >>=-eq-ok, reject-eq-ok,
}
use warptweet.Packet.{
  max_packet, Noise, read_full, pad_payload, unpad_payload, Crypto, IsCrypto, ChachaDirection,
  seq_nonce, zero_key, stream, poly1305_tag, seal, unseal,
}
use warptweet.Packet.Padding.{FillsBuffer, IsPadded, pad_payload-IsPadded, unpad_payload-IsPadded}
use warptweet.Packet.Clear.{read_full-append, read_full_split}
use warptweet.Wire.{be32, be32_value}
use warptweet.Wire.RoundTrip.{be32_value-be32, length-be32}
use mathlib.Core.Path.{ap₂}

module _ (c : Crypto) (laws : IsCrypto c) where
  length-stream :
      (key nonce : Bytes) (counter : ℕ) (message : Bytes) {out : Bytes}
      → stream c key nonce counter message ≡ ok out
      → length out ≡ length message
  length-stream key nonce counter message {out} e =
      ground (arith, laws.keeps_length key nonce counter message out)

  stream-stream :
      (key nonce : Bytes) (counter : ℕ) (message : Bytes) {out : Bytes}
      → stream c key nonce counter message ≡ ok out
      → stream c key nonce counter out ≡ ok message
  stream-stream key nonce counter message {out} e =
      ground (arith, laws.undoes key nonce counter message out)

  length-poly1305_tag :
      (key nonce enc_len enc_body : Bytes) {tag : Bytes}
      → poly1305_tag c key nonce enc_len enc_body ≡ ok tag
      → length tag ≡ 16
  unfolding poly1305_tag
  length-poly1305_tag key nonce enc_len enc_body {tag} e =
      let (poly_key, e₁, e₂) = >>=-eq-ok (stream c key nonce 0 zero_key) _ e in
      ground (arith, e₂, laws.tag_length poly_key (enc_len ++ enc_body))

  -- the parts of a sealed packet
  pub record IsSealed (d : ChachaDirection) (seq : ℕ) (payload frame : Bytes) : Type 0 where
    pub body : Bytes
    pub enc_len : Bytes
    pub enc_body : Bytes
    pub tag : Bytes
    pub padded : IsPadded payload body
    pub length_sealed :
        stream c d.length_key (seq_nonce seq) 0 (be32 (length body % 2 ^ 32)) ≡ ok enc_len
    pub body_sealed : stream c d.payload_key (seq_nonce seq) 1 body ≡ ok enc_body
    pub tagged : poly1305_tag c d.payload_key (seq_nonce seq) enc_len enc_body ≡ ok tag
    pub shape : frame ≡ (enc_len ++ enc_body) ++ tag

  seal-IsSealed :
      (noise : Noise) (d : ChachaDirection) (seq : ℕ) (payload : Bytes) {frame : Bytes}
      → FillsBuffer noise
      → seal c noise d seq payload ≡ ok frame
      → (payload ≢ []) × IsSealed d seq payload frame
  unfolding seal
  seal-IsSealed noise d seq [] fills e = cc
  seal-IsSealed noise d seq (b ∷ bs) fills e =
      let (body, e₁, f₁) = >>=-eq-ok (pad_payload noise (b ∷ bs) 8) _ e in
      let (enc_len, e₂, f₂) =
        >>=-eq-ok (stream c d.length_key (seq_nonce seq) 0 (be32 (length body % 2 ^ 32))) _ f₁ in
      let (enc_body, e₃, f₃) = >>=-eq-ok (stream c d.payload_key (seq_nonce seq) 1 body) _ f₂ in
      let (tag, e₄, f₄) =
        >>=-eq-ok (poly1305_tag c d.payload_key (seq_nonce seq) enc_len enc_body) _ f₃ in
      (
        (λ h. cc),
        record {
          body = body;
          enc_len = enc_len;
          enc_body = enc_body;
          tag = tag;
          padded = pad_payload-IsPadded noise (b ∷ bs) fills e₁;
          length_sealed = e₂;
          body_sealed = e₃;
          tagged = e₄;
          shape = cc f₄;
        },
      )

  unseal-IsSealed :
      (d : ChachaDirection) (seq : ℕ) (payload rest : Bytes) {frame : Bytes}
      → payload ≢ []
      → length payload + 12 ≤ max_packet
      → IsSealed d seq payload frame
      → unseal c d seq (frame ++ rest) ≡ ok (payload, rest)
  unfolding unseal
  unseal-IsSealed d seq payload rest {frame} ne fits s =
      let n = length s.body in
      let size : (n ≡ 1 + length payload + length s.padded.padding) =
        rw s.padded.shape (omega (arith, length-append payload s.padded.padding)) in
      let small : n % 2 ^ 32 ≡ n = omega (arith, size, s.padded.at_most) in
      let four : 4 ≡ length s.enc_len = omega (
        arith,
        length-stream d.length_key (seq_nonce seq) 0 (be32 (n % 2 ^ 32)) s.length_sealed,
        length-be32 (n % 2 ^ 32),
      ) in
      let width : length s.enc_body ≡ n =
        length-stream d.payload_key (seq_nonce seq) 1 s.body s.body_sealed in
      let sixteen : length s.tag ≡ 16 =
        length-poly1305_tag d.payload_key (seq_nonce seq) s.enc_len s.enc_body s.tagged in
      let packet : frame ++ rest ≡ s.enc_len ++ ((s.enc_body ++ s.tag) ++ rest) =
        rw (s.shape, append_assoc, append_assoc, append_assoc) in
      let value : be32_value (be32 (n % 2 ^ 32)) ≡ n =
        be32_value-be32 (n % 2 ^ 32) (omega (arith, small, size, s.padded.at_most)) ∙ small in
      let whole : n + 16 ≡ length (s.enc_body ++ s.tag) =
        omega (arith, length-append s.enc_body s.tag, width, sixteen) in
      let in_range : (ltb n 5 || ltb max_packet n) ≡ false =
        ground (arith, size, s.padded.at_least, s.padded.at_most) in
      rw packet (
        rw (read_full-append 4 s.enc_len ((s.enc_body ++ s.tag) ++ rest) four) (
          rw (stream-stream d.length_key (seq_nonce seq) 0 (be32 (n % 2 ^ 32)) s.length_sealed) (
            rw value (
              rw in_range (
                rw (read_full-append (n + 16) (s.enc_body ++ s.tag) rest whole) (
                  rw
                    (
                      take-append n s.enc_body s.tag (sym width),
                      drop-append n s.enc_body s.tag (sym width),
                    )
                    (rw s.tagged (
                      rw (equal_refl s.tag) (
                        rw (stream-stream d.payload_key (seq_nonce seq) 1 s.body s.body_sealed)
                          (rw (unpad_payload-IsPadded payload ne s.padded)))))))))))

  -- `open` returns the payload that `seal` was given, under the same keys and sequence number,
  -- and leaves what follows the packet, for every payload within the packet limit.
  pub unseal-seal :
      (noise : Noise) (d : ChachaDirection) (seq : ℕ) (payload rest : Bytes) {frame : Bytes}
      → FillsBuffer noise
      → length payload + 12 ≤ max_packet
      → seal c noise d seq payload ≡ ok frame
      → unseal c d seq (frame ++ rest) ≡ ok (payload, rest)
  unseal-seal noise d seq payload rest fills fits e =
      let (ne, sealed) = seal-IsSealed noise d seq payload fills e in
      unseal-IsSealed d seq payload rest ne fits sealed

module _ (c : Crypto) where
  -- What an accepted packet is: its parts, with the tag that the key gives for them, and a length
  -- field that the length key opens to the length of the body.
  pub record IsAuthentic (d : ChachaDirection) (seq : ℕ) (input payload left : Bytes) : Type 0 where
    pub enc_len : Bytes
    pub enc_body : Bytes
    pub tag : Bytes
    pub body : Bytes
    pub plain_len : Bytes
    pub shape : input ≡ enc_len ++ ((enc_body ++ tag) ++ left)
    pub tagged : poly1305_tag c d.payload_key (seq_nonce seq) enc_len enc_body ≡ ok tag
    pub opened : stream c d.payload_key (seq_nonce seq) 1 enc_body ≡ ok body
    pub unpadded : unpad_payload body ≡ ok payload
    pub four_bytes : length enc_len ≡ 4
    pub tag_bytes : length tag ≡ 16
    pub length_opened : stream c d.length_key (seq_nonce seq) 0 enc_len ≡ ok plain_len
    pub length_says : be32_value plain_len ≡ length enc_body
    pub long_enough : 5 ≤ length enc_body
    pub bounded : length enc_body ≤ max_packet

  -- `open` accepts only a packet of a length field of four bytes, a body and a tag of sixteen. The
  -- tag is the one that the payload key gives for the length field and the body. The length key
  -- opens the length field to the length of the body, which is 5 to 256 KiB. What `open` returns is
  -- the body, opened with the payload key and without its padding, and what follows the packet.
  pub unseal-IsAuthentic :
      (d : ChachaDirection) (seq : ℕ) (input payload left : Bytes)
      → unseal c d seq input ≡ ok (payload, left)
      → IsAuthentic d seq input payload left
  unfolding unseal
  unseal-IsAuthentic d seq input payload left e =
      let ((enc_len, behind), e₁, f₁) = >>=-eq-ok (read_full 4 input) _ e in
      let (plain, e₂, f₂) = >>=-eq-ok (stream c d.length_key (seq_nonce seq) 0 enc_len) _ f₁ in
      let n = be32_value plain in
      let (in_range, f₃) = reject-eq-ok (ltb n 5 || ltb max_packet n) _ _ f₂ in
      let ((rest, out), e₄, f₄) = >>=-eq-ok (read_full (n + 16) behind) _ f₃ in
      let (want, e₅, f₅) =
        >>=-eq-ok (poly1305_tag c d.payload_key (seq_nonce seq) enc_len (take n rest)) _ f₄ in
      let (same, f₆) = reject-eq-ok (not (equal (drop n rest) want)) _ _ f₅ in
      let (body, e₇, f₇) =
        >>=-eq-ok (stream c d.payload_key (seq_nonce seq) 1 (take n rest)) _ f₆ in
      let (plain_payload, e₈, f₈) = >>=-eq-ok (unpad_payload body) _ f₇ in
      let (split₁, four) = read_full_split 4 input e₁ in
      let (split₂, wide) = read_full_split (n + 16) behind e₄ in
      let width : length (take n rest) ≡ n = omega (arith, length-take n rest, wide) in
      let got : drop n rest ≡ want = ground (arith, same, equal_iff (drop n rest) want) in
      let bounds : (5 ≤ n) × (n ≤ max_packet) = ground (arith, in_range) in
      let results : (plain_payload ≡ payload) × (out ≡ left) = ground (arith, f₈) in
      record {
        enc_len = enc_len;
        enc_body = take n rest;
        tag = want;
        body = body;
        plain_len = plain;
        shape =
            split₁
            ∙ ap (◌++◌ enc_len) (
                split₂
                ∙ ap₂ ◌++◌ (sym (take-append-drop n rest) ∙ ap (◌++◌ (take n rest)) got) results.1);
        tagged = e₅;
        opened = e₇;
        unpadded = e₈ ∙ ap ok results.0;
        four_bytes = four;
        tag_bytes = ap length (sym got) ∙ omega (arith, length-drop n rest, wide);
        length_opened = e₂;
        length_says = sym width;
        long_enough = omega (arith, width, bounds);
        bounded = omega (arith, width, bounds);
      }
