-- ===== src/Wire/RoundTrip.antt =====
-- `AppendString` and `ConsumeString` on each other's results, and the readers of wire.go.
use warptweet.Prelude.{
  ℕ, ◌^◌, ◌≤◌, ◌<◌, ◌≡◌, refl, sym, ◌∙◌, [], ◌∷◌, ◌++◌, arith, Bytes, IsByte, length, take, drop,
  length-append, length-take, take-append, drop-append, take-append-drop, All, ok,
}
use warptweet.Wire.{
  be32, be32_value, append_string, consume_string, ssh_string, consume_ssh_string, consume_uint32,
}

pub be32_value-be32 : (n : ℕ) → n < 2 ^ 32 → be32_value (be32 n) ≡ n
unfolding be32 be32_value
be32_value-be32 n h = omega arith

pub length-be32 : (n : ℕ) → length (be32 n) ≡ 4
unfolding be32
length-be32 n = refl

pub be32-be32_value :
    (a b c d : ℕ)
    → All IsByte (a ∷ b ∷ c ∷ d ∷ [])
    → be32 (be32_value (a ∷ b ∷ c ∷ d ∷ [])) ≡ a ∷ b ∷ c ∷ d ∷ []
unfolding be32 be32_value
be32-be32_value a b c d h = ground arith

-- A `uint32` is read back with what follows it left over.
pub consume_uint32-be32 :
    (n : ℕ) (rest : Bytes) → n < 2 ^ 32 → consume_uint32 (be32 n ++ rest) ≡ ok (n, rest)
unfolding consume_uint32 be32
consume_uint32-be32 n rest h = ground (arith, be32_value-be32 n h)

-- On a string below 2^32 bytes, `ConsumeString` returns the string that was appended, and
-- leaves whatever follows it.
pub consume_string-append_string :
    (value rest : Bytes)
    → length value < 2 ^ 32
    → consume_string (append_string [] value ++ rest) ≡ ok (rest, value)
unfolding consume_string append_string be32
consume_string-append_string value rest h = ground (
  arith,
  length-append value rest,
  be32_value-be32 (length value) h,
  take-append (length value) value rest refl,
  drop-append (length value) value rest refl,
)

pub consume_ssh_string-ssh_string :
    (value rest : Bytes)
    → length value < 2 ^ 32
    → consume_ssh_string (ssh_string value ++ rest) ≡ ok (value, rest)
unfolding consume_ssh_string ssh_string
consume_ssh_string-ssh_string value rest h =
    rw (consume_string-append_string value rest h, consume_ssh_string)

be32_value_bound :
    (a b c d : ℕ) → All IsByte (a ∷ b ∷ c ∷ d ∷ []) → be32_value (a ∷ b ∷ c ∷ d ∷ []) < 2 ^ 32
unfolding be32_value
be32_value_bound a b c d h = omega arith

-- The bytes behind a length field split at it.
split_at :
    (n : ℕ) (xs value rest : Bytes)
    → n ≤ length xs
    → drop n xs ≡ rest
    → take n xs ≡ value
    → (xs ≡ value ++ rest) × (length value ≡ n)
split_at n xs value rest h d t =
    (sym (take-append-drop n xs) ∙ rw (d, t), rw (← t) (omega (arith, length-take n xs)))

-- `ConsumeString` accepts nothing but the encoding of the value that it returns, in front of
-- the remainder that it returns: no two inputs decode alike.
pub consume_string_exact :
    (input rest value : Bytes)
    → All IsByte input
    → consume_string input ≡ ok (rest, value)
    → (input ≡ append_string [] value ++ rest) × (length value < 2 ^ 32)
unfolding consume_string append_string
consume_string_exact (a ∷ b ∷ c ∷ d ∷ xs) rest value h e =
    let size = be32_value (a ∷ b ∷ c ∷ d ∷ []) in
    ground (arith, split_at size xs value rest, be32-be32_value a b c d, be32_value_bound a b c d)
consume_string_exact _ rest value h e = ground arith
