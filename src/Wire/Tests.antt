-- ===== src/Wire/Tests.antt =====
-- Concrete runs, and the theorems at concrete inputs.
use warptweet.Prelude.{◌≡◌, refl, [], ◌∷◌, ◌++◌, ok, err, arith}
use warptweet.Wire.{ssh_string, append_string, consume_string, truncated_value, be32, be32_value}
use warptweet.Wire.RoundTrip.{consume_string-append_string}

ssh_string_run : ssh_string (7 ∷ 8 ∷ []) ≡ 0 ∷ 0 ∷ 0 ∷ 2 ∷ 7 ∷ 8 ∷ []
unfolding ssh_string append_string be32
ssh_string_run = refl

consume_short : consume_string (0 ∷ 0 ∷ 0 ∷ 3 ∷ 7 ∷ 8 ∷ []) ≡ err truncated_value
unfolding consume_string be32_value
consume_short = refl

consume_two : consume_string (0 ∷ 0 ∷ 0 ∷ 2 ∷ 7 ∷ 8 ∷ 9 ∷ []) ≡ ok (9 ∷ [], 7 ∷ 8 ∷ [])
unfolding consume_string be32_value
consume_two = refl

consume_string-append_string_example :
    consume_string (append_string [] (7 ∷ 8 ∷ []) ++ 9 ∷ []) ≡ ok (9 ∷ [], 7 ∷ 8 ∷ [])
consume_string-append_string_example =
    consume_string-append_string (7 ∷ 8 ∷ []) (9 ∷ []) (omega arith)
