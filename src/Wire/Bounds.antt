-- ===== src/Wire/Bounds.antt =====
-- The numbers and the remainders of consumeUint32 and consumeSSHString.
use warptweet.Prelude.{
  ℕ, zero, suc, ◌+◌, ◌-◌, ◌^◌, ◌<◌, ◌≡◌, refl, Bool, true, false, [], ◌∷◌, Bytes, IsByte, All,
  length, take, drop, ltb, if◌then◌else◌, Result, ok, err, ok-injective, arith,
}
use mathlib.Core.Path.{subst}
use warptweet.Wire.{
  be32_value, consume_string, consume_ssh_string, consume_uint32, Truncated, truncated, WireError,
}

All-drop : (n : ℕ) (bs : Bytes) → All IsByte bs → All IsByte (drop n bs)
All-drop zero bs h = h
All-drop (suc n) [] h = tt
All-drop (suc n) (b ∷ bs) h = All-drop n bs h.1

All-take : (n : ℕ) (bs : Bytes) → All IsByte bs → All IsByte (take n bs)
All-take zero bs h = tt
All-take (suc n) [] h = tt
All-take (suc n) (b ∷ bs) h = (h.0, All-take n bs h.1)

pub be32_value_bound : (bs : Bytes) → All IsByte bs → be32_value bs < 2 ^ 32
unfolding be32_value
be32_value_bound [] h = omega arith
be32_value_bound (a ∷ []) h = omega arith
be32_value_bound (a ∷ b ∷ []) h = omega arith
be32_value_bound (a ∷ b ∷ c ∷ []) h = omega arith
be32_value_bound (a ∷ b ∷ c ∷ d ∷ bs) (ha, (hb, (hc, (hd, _)))) = omega arith

if_err-ok :
    {E A : Type 0} (b : Bool) (e : E) (r : Result E A) (y : A)
    → (if b then err e else r) ≡ ok y
    → r ≡ ok y
if_err-ok true e r y h = cc
if_err-ok false e r y h = h

-- A number that `consumeUint32` reads from bytes has 32 bits, and bytes are left.
pub consume_uint32-IsWord :
    (bs : Bytes) (v : ℕ) (rest : Bytes)
    → All IsByte bs
    → consume_uint32 bs ≡ ok (v, rest)
    → (v < 2 ^ 32) × All IsByte rest
unfolding consume_uint32
consume_uint32-IsWord bs v rest h e =
    subst (λ p. (p.0 < 2 ^ 32) × All IsByte p.1)
      (ok-injective _ _ (if_err-ok (ltb (length bs) 4) _ _ _ e))
      (be32_value_bound (take 4 bs) (All-take 4 bs h), All-drop 4 bs h)

consume_string-IsBytes :
    (bs rest value : Bytes) → All IsByte bs → consume_string bs ≡ ok (rest, value) → All IsByte rest
unfolding consume_string
consume_string-IsBytes bs rest value h e =
    let e₁ = if_err-ok (ltb (length bs) 4) _ _ _ e in
    let e₂ = if_err-ok (ltb (length bs - 4) (be32_value (take 4 bs))) _ _ _ e₁ in
    subst (λ p. All IsByte p.0) (ok-injective _ _ e₂) (All-drop (4 + be32_value (take 4 bs)) bs h)

-- Bytes are left behind a string.
pub consume_ssh_string-IsBytes :
    (bs value rest : Bytes)
    → All IsByte bs
    → consume_ssh_string bs ≡ ok (value, rest)
    → All IsByte rest
unfolding consume_ssh_string
consume_ssh_string-IsBytes bs value rest h e =
    go (consume_string bs) (λ rest value. consume_string-IsBytes bs rest value h) e
  where
    go :
        (r : Result WireError (Bytes × Bytes))
        → ((rest value : Bytes) → r ≡ ok (rest, value) → All IsByte rest)
        → ◌≡◌ {A = Result Truncated (Bytes × Bytes)}
            (elim r [ ok (rest, value) ↦ ok (value, rest) | err e ↦ err truncated ])
            (ok (value, rest))
        → All IsByte rest
    go (err _) g e = cc
    go (ok p) g e = subst (λ q. All IsByte q.1) (ok-injective _ _ e) (g p.0 p.1 refl)
