-- ===== src/StrictJson/Verdicts.antt =====
-- Combining what the steps of the walk accept, in internal/strictjson.
use warptweet.Prelude.{
  ℕ, Bool, true, false, not, ◌&&◌, ◌||◌, List, Bytes, leb, ltb, if◌then◌else◌, ok, err, ◌>>=◌, ◌≡◌,
  ◌↔◌, refl, ap, arith,
}
use mathlib.Core.Path.{subst}
use warptweet.StrictJson.Walk.{
  Token, WalkError, Walked, member, name_checked, max_json_depth, is_canonical_manifest_name,
  walk_ended,
}

-- Accepted, with the tokens that follow, or refused.
abbrev pub Verdict : Bool → Walked → List Token → Type 0
Verdict true walked rest = walked ≡ ok rest
Verdict false walked rest = (e : WalkError) × (walked ≡ err e)

pub verdict_eq :
    (b b' : Bool) (walked : Walked) (rest : List Token)
    → b ≡ b'
    → Verdict b walked rest
    → Verdict b' walked rest
verdict_eq b b' walked rest e v = subst (λ b. Verdict b walked rest) e v

pub verdict_bind :
    (b b' : Bool) (walked : Walked) (f : List Token → Walked) (mid rest : List Token)
    → Verdict b walked mid
    → Verdict b' (f mid) rest
    → Verdict (b && b') (walked >>= f) rest
verdict_bind true b' walked f mid rest v v' = rw v v'
verdict_bind false b' walked f mid rest (e, v) v' = (e, rw v refl)

pub verdict_name :
    (c : Bool) (name : Bytes) (seen : List Bytes) (b : Bool) (walked : Walked) (rest : List Token)
    → Verdict b walked rest
    → Verdict
        ((not c || is_canonical_manifest_name name) && not (member name seen) && b)
        (name_checked c name seen walked)
        rest
verdict_name c name seen b walked rest v =
    by_test c (is_canonical_manifest_name name) (member name seen)
  where
    by_test :
        (c k m : Bool)
        → Verdict
            ((not c || k) && not m && b)
            (if c && not k
              then err (WalkError.non_canonical_name name)
              else if m
              then err (WalkError.duplicate_name name)
              else walked)
            rest
    by_test true false m = (WalkError.non_canonical_name name, refl)
    by_test true true true = (WalkError.duplicate_name name, refl)
    by_test true true false = v
    by_test false k true = (WalkError.duplicate_name name, refl)
    by_test false k false = v

pub verdict_depth :
    (depth : ℕ) (b : Bool) (walked : Walked) (rest : List Token)
    → Verdict b walked rest
    → Verdict
        (leb depth max_json_depth && b)
        (if ltb max_json_depth depth then err WalkError.too_deep else walked)
        rest
verdict_depth depth b walked rest v =
    by_test (leb depth max_json_depth) (ltb max_json_depth depth) (ground arith)
  where
    by_test :
        (l g : Bool)
        → not l ≡ g
        → Verdict (l && b) (if g then err WalkError.too_deep else walked) rest
    by_test true true e = cc
    by_test true false e = v
    by_test false true e = (WalkError.too_deep, refl)
    by_test false false e = cc

pub verdict_ended :
    (b : Bool) (walked : Walked) (rest : List Token)
    → Verdict b walked rest
    → (walk_ended walked ≡ ok tt) ↔ (b ≡ true)
verdict_ended true walked rest v = ((λ _. refl), (λ _. rw v refl))
verdict_ended false walked rest (e, v) = ((λ h. cc (ap walk_ended v)), (λ h. cc))
