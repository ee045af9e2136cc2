-- ===== src/StrictJson/Walk.antt =====
-- The walk over the names of a JSON document: internal/strictjson/duplicates.go.
-- The decoder is the list of the tokens to come. Where the text is not JSON, that is a token too.
use warptweet.Prelude.{
  ℕ, zero, suc, ◌+◌, Bool, true, false, not, ◌&&◌, ◌||◌, List, [], ◌∷◌, Bytes, ◌==◌, leb, ltb,
  length, equal, if◌then◌else◌, Result, ok, err, ◌>>=◌,
}

pub data Token : Type 0 where
  open_object close_object open_array close_array scalar malformed : Token
  text : Bytes → Token

pub data WalkError : Type 0 where
  too_deep ended syntax unexpected_delimiter not_a_name out_of_fuel : WalkError
  non_canonical_name duplicate_name : Bytes → WalkError

abbrev pub max_json_depth : ℕ
max_json_depth = 32

abbrev is_name_byte : ℕ → Bool
is_name_byte c = (leb 97 c && leb c 122) || (leb 48 c && leb c 57) || c == 95

abbrev all_name_bytes : Bytes → Bool
all_name_bytes [] = true
all_name_bytes (c ∷ s) = if is_name_byte c then all_name_bytes s else false

-- `isCanonicalManifestName`
unfoldable pub is_canonical_manifest_name : Bytes → Bool
is_canonical_manifest_name [] = false
is_canonical_manifest_name (c ∷ s) = if ltb c 97 || ltb 122 c then false else all_name_bytes s

-- `decoder.More()`
abbrev pub more : List Token → Bool
more [] = false
more (close_object ∷ _) = false
more (close_array ∷ _) = false
more _ = true

abbrev pub Walked : Type 0
Walked = Result WalkError (List Token)

-- the token of a value, and the branches of `walkValue` on it
abbrev pub opened : List Token → (List Token → Walked) → (List Token → Walked) → Walked
opened [] object array = err ended
opened (malformed ∷ ts) object array = err syntax
opened (open_object ∷ ts) object array = object ts
opened (open_array ∷ ts) object array = array ts
opened (close_object ∷ ts) object array = err unexpected_delimiter
opened (close_array ∷ ts) object array = err unexpected_delimiter
opened (scalar ∷ ts) object array = ok ts
opened (text s ∷ ts) object array = ok ts

-- the token of a name
abbrev pub named : List Token → (Bytes → List Token → Walked) → Walked
named [] next = err ended
named (malformed ∷ ts) next = err syntax
named (text name ∷ ts) next = next name ts
named _ next = err not_a_name

-- the token at the end of an object
abbrev pub object_closed : List Token → Walked
object_closed [] = err ended
object_closed (malformed ∷ ts) = err syntax
object_closed (close_object ∷ ts) = ok ts
object_closed _ = err unexpected_delimiter

abbrev pub array_closed : List Token → Walked
array_closed [] = err ended
array_closed (malformed ∷ ts) = err syntax
array_closed (close_array ∷ ts) = ok ts
array_closed _ = err unexpected_delimiter

abbrev pub member : Bytes → List Bytes → Bool
member name [] = false
member name (other ∷ seen) = equal name other || member name seen

-- the checks of a name
abbrev pub name_checked : Bool → Bytes → List Bytes → Walked → Walked
name_checked require_canonical name seen next =
    if require_canonical && not (is_canonical_manifest_name name)
    then err (non_canonical_name name)
    else if member name seen
    then err (duplicate_name name)
    else next

-- `walkValue`, and the loops of `walkObject` and `walkArray`
unfoldable mutual
  pub walk_value : ℕ → Bool → ℕ → List Token → Walked
  walk_value zero require_canonical depth ts = err out_of_fuel
  walk_value (suc n) require_canonical depth ts =
      let walked =
        opened ts (λ ts. walk_object n require_canonical depth [] ts)
          (λ ts. walk_array n require_canonical depth ts) in
      if ltb max_json_depth depth then err too_deep else walked

  pub walk_object : ℕ → Bool → ℕ → List Bytes → List Token → Walked
  walk_object zero require_canonical depth seen ts = err out_of_fuel
  walk_object (suc n) require_canonical depth seen ts =
      let next = named ts (λ name ts. name_checked require_canonical name seen (
        walk_value n require_canonical (depth + 1) ts >>= λ ts.
        walk_object n require_canonical depth (name ∷ seen) ts)) in
      if more ts then next else object_closed ts

  pub walk_array : ℕ → Bool → ℕ → List Token → Walked
  walk_array zero require_canonical depth ts = err out_of_fuel
  walk_array (suc n) require_canonical depth ts =
      let next = walk_value n require_canonical (depth + 1) ts >>= λ ts.
      walk_array n require_canonical depth ts in
      if more ts then next else array_closed ts

abbrev pub walk_ended : Walked → Result WalkError (Unit {0})
walk_ended (ok _) = ok tt
walk_ended (err e) = err e

-- `inspectObjectNames`, of a document that is not blank. Each token is fuel for a step.
unfoldable pub inspect_object_names : List Token → Bool → Result WalkError (Unit {0})
inspect_object_names [] require_canonical = ok tt
inspect_object_names (t ∷ ts) require_canonical =
    walk_ended (walk_value (length (t ∷ ts)) require_canonical 1 (t ∷ ts))

-- `RejectDuplicateObjectNames` and `ValidateManifestObjectNames`
unfoldable pub reject_duplicate_object_names : List Token → Result WalkError (Unit {0})
reject_duplicate_object_names input = inspect_object_names input false

unfoldable pub validate_manifest_object_names : List Token → Result WalkError (Unit {0})
validate_manifest_object_names input = inspect_object_names input true
