-- ===== src/StrictJson/Exact.antt =====
-- What the walk accepts, against the properties of the JSON value that it reads.
use warptweet.Prelude.{
  ℕ, zero, suc, ◌+◌, ◌≤◌, Bool, true, false, not, ◌&&◌, ◌||◌, List, [], ◌∷◌, Bytes, leb, length,
  equal, ok, ◌≡◌, ◌↔◌, refl, ap, sym, ◌∙◌, arith,
}
use warptweet.StrictJson.Walk.{
  Token, close_object, close_array, more, member, max_json_depth, is_canonical_manifest_name,
  walk_value, walk_object, walk_array, walk_ended, inspect_object_names,
}
use warptweet.StrictJson.Trees.{
  Json, atom, string, object, array, Members, no_members, with_member, Items, no_items, with_item,
  tokens, member_tokens, item_tokens, has_name, is_distinct, members_distinct, items_distinct, fits,
  members_fit, items_fit, is_canonical, members_canonical, items_canonical,
}
use warptweet.StrictJson.Verdicts.{
  Verdict, verdict_eq, verdict_bind, verdict_name, verdict_depth, verdict_ended,
}
use warptweet.StrictJson.Needs.{
  need, need_members, need_items, need_positive, need_members_positive, need_items_positive,
  need-length,
}

-- No name of the members has been seen.
abbrev apart : List Bytes → Members → Bool
apart seen no_members = true
apart seen (with_member name v ms) = not (member name seen) && apart seen ms

apart-cons :
    (name : Bytes) (seen : List Bytes) (ms : Members)
    → apart (name ∷ seen) ms ≡ (not (has_name name ms) && apart seen ms)
apart-cons name seen no_members = refl
apart-cons name seen (with_member other v ms) =
    by_test (equal other name) (member other seen) (has_name name ms) (apart seen ms)
      (apart-cons name seen ms)
  where
    by_test :
        (e m h a : Bool)
        → apart (name ∷ seen) ms ≡ (not h && a)
        → (not (e || m) && apart (name ∷ seen) ms) ≡ (not (e || h) && (not m && a))
    by_test e m h a ih = rw ih (ground arith)

apart-none : (ms : Members) → apart [] ms ≡ true
apart-none no_members = refl
apart-none (with_member name v ms) = apart-none ms

-- What is accepted of a value, of the members of an object and of the items of an array.
abbrev accepts : Bool → ℕ → Json → Bool
accepts c depth v = fits depth v && is_distinct v && (not c || is_canonical v)

abbrev accepts_members : Bool → ℕ → List Bytes → Members → Bool
accepts_members c depth seen ms =
    members_fit (depth + 1) ms
    && members_distinct ms
    && (not c || members_canonical ms)
    && apart seen ms

abbrev accepts_items : Bool → ℕ → Items → Bool
accepts_items c depth xs =
    items_fit (depth + 1) xs && items_distinct xs && (not c || items_canonical xs)

member_shuffle :
    (c k m f d x F D X h a : Bool)
    → (((not c || k) && not m)
        && (((f && d) && (not c || x)) && (((F && D) && (not c || X)) && (not h && a))))
      ≡ ((((f && F) && ((not h && d) && D)) && (not c || ((k && x) && X))) && (not m && a))
member_shuffle true k m f d x F D X h a = ground arith
member_shuffle false k m f d x F D X h a = ground arith

item_shuffle :
    (c f d x F D X : Bool)
    → (((f && d) && (not c || x)) && ((F && D) && (not c || X)))
      ≡ (((f && F) && (d && D)) && (not c || (x && X)))
item_shuffle c f d x F D X = ground arith

object_shuffle :
    (l F D r a : Bool) → a ≡ true → (l && (((F && D) && r) && a)) ≡ (((l && F) && D) && r)
object_shuffle l F D r a e = ground arith

array_shuffle : (l F D r : Bool) → (l && ((F && D) && r)) ≡ (((l && F) && D) && r)
array_shuffle l F D r = ground arith

end_shuffle : (c : Bool) → true ≡ ((true && true) && (not c || true))
end_shuffle c = ground arith

atom_shuffle : (c l : Bool) → (l && true) ≡ ((l && true) && (not c || true))
atom_shuffle c l = ground arith

more_value : (v : Json) (ts : List Token) → more (tokens v ts) ≡ true
unfolding tokens
more_value atom ts = refl
more_value (string s) ts = refl
more_value (object ms) ts = refl
more_value (array xs) ts = refl

mutual
  unfolding walk_value tokens fits is_distinct is_canonical need

  value-walk :
      (v : Json) (n : ℕ) (c : Bool) (depth : ℕ) (rest : List Token)
      → need v ≤ n
      → Verdict (accepts c depth v) (walk_value n c depth (tokens v rest)) rest
  value-walk v zero c depth rest h = absurd (omega (arith, need_positive v))
  value-walk atom (suc n) c depth rest h =
      verdict_eq _ _ _ rest (atom_shuffle c (leb depth max_json_depth))
        (verdict_depth depth true (ok rest) rest refl)
  value-walk (string s) (suc n) c depth rest h =
      verdict_eq _ _ _ rest (atom_shuffle c (leb depth max_json_depth))
        (verdict_depth depth true (ok rest) rest refl)
  value-walk (object ms) (suc n) c depth rest h =
      verdict_eq _ _ _ rest
        (object_shuffle (leb depth max_json_depth) (members_fit (depth + 1) ms)
          (members_distinct ms) (not c || members_canonical ms) (apart [] ms) (apart-none ms))
        (verdict_depth depth _ _ rest (object-walk ms n c depth [] rest (omega arith)))
  value-walk (array xs) (suc n) c depth rest h =
      verdict_eq _ _ _ rest
        (array_shuffle (leb depth max_json_depth) (items_fit (depth + 1) xs) (items_distinct xs)
          (not c || items_canonical xs))
        (verdict_depth depth _ _ rest (array-walk xs n c depth rest (omega arith)))

  object-walk :
      (ms : Members) (n : ℕ) (c : Bool) (depth : ℕ) (seen : List Bytes) (rest : List Token)
      → need_members ms ≤ n
      → Verdict
          (accepts_members c depth seen ms)
          (walk_object n c depth seen (member_tokens ms (close_object ∷ rest)))
          rest
  object-walk ms zero c depth seen rest h = absurd (omega (arith, need_members_positive ms))
  object-walk no_members (suc n) c depth seen rest h =
      verdict_eq true _ (ok rest) rest (ground arith) refl
  object-walk (with_member name v ms) (suc n) c depth seen rest h =
      verdict_eq _ _ _ rest
        (ap
            (λ a.
              ((not c || is_canonical_manifest_name name) && not (member name seen))
              && (accepts c (depth + 1) v
                  && (((members_fit (depth + 1) ms && members_distinct ms)
                        && (not c || members_canonical ms))
                      && a)))
            (apart-cons name seen ms)
          ∙ member_shuffle c (is_canonical_manifest_name name) (member name seen)
              (fits (depth + 1) v) (is_distinct v) (is_canonical v) (members_fit (depth + 1) ms)
              (members_distinct ms) (members_canonical ms) (has_name name ms) (apart seen ms))
        (verdict_name c name seen _ _ rest (
          verdict_bind _ _ _ (λ ts. walk_object n c depth (name ∷ seen) ts)
            (member_tokens ms (close_object ∷ rest)) rest
            (value-walk v n c (depth + 1) (member_tokens ms (close_object ∷ rest)) (omega arith))
            (object-walk ms n c depth (name ∷ seen) rest (omega arith))))

  array-walk :
      (xs : Items) (n : ℕ) (c : Bool) (depth : ℕ) (rest : List Token)
      → need_items xs ≤ n
      → Verdict
          (accepts_items c depth xs)
          (walk_array n c depth (item_tokens xs (close_array ∷ rest)))
          rest
  array-walk xs zero c depth rest h = absurd (omega (arith, need_items_positive xs))
  array-walk no_items (suc n) c depth rest h = verdict_eq true _ (ok rest) rest (ground arith) refl
  array-walk (with_item v xs) (suc n) c depth rest h =
      rw (more_value v (item_tokens xs (close_array ∷ rest))) (
        verdict_eq _ _ _ rest
          (item_shuffle c (fits (depth + 1) v) (is_distinct v) (is_canonical v)
            (items_fit (depth + 1) xs) (items_distinct xs) (items_canonical xs))
          (verdict_bind _ _ _ (λ ts. walk_array n c depth ts) (item_tokens xs (close_array ∷ rest))
            rest (value-walk v n c (depth + 1) (item_tokens xs (close_array ∷ rest)) (omega arith))
            (array-walk xs n c depth rest (omega arith))))

inspect-walk :
    (v : Json) (rest : List Token) (c : Bool)
    → inspect_object_names (tokens v rest) c
      ≡ walk_ended (walk_value (length (tokens v rest)) c 1 (tokens v rest))
unfolding inspect_object_names tokens
inspect-walk atom rest c = refl
inspect-walk (string s) rest c = refl
inspect-walk (object ms) rest c = refl
inspect-walk (array xs) rest c = refl

both_true : (f d r : Bool) → (((f && d) && r) ≡ true) ↔ ((f ≡ true) × (d ≡ true) × (r ≡ true))
both_true f d r = ground arith

-- For every JSON value, whatever follows it, the preflight has fuel enough, and it accepts exactly
-- the values that nest at most 32 levels deep, have no name twice in an object at any depth, and,
-- for a manifest, have canonical names only.
pub inspect_object_names_iff :
    (v : Json) (rest : List Token) (require_canonical : Bool)
    → (inspect_object_names (tokens v rest) require_canonical ≡ ok tt) ↔ (
        (fits 1 v ≡ true)
        × (is_distinct v ≡ true)
        × ((not require_canonical || is_canonical v) ≡ true))
inspect_object_names_iff v rest c =
    let enough : need v ≤ length (tokens v rest) = omega (arith, need-length v rest) in
    let (to, from) =
      verdict_ended _ _ rest (value-walk v (length (tokens v rest)) c 1 rest enough) in
    let (split, join) = both_true (fits 1 v) (is_distinct v) (not c || is_canonical v) in
    (
      (λ h. split (to (sym (inspect-walk v rest c) ∙ h))),
      (λ h. inspect-walk v rest c ∙ from (join h)),
    )
