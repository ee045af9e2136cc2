-- ===== src/StrictJson/Tests.antt =====
-- Concrete documents, and the theorem at one.
use warptweet.Prelude.{true, false, not, ◌||◌, [], ◌∷◌, codes, equal, ok, err, ◌≡◌, ◌↔◌, refl}
use warptweet.StrictJson.Walk.{
  open_object, close_object, open_array, close_array, scalar, text, duplicate_name,
  is_canonical_manifest_name, walk_value, inspect_object_names, reject_duplicate_object_names,
  validate_manifest_object_names,
}
use warptweet.StrictJson.Trees.{
  Json, atom, object, array, no_members, with_member, no_items, with_item, tokens, fits,
  is_distinct, is_canonical,
}
use warptweet.StrictJson.Exact.{inspect_object_names_iff}

-- {"a": [{"b": 1, "b": 2}]}
nested_duplicate :
    reject_duplicate_object_names (
      open_object
      ∷ text (codes "a")
      ∷ open_array
      ∷ open_object
      ∷ text (codes "b")
      ∷ scalar
      ∷ text (codes "b")
      ∷ scalar
      ∷ close_object
      ∷ close_array
      ∷ close_object
      ∷ [])
    ≡ err (duplicate_name (codes "b"))
unfolding reject_duplicate_object_names inspect_object_names walk_value equal
nested_duplicate = refl

capital : is_canonical_manifest_name (codes "clientId") ≡ false
unfolding is_canonical_manifest_name
capital = refl

-- {"a": [{"b": 1, "c": 2}]}
abbrev document : Json
document = object (
    with_member (codes "a")
      (array (
        with_item (object (with_member (codes "b") atom (with_member (codes "c") atom no_members)))
          no_items))
      no_members)

document_accepted : validate_manifest_object_names (tokens document []) ≡ ok tt
unfolding validate_manifest_object_names inspect_object_names walk_value tokens equal
    is_canonical_manifest_name
document_accepted = refl

inspect_object_names_iff_example : (inspect_object_names (tokens document []) true ≡ ok tt) ↔ (
    (fits 1 document ≡ true)
    × (is_distinct document ≡ true)
    × ((not true || is_canonical document) ≡ true))
inspect_object_names_iff_example = inspect_object_names_iff document [] true
