-- ===== src/StrictJson/Trees.antt =====
-- JSON values, their tokens, and what the preflight is to accept.
use warptweet.Prelude.{ℕ, ◌+◌, Bool, true, false, not, ◌&&◌, ◌||◌, List, ◌∷◌, Bytes, equal, leb}
use warptweet.StrictJson.Walk.{
  Token, open_object, close_object, open_array, close_array, scalar, text, max_json_depth,
  is_canonical_manifest_name,
}

mutual
  pub data Json : Type 0 where
    atom : Json
    string : Bytes → Json
    object : Members → Json
    array : Items → Json

  pub data Members : Type 0 where
    no_members : Members
    with_member : Bytes → Json → Members → Members

  pub data Items : Type 0 where
    no_items : Items
    with_item : Json → Items → Items

-- the tokens of a value, before those that follow it
unfoldable mutual
  pub tokens : Json → List Token → List Token
  tokens atom rest = scalar ∷ rest
  tokens (string s) rest = text s ∷ rest
  tokens (object ms) rest = open_object ∷ member_tokens ms (close_object ∷ rest)
  tokens (array xs) rest = open_array ∷ item_tokens xs (close_array ∷ rest)

  pub member_tokens : Members → List Token → List Token
  member_tokens no_members rest = rest
  member_tokens (with_member name v ms) rest = text name ∷ tokens v (member_tokens ms rest)

  pub item_tokens : Items → List Token → List Token
  item_tokens no_items rest = rest
  item_tokens (with_item v xs) rest = tokens v (item_tokens xs rest)

abbrev pub has_name : Bytes → Members → Bool
has_name name no_members = false
has_name name (with_member other v ms) = equal other name || has_name name ms

-- No object in the value, at any depth, has a name twice.
unfoldable mutual
  pub is_distinct : Json → Bool
  is_distinct (object ms) = members_distinct ms
  is_distinct (array xs) = items_distinct xs
  is_distinct _ = true

  pub members_distinct : Members → Bool
  members_distinct no_members = true
  members_distinct (with_member name v ms) =
      not (has_name name ms) && is_distinct v && members_distinct ms

  pub items_distinct : Items → Bool
  items_distinct no_items = true
  items_distinct (with_item v xs) = is_distinct v && items_distinct xs

-- The value fits between this depth and the deepest one.
unfoldable mutual
  pub fits : ℕ → Json → Bool
  fits depth (object ms) = leb depth max_json_depth && members_fit (depth + 1) ms
  fits depth (array xs) = leb depth max_json_depth && items_fit (depth + 1) xs
  fits depth _ = leb depth max_json_depth

  pub members_fit : ℕ → Members → Bool
  members_fit depth no_members = true
  members_fit depth (with_member name v ms) = fits depth v && members_fit depth ms

  pub items_fit : ℕ → Items → Bool
  items_fit depth no_items = true
  items_fit depth (with_item v xs) = fits depth v && items_fit depth xs

-- Every name in the value is canonical.
unfoldable mutual
  pub is_canonical : Json → Bool
  is_canonical (object ms) = members_canonical ms
  is_canonical (array xs) = items_canonical xs
  is_canonical _ = true

  pub members_canonical : Members → Bool
  members_canonical no_members = true
  members_canonical (with_member name v ms) =
      is_canonical_manifest_name name && is_canonical v && members_canonical ms

  pub items_canonical : Items → Bool
  items_canonical no_items = true
  items_canonical (with_item v xs) = is_canonical v && items_canonical xs
