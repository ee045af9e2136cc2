-- ===== src/StrictJson/Needs.antt =====
-- The steps that the walk takes for a JSON value, against its tokens, in internal/strictjson.
use warptweet.Prelude.{ℕ, suc, ◌+◌, ◌≤◌, List, ◌∷◌, length, arith}
use Prim.Native.Nat.{max}
use warptweet.StrictJson.Walk.{Token, close_object, close_array}
use warptweet.StrictJson.Trees.{
  Json, atom, string, object, array, Members, no_members, with_member, Items, no_items, with_item,
  tokens, member_tokens, item_tokens,
}

-- The steps that a value takes.
unfoldable mutual
  pub need : Json → ℕ
  need (object ms) = suc (need_members ms)
  need (array xs) = suc (need_items xs)
  need _ = 1

  pub need_members : Members → ℕ
  need_members no_members = 1
  need_members (with_member name v ms) = suc (max (need v) (need_members ms))

  pub need_items : Items → ℕ
  need_items no_items = 1
  need_items (with_item v xs) = suc (max (need v) (need_items xs))

pub need_positive : (v : Json) → 1 ≤ need v
unfolding need
need_positive atom = omega arith
need_positive (string s) = omega arith
need_positive (object ms) = omega arith
need_positive (array xs) = omega arith

pub need_members_positive : (ms : Members) → 1 ≤ need_members ms
unfolding need
need_members_positive no_members = omega arith
need_members_positive (with_member name v ms) = omega arith

pub need_items_positive : (xs : Items) → 1 ≤ need_items xs
unfolding need
need_items_positive no_items = omega arith
need_items_positive (with_item v xs) = omega arith

mutual
  unfolding tokens need

  pub need-length : (v : Json) (rest : List Token) → need v + length rest ≤ length (tokens v rest)
  need-length atom rest = omega arith
  need-length (string s) rest = omega arith
  need-length (object ms) rest = omega (arith, need_members-length ms (close_object ∷ rest))
  need-length (array xs) rest = omega (arith, need_items-length xs (close_array ∷ rest))

  need_members-length :
      (ms : Members) (rest : List Token)
      → need_members ms + length rest ≤ suc (length (member_tokens ms rest))
  need_members-length no_members rest = omega arith
  need_members-length (with_member name v ms) rest = omega (
    arith,
    need_positive v,
    need_members_positive ms,
    need_members-length ms rest,
    need-length v (member_tokens ms rest),
  )

  need_items-length :
      (xs : Items) (rest : List Token)
      → need_items xs + length rest ≤ suc (length (item_tokens xs rest))
  need_items-length no_items rest = omega arith
  need_items-length (with_item v xs) rest = omega (
    arith,
    need_positive v,
    need_items_positive xs,
    need_items-length xs rest,
    need-length v (item_tokens xs rest),
  )
