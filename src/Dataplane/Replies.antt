-- ===== src/Dataplane/Replies.antt =====
-- Replies of a connection's handlers, by the connection they leave.
use warptweet.Prelude.{
  ◌≡◌, refl, Bool, true, false, Option, none, some, Result, ok, err, if◌then◌else◌,
}
use warptweet.Wire.{Truncated}
use warptweet.Dataplane.Connection.{
  Connection, ConnError, Reply, continue, failed, and_then, read_then, parsed_then, found_then,
  or_fail, left_by,
}

-- The predicate holds of the connection that the reply leaves.
abbrev pub Left : (Connection → Type 0) → Reply → Type 0
Left Q (continue c) = Q c
Left Q (failed e c) = Q c

pub Left-map :
    (P Q : Connection → Type 0) (r : Reply) → ((c : Connection) → P c → Q c) → Left P r → Left Q r
Left-map P Q (continue c) h l = h c l
Left-map P Q (failed e c) h l = h c l

module _ (Q : Connection → Type 0) where
  pub if-Left :
      (b : Bool) (r s : Reply)
      → (b ≡ true → Left Q r)
      → (b ≡ false → Left Q s)
      → Left Q (if b then r else s)
  if-Left true r s h g = h refl
  if-Left false r s h g = g refl

  pub and_then-Left :
      (r : Reply) (next : Connection → Reply)
      → Left Q r
      → ((c : Connection) → Q c → Left Q (next c))
      → Left Q (and_then r next)
  and_then-Left (continue c) next h g = g c h
  and_then-Left (failed e c) next h g = h

  pub Left-all : ((c : Connection) → Q c) → (r : Reply) → Left Q r
  Left-all h (continue c) = h c
  Left-all h (failed e c) = h c

  pub left_by-Left : (r : Reply) → Left Q r → Q (left_by r)
  left_by-Left (continue c) h = h
  left_by-Left (failed e c) h = h

  module _ {A : Type 0} where
    pub read_then-Left :
        (c : Connection) (r : Result Truncated A) (next : A → Reply)
        → Q c
        → ((x : A) → Left Q (next x))
        → Left Q (read_then c r next)
    read_then-Left c (ok x) next h g = g x
    read_then-Left c (err e) next h g = h

    -- The same, with what was read.
    pub read_as-Left :
        (c : Connection) (r : Result Truncated A) (next : A → Reply)
        → Q c
        → ((x : A) → r ≡ ok x → Left Q (next x))
        → Left Q (read_then c r next)
    read_as-Left c (ok x) next h g = g x refl
    read_as-Left c (err e) next h g = h

    pub or_fail-Left :
        (c : Connection) (e : ConnError) (o : Option A) (next : A → Reply)
        → Q c
        → ((x : A) → Left Q (next x))
        → Left Q (or_fail c e o next)
    or_fail-Left c e (some x) next h g = g x
    or_fail-Left c e none next h g = h

    pub parsed_then-Left :
        (r : Result Truncated A) (other : Reply) (next : A → Reply)
        → Left Q other
        → ((x : A) → Left Q (next x))
        → Left Q (parsed_then r other next)
    parsed_then-Left (ok x) other next h g = g x
    parsed_then-Left (err e) other next h g = h

    -- The same, with what was parsed or found.
    pub parsed_as-Left :
        (r : Result Truncated A) (other : Reply) (next : A → Reply)
        → Left Q other
        → ((x : A) → r ≡ ok x → Left Q (next x))
        → Left Q (parsed_then r other next)
    parsed_as-Left (ok x) other next h g = g x refl
    parsed_as-Left (err e) other next h g = h

    pub found_as-Left :
        (o : Option A) (other : Reply) (next : A → Reply)
        → Left Q other
        → ((x : A) → o ≡ some x → Left Q (next x))
        → Left Q (found_then o other next)
    found_as-Left (some x) other next h g = g x refl
    found_as-Left none other next h g = h

    pub found_then-Left :
        (o : Option A) (other : Reply) (next : A → Reply)
        → Left Q other
        → ((x : A) → Left Q (next x))
        → Left Q (found_then o other next)
    found_then-Left (some x) other next h g = g x
    found_then-Left none other next h g = h
