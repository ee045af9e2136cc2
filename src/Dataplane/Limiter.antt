-- ===== src/Dataplane/Limiter.antt =====
-- The limit on one source's connections: `sourceLimiter` of internal/dataplane/listen.go.
-- The map from sources to counts is a list of entries, the latest of a source first. A count is not
-- negative: `release` takes an entry out where it would be 0 or less.
pub mod Held
use warptweet.Prelude.{
  ℕ, ◌+◌, ◌-◌, ℤ, pos, le_int, Bool, true, false, List, [], ◌∷◌, ◌++◌, Option, none, some, Bytes,
  equal, leb, if◌then◌else◌, ◌≡◌,
}

pub record Entry : Type 0 where
  pub source : Bytes
  pub count : ℕ

-- `sourceLimiter`, whose map is nil at first
pub record SourceLimiter : Type 0 where
  pub limit : ℤ
  pub counts : Option (List Entry)

-- `s.n[source]`
unfoldable pub count_of : Bytes → List Entry → ℕ
count_of source [] = 0
count_of source (e ∷ es) =
    let rest = count_of source es in if equal e.source source then e.count else rest

-- `delete(s.n, source)`
unfoldable pub delete : Bytes → List Entry → List Entry
delete source [] = []
delete source (e ∷ es) =
    let rest = delete source es in if equal e.source source then rest else e ∷ rest

abbrev pub store : Bytes → ℕ → List Entry → List Entry
store source n es = record { source = source; count = n } ∷ delete source es

abbrev pub entries : Option (List Entry) → List Entry
entries none = []
entries (some es) = es

unfoldable pub acquire_in : ℤ → Bytes → List Entry → Bool × SourceLimiter
acquire_in limit source es =
    if le_int limit (pos (count_of source es))
    then (false, record { limit = limit; counts = some es })
    else (true, record { limit = limit; counts = some (store source (count_of source es + 1) es) })

-- `acquire`
unfoldable pub acquire : Bytes → SourceLimiter → Bool × SourceLimiter
acquire source s =
    if le_int s.limit (pos 0) then (true, s) else acquire_in s.limit source (entries s.counts)

unfoldable pub release_in : Bytes → List Entry → List Entry
release_in source es =
    if leb (count_of source es) 1
    then delete source es
    else store source (count_of source es - 1) es

unfoldable pub release_counts : Bytes → Option (List Entry) → Option (List Entry)
release_counts source none = none
release_counts source (some es) = some (release_in source es)

-- `release`
unfoldable pub release : Bytes → SourceLimiter → SourceLimiter
release source s = record { limit = s.limit; counts = release_counts source s.counts }

-- A limiter, with the sources of the connections that hold a place of it. A connection releases
-- its place once.
pub data Using (limit : ℤ) : SourceLimiter → List Bytes → Type 0 where
  fresh : Using limit (record { limit = limit; counts = none }) []
  acquired :
      (source : Bytes) (s s' : SourceLimiter) (held : List Bytes)
      → Using limit s held
      → acquire source s ≡ (true, s')
      → Using limit s' (source ∷ held)
  refused :
      (source : Bytes) (s s' : SourceLimiter) (held : List Bytes)
      → Using limit s held
      → acquire source s ≡ (false, s')
      → Using limit s' held
  released :
      (source : Bytes) (s : SourceLimiter) (earlier later : List Bytes)
      → Using limit s (earlier ++ source ∷ later)
      → Using limit (release source s) (earlier ++ later)
