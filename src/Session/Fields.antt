-- ===== src/Session/Fields.antt =====
-- The fields of an authorized-keys line: `splitAuthorizedKeyFieldsStrict` of
-- internal/grantsession/authority.go.
pub mod Kept
use warptweet.Prelude.{
  ℕ, Bool, true, false, not, ◌&&◌, ◌||◌, List, [], ◌∷◌, ◌++◌, Bytes, ◌==◌, if◌then◌else◌, Result,
  ok, err,
}

-- `current`, `inQuote`, `escaped` and `fields`
pub record Scan : Type 0 where
  pub current : Bytes
  pub in_quote : Bool
  pub escaped : Bool
  pub fields : List Bytes

pub data FieldsError : Type 0 where
  unterminated : FieldsError

abbrev pub backslash : ℕ
backslash = 92

abbrev pub quote : ℕ
quote = 34

abbrev pub is_blank : ℕ → Bool
is_blank c = c == 32 || c == 9

-- `if current.Len() > 0 { fields = append(fields, current.String()) }`
unfoldable pub flush : Bytes → List Bytes → List Bytes
flush [] fields = fields
flush (c ∷ current) fields = fields ++ (c ∷ current) ∷ []

-- `current.WriteByte(c)`
abbrev pub write_byte : ℕ → Scan → Scan
write_byte c s = record s { current = s.current ++ c ∷ [] }

-- one turn of the loop
unfoldable pub scan_byte : ℕ → Scan → Scan
scan_byte c s =
    if s.escaped
    then write_byte c (record s { escaped = false })
    else if c == backslash && s.in_quote
    then write_byte c (record s { escaped = true })
    else if c == quote
    then write_byte c (record s { in_quote = not s.in_quote })
    else if is_blank c && not s.in_quote
    then record s { current = []; fields = flush s.current s.fields }
    else write_byte c s

unfoldable pub scan : Bytes → Scan → Scan
scan [] s = s
scan (c ∷ cs) s = scan cs (scan_byte c s)

abbrev pub start : Scan
start = record { current = []; in_quote = false; escaped = false; fields = [] }

-- behind the loop
unfoldable pub finish : Scan → Result FieldsError (List Bytes)
finish s = if s.in_quote || s.escaped then err unterminated else ok (flush s.current s.fields)

-- `splitAuthorizedKeyFieldsStrict`
unfoldable pub split_fields : Bytes → Result FieldsError (List Bytes)
split_fields line = finish (scan line start)
