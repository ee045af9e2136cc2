-- ===== src/Enrollment/Texts.antt =====
-- Texts and their checks: internal/enrollment/accept.go, invite.go, and the functions of Go's
-- `strings` that they use, on bytes. A blank is an ASCII one.
use warptweet.Prelude.{
  ℕ, ◌+◌, Bool, true, false, not, ◌&&◌, ◌||◌, List, [], ◌∷◌, ◌++◌, Bytes, codes, equal, ◌==◌, leb,
  ltb, length, if◌then◌else◌, map, Result, ◌>>◌, reject,
}

-- `unicode.IsSpace` on ASCII
abbrev is_space : ℕ → Bool
is_space c = (leb 9 c && leb c 13) || c == 32

-- `strings.TrimLeft` of blanks
abbrev trim_left : Bytes → Bytes
trim_left [] = []
trim_left (c ∷ s) = let rest = trim_left s in if is_space c then rest else c ∷ s

-- `strings.TrimRight` of blanks
abbrev put_before : ℕ → Bytes → Bytes
put_before c [] = if is_space c then [] else c ∷ []
put_before c (d ∷ s) = c ∷ d ∷ s

abbrev trim_right : Bytes → Bytes
trim_right [] = []
trim_right (c ∷ s) = put_before c (trim_right s)

-- `strings.TrimSpace`
unfoldable pub trim_space : Bytes → Bytes
trim_space s = trim_left (trim_right s)

-- `strings.Fields`: the word that is being read, and the rest of the text
abbrev end_word : Bytes → List Bytes → List Bytes
end_word [] rest = rest
end_word (c ∷ s) rest = (c ∷ s) ∷ rest

abbrev fields_from : Bytes → Bytes → List Bytes
fields_from word [] = end_word word []
fields_from word (c ∷ s) =
    let ended = fields_from [] s in
    let longer = fields_from (word ++ c ∷ []) s in
    if is_space c then end_word word ended else longer

unfoldable pub fields : Bytes → List Bytes
fields s = fields_from [] s

-- `strings.HasPrefix` and `strings.Contains`
abbrev pub has_prefix : Bytes → Bytes → Bool
has_prefix s [] = true
has_prefix [] (d ∷ prefix) = false
has_prefix (c ∷ s) (d ∷ prefix) = c == d && has_prefix s prefix

abbrev pub contains : Bytes → Bytes → Bool
contains [] part = has_prefix [] part
contains (c ∷ s) part = has_prefix (c ∷ s) part || contains s part

-- `strings.ContainsAny`
abbrev pub any_of : (ℕ → Bool) → Bytes → Bool
any_of test [] = false
any_of test (c ∷ s) = test c || any_of test s

abbrev pub to_lower : ℕ → ℕ
to_lower c = if leb 65 c && leb c 90 then c + 32 else c

-- `strings.Join` with blanks
abbrev join_blank : List Bytes → Bytes
join_blank [] = []
join_blank (s ∷ []) = s
join_blank (s ∷ t ∷ rest) = s ++ 32 ∷ join_blank (t ∷ rest)

abbrev pub is_digit : ℕ → Bool
is_digit c = leb 48 c && leb c 57

abbrev is_lower_hex : ℕ → Bool
is_lower_hex c = is_digit c || (leb 97 c && leb c 102)

abbrev is_hex : ℕ → Bool
is_hex c = is_lower_hex c || (leb 65 c && leb c 70)

-- `isHexID`
unfoldable pub is_hex_id : Bytes → Bool
is_hex_id value =
    if equal value [] || ltb 64 (length value)
    then false
    else not (any_of (λ c. not (is_hex c)) value)

-- `isLowerHexDigest`
unfoldable pub is_lower_hex_digest : Bytes → Bool
is_lower_hex_digest value =
    if not (length value == 64) then false else not (any_of (λ c. not (is_lower_hex c)) value)

-- `isManagementToken`
unfoldable pub is_management_token : Bytes → Bool
is_management_token token = length token == 64 && is_lower_hex_digest token

pub data KeyLineError : Type 0 where
  not_one_line too_large no_blob wrong_type private_material : KeyLineError

abbrev pub max_enrollment_request_bytes : ℕ
max_enrollment_request_bytes = 16384

abbrev pub authentication_key_type : Bytes
authentication_key_type = codes "ssh-mldsa44-ed25519@openssh.com"

abbrev is_forbidden : Bytes → Bool
is_forbidden haystack =
    contains haystack (codes "private")
    || contains haystack (codes "begin openssh")
    || contains haystack (codes "begin rsa")
    || contains haystack (codes "begin ec")
    || contains haystack (codes "seed")

-- what the check for private material looks at: the type and the comment
abbrev haystack_of : Bytes → List Bytes → Bytes
haystack_of type [] = map to_lower type
haystack_of type (word ∷ comment) =
    map to_lower type ++ 32 ∷ map to_lower (join_blank (word ∷ comment))

abbrev check_fields : List Bytes → Result KeyLineError (Unit {0})
check_fields (type ∷ blob ∷ comment) = do
  reject (not (equal type authentication_key_type)) wrong_type
  reject (is_forbidden (haystack_of type comment)) private_material
check_fields _ = Result.err no_blob

-- `validatePublicKeyLine`
unfoldable pub validate_public_key_line : Bytes → Result KeyLineError (Unit {0})
validate_public_key_line public_key = do
  let line = trim_space public_key
  reject (equal line [] || any_of (λ c. c == 13 || c == 10 || c == 0) line) not_one_line
  reject (ltb max_enrollment_request_bytes (length line)) too_large
  check_fields (fields line)
