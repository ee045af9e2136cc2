-- ===== src/Session/Fields/Kept.antt =====
-- Lines that are made of fields, and their splitting.
use warptweet.Prelude.{
  ℕ, ◌≡◌, ◌≢◌, refl, sym, ap, ◌∙◌, Bool, true, false, not, ◌&&◌, List, [], ◌∷◌, ◌++◌, append_assoc,
  append-nil, Bytes, ◌==◌, if◌then◌else◌, ok, All, arith,
}
use warptweet.Session.Fields.{
  Scan, is_blank, backslash, quote, flush, write_byte, scan_byte, scan, finish, split_fields,
}

abbrev quote_after : ℕ → Bool → Bool → Bool
quote_after c q e = if not e && c == quote then not q else q

abbrev escape_after : ℕ → Bool → Bool → Bool
escape_after c q e = not e && (c == backslash && q)

-- A field: what it quotes is closed, and its blanks are quoted.
unfoldable pub whole : Bytes → Bool → Bool → Bool
whole [] q e = not q && not e
whole (c ∷ cs) q e =
    let rest = whole cs (quote_after c q e) (escape_after c q e) in
    if is_blank c && (not q && not e) then false else rest

scan_byte-whole :
    (c : ℕ) (s : Scan)
    → (is_blank c && (not s.in_quote && not s.escaped)) ≡ false
    → scan_byte c s ≡ record {
      current = s.current ++ c ∷ [];
      in_quote = quote_after c s.in_quote s.escaped;
      escaped = escape_after c s.in_quote s.escaped;
      fields = s.fields;
    }
unfolding scan_byte
scan_byte-whole c s h = go s.in_quote s.escaped h
  where
    go :
        (q e : Bool)
        → (is_blank c && (not q && not e)) ≡ false
        → scan_byte c (record s { in_quote = q; escaped = e }) ≡ record {
          current = s.current ++ c ∷ [];
          in_quote = quote_after c q e;
          escaped = escape_after c q e;
          fields = s.fields;
        }
    go q true h = refl
    go q false h = pick (c == backslash) (c == quote) (is_blank c) q apart (trim (is_blank c) q h)
      where
        apart : (c == backslash) ≡ true → (c == quote) ≡ false
        apart b = ground arith

        trim : (b q : Bool) → (b && (not q && true)) ≡ false → (b && not q) ≡ false
        trim b q h = ground arith

        pick :
            (slash mark blank q : Bool)
            → (slash ≡ true → mark ≡ false)
            → (blank && not q) ≡ false
            → (if slash && q
                then write_byte c (record s { in_quote = q; escaped = true })
                else if mark
                then write_byte c (record s { in_quote = not q; escaped = false })
                else if blank && not q
                then record s {
                  current = [];
                  in_quote = q;
                  escaped = false;
                  fields = flush s.current s.fields;
                }
                else write_byte c (record s { in_quote = q; escaped = false }))
              ≡ record {
                current = s.current ++ c ∷ [];
                in_quote = if mark then not q else q;
                escaped = slash && q;
                fields = s.fields;
              }
        pick true true blank q a h = absurd (clash (a refl))
          where
            clash : true ≡ false → ⊥
            clash e = cc
        pick true false blank true a h = refl
        pick true false true false a h = cc
        pick true false false false a h = refl
        pick false true blank q a h = refl
        pick false false true true a h = refl
        pick false false true false a h = cc
        pick false false false q a h = refl

-- The scan takes a whole field into what it holds.
scan-whole :
    (f rest : Bytes) (s : Scan)
    → whole f s.in_quote s.escaped ≡ true
    → scan (f ++ rest) s
      ≡ scan rest (record {
        current = s.current ++ f;
        in_quote = false;
        escaped = false;
        fields = s.fields;
      })
unfolding scan whole
scan-whole [] rest s h = ap (scan rest) (closed s.in_quote s.escaped h)
  where
    closed :
        (q e : Bool)
        → (not q && not e) ≡ true
        → record s { in_quote = q; escaped = e } ≡ record {
          current = s.current ++ [];
          in_quote = false;
          escaped = false;
          fields = s.fields;
        }
    closed false false h =
        ap (λ x. record { current = x; in_quote = false; escaped = false; fields = s.fields })
          (sym (append-nil s.current))
    closed false true h = cc
    closed true e h = cc
scan-whole (c ∷ f) rest s h =
    go (is_blank c && (not s.in_quote && not s.escaped)) (scan_byte-whole c s)
      (scan-whole f rest (record {
        current = s.current ++ c ∷ [];
        in_quote = quote_after c s.in_quote s.escaped;
        escaped = escape_after c s.in_quote s.escaped;
        fields = s.fields;
      }))
      h
  where
    target : Scan
    target = record {
      current = s.current ++ c ∷ f;
      in_quote = false;
      escaped = false;
      fields = s.fields;
    }

    next : Scan
    next = record {
      current = s.current ++ c ∷ [];
      in_quote = quote_after c s.in_quote s.escaped;
      escaped = escape_after c s.in_quote s.escaped;
      fields = s.fields;
    }

    go :
        (b : Bool)
        → (b ≡ false → scan_byte c s ≡ next)
        → (whole f next.in_quote next.escaped ≡ true
            → scan (f ++ rest) next
              ≡ scan rest (record {
                current = next.current ++ f;
                in_quote = false;
                escaped = false;
                fields = s.fields;
              }))
        → (if b then false else whole f next.in_quote next.escaped) ≡ true
        → scan (f ++ rest) (scan_byte c s) ≡ scan rest target
    go true step ih h = cc
    go false step ih h =
        ap (scan (f ++ rest)) (step refl)
        ∙ ih h
        ∙ ap
            (λ x.
              scan rest
                (record { current = x; in_quote = false; escaped = false; fields = s.fields }))
            (append_assoc s.current (c ∷ []) f)

-- A field of a line: it is not empty, and it is whole.
abbrev pub IsField : Bytes → Type 0
IsField f = (f ≢ []) × (whole f false false ≡ true)

-- The line of these fields, each with a space behind it.
abbrev pub line_of : List Bytes → Bytes
line_of [] = []
line_of (f ∷ fs) = f ++ 32 ∷ line_of fs

abbrev between : List Bytes → Scan
between fields = record { current = []; in_quote = false; escaped = false; fields = fields }

scan-space :
    (f rest : Bytes) (fields : List Bytes)
    → f ≢ []
    → scan (32 ∷ rest) (record { current = f; in_quote = false; escaped = false; fields = fields })
      ≡ scan rest (between (fields ++ f ∷ []))
unfolding scan scan_byte flush
scan-space [] rest fields ne = absurd (ne refl)
scan-space (c ∷ f) rest fields ne = refl

scan-line_of :
    (fs fields : List Bytes)
    → All IsField fs
    → scan (line_of fs) (between fields) ≡ between (fields ++ fs)
unfolding scan
scan-line_of [] fields h = ap between (sym (append-nil fields))
scan-line_of (f ∷ fs) fields h =
    scan-whole f (32 ∷ line_of fs) (between fields) h.0.1
    ∙ scan-space f (line_of fs) fields h.0.0
    ∙ scan-line_of fs (fields ++ f ∷ []) h.1
    ∙ ap between (append_assoc fields (f ∷ []) fs)

-- A line of fields that are not empty, with a space behind each, is split into just these fields,
-- if their blanks stand in quotes and their quotes are closed.
pub split_fields-line_of : (fs : List Bytes) → All IsField fs → split_fields (line_of fs) ≡ ok fs
unfolding split_fields finish flush
split_fields-line_of fs h = ap finish (scan-line_of fs [] h)
