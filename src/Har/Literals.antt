-- ===== src/Har/Literals.antt =====
-- The texts that src/cli/har.rs writes into a script, as JavaScript reads them.
use fusillade.Prelude.{
  ℕ, Bool, true, false, ◌||◌, List, [], ◌∷◌, ◌++◌, Option, none, some, Text, codes, replace, ◌==◌,
  if◌then◌else◌, ◌≡◌, refl, ap, ◌∙◌, arith, append_assoc, append-nil,
}
use fusillade.Har.{escape, header_lines, body_part}

abbrev is_newline : ℕ → Bool
is_newline c = c == b'\n' || c == b'\r'

abbrev pub has_newline : Text → Bool
has_newline [] = false
has_newline (c ∷ cs) = is_newline c || has_newline cs

-- The rest of a literal in single quotes, whether a backslash stands before it: the text of the literal and
-- what follows it. A line break is not allowed in one; of the escapes, those of the quote and of the
-- backslash are read.
pub read_rest : Bool → Text → Text → Option (Text × Text)
read_rest escaped text [] = none
read_rest true text (c ∷ cs) =
    let on = read_rest false (text ++ (c ∷ [])) cs in if c == b'\'' || c == b'\\' then on else none
read_rest false text (c ∷ cs) =
    let escape_next = read_rest true text cs in
    let on = read_rest false (text ++ (c ∷ [])) cs in
    if c == b'\''
    then some (text, cs)
    else if c == b'\\'
    then escape_next
    else if is_newline c
    then none
    else on

abbrev pub read_literal : Text → Option (Text × Text)
read_literal = read_rest false []

-- what `escape` makes of a character
abbrev hide : ℕ → Text
hide c = if c == b'\\' then codes "\\\\" else if c == b'\'' then codes "\\'" else c ∷ []

escape_cons : (c : ℕ) (cs : Text) → escape (c ∷ cs) ≡ hide c ++ escape cs
unfolding escape replace
escape_cons c cs = ground arith

read-hide :
    (c : ℕ) (text rest : Text)
    → read_rest false text (hide c ++ rest)
      ≡ (if is_newline c then none else read_rest false (text ++ (c ∷ [])) rest)
unfolding read_rest
read-hide c text rest = ground arith

none_twice :
    (b d : Bool) (r : Option (Text × Text))
    → (if b then none else if d then none else r) ≡ (if b || d then none else r)
none_twice true d r = refl
none_twice false d r = refl

read-escape :
    (v text rest : Text)
    → read_rest false text (escape v ++ (b'\'' ∷ rest))
      ≡ (if has_newline v then none else some (text ++ v, rest))
unfolding read_rest escape replace
read-escape [] text rest = rw append-nil refl
read-escape (c ∷ cs) text rest =
    ap (read_rest false text) (
      ap (λ e. e ++ (b'\'' ∷ rest)) (escape_cons c cs)
      ∙ append_assoc (hide c) (escape cs) (b'\'' ∷ rest))
    ∙ read-hide c text (escape cs ++ (b'\'' ∷ rest))
    ∙ ap (λ r. if is_newline c then none else r)
        (read-escape cs (text ++ (c ∷ [])) rest
          ∙ ap (λ t. if has_newline cs then none else some (t, rest))
              (append_assoc text (c ∷ []) cs))
    ∙ none_twice (is_newline c) (has_newline cs) (some (text ++ (c ∷ cs), rest))

-- The value of a header and a body stand in the script as literals that are read as these texts, with
-- nothing behind them changed; but with a line break in one the literal is not read at all.
pub read_literal-escape :
    (name value text rest : Text) (hs : List (Text × Text))
    → ((literal : Text) × (header_lines ((name, value) ∷ hs)
          ≡ codes "            '" ++ (name ++ (codes "': '" ++ literal)))
        × (read_literal literal
            ≡ (if has_newline value then none else some (value, codes ",\n" ++ header_lines hs))))
      × ((literal : Text) × (body_part (some (some text)) ++ rest
            ≡ codes "        body: '" ++ literal)
          × (read_literal literal
              ≡ (if has_newline text then none else some (text, codes ",\n" ++ rest))))
unfolding header_lines
read_literal-escape name value text rest hs = (
  (
    escape value ++ (b'\'' ∷ (codes ",\n" ++ header_lines hs)),
    simp append_assoc,
    read-escape value [] (codes ",\n" ++ header_lines hs),
  ),
  (
    escape text ++ (b'\'' ∷ (codes ",\n" ++ rest)),
    simp append_assoc,
    read-escape text [] (codes ",\n" ++ rest),
  ),
)
