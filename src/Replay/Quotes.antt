-- ===== src/Replay/Quotes.antt =====
-- The parts in double quotes of the cURL commands of src/bridge/replay.rs, as a POSIX shell reads them.
use fusillade.Prelude.{
  ℕ, Bool, true, false, ◌||◌, [], ◌∷◌, ◌++◌, Option, none, some, Text, codes, replace, ◌==◌,
  if◌then◌else◌, ◌≡◌, refl, ap, ◌∙◌, arith, append_assoc, append-nil, All,
}
use fusillade.Replay.{escape_value, escape_body, header_parts, body_parts}

abbrev is_expansion : ℕ → Bool
is_expansion c = c == b'$' || c == b'`'

-- The shell would put something in its place.
abbrev pub has_expansion : Text → Bool
has_expansion [] = false
has_expansion (c ∷ cs) = is_expansion c || has_expansion cs

abbrev pub HasNoBackslash : Text → Type 0
HasNoBackslash = All (λ c. (c == b'\\') ≡ false)

-- The rest of a part in double quotes, whether a backslash stands before it: the text and what follows the
-- quote; none where the shell expands something.
pub read_rest : Bool → Text → Text → Option (Text × Text)
read_rest escaped text [] = none
read_rest true text (c ∷ cs) =
    let plain = read_rest false (text ++ (c ∷ [])) cs in
    let joined = read_rest false text cs in
    let kept = read_rest false (text ++ (b'\\' ∷ c ∷ [])) cs in
    if is_expansion c || c == b'"' || c == b'\\' then plain else if c == b'\n' then joined else kept
read_rest false text (c ∷ cs) =
    let escape_next = read_rest true text cs in
    let on = read_rest false (text ++ (c ∷ [])) cs in
    if c == b'"'
    then some (text, cs)
    else if c == b'\\'
    then escape_next
    else if is_expansion c
    then none
    else on

abbrev pub read_quoted : Text → Option (Text × Text)
read_quoted = read_rest false []

-- A text with `\n` written for each line break.
unfoldable pub flat : Text → Text
unfolding replace
flat v = replace b'\n' (codes "\\n") v

read-escape_value :
    (v text rest : Text)
    → HasNoBackslash v
    → read_rest false text (escape_value v ++ (b'"' ∷ rest))
      ≡ (if has_expansion v then none else some (text ++ v, rest))
unfolding read_rest escape_value replace
read-escape_value [] text rest h = rw append-nil refl
read-escape_value (c ∷ cs) text rest h =
    ground
      (arith, h.0, read-escape_value cs (text ++ (c ∷ [])) rest h.1, append_assoc text (c ∷ []) cs)

read-escape_body :
    (v text rest : Text)
    → HasNoBackslash v
    → read_rest false text (escape_body v ++ (b'"' ∷ rest))
      ≡ (if has_expansion v then none else some (text ++ flat v, rest))
unfolding read_rest escape_body replace flat
read-escape_body [] text rest h = rw append-nil refl
read-escape_body (c ∷ cs) text rest h = ground (
  arith,
  h.0,
  read-escape_body cs (text ++ (c ∷ [])) rest h.1,
  read-escape_body cs (text ++ (b'\\' ∷ b'n' ∷ [])) rest h.1,
  append_assoc text (c ∷ []) (flat cs),
  append_assoc text (b'\\' ∷ b'n' ∷ []) (flat cs),
)

-- The value of a header and a body, neither with a backslash: a shell reads the value as it is, and the
-- body with `\n` in the place of each line break; but where a dollar sign or a backquote stands in one,
-- the shell expands it.
pub read_quoted-escape :
    (name value : Text) (c : ℕ) (cs rest : Text)
    → HasNoBackslash value
    → HasNoBackslash (c ∷ cs)
    → ((quoted : Text) × (header_parts ((name, value) ∷ [])
          ≡ (codes "-H \"" ++ (name ++ (codes ": " ++ quoted))) ∷ [])
        × (read_quoted (quoted ++ rest)
            ≡ (if has_expansion value then none else some (value, rest))))
      × ((quoted : Text) × (body_parts (some (c ∷ cs)) ≡ (codes "-d \"" ++ quoted) ∷ [])
          × (read_quoted (quoted ++ rest)
              ≡ (if has_expansion (c ∷ cs) then none else some (flat (c ∷ cs), rest))))
unfolding header_parts body_parts
read_quoted-escape name value c cs rest h k = (
  (
    escape_value value ++ (b'"' ∷ []),
    refl,
    ap read_quoted (append_assoc (escape_value value) (b'"' ∷ []) rest)
        ∙ read-escape_value value [] rest h,
  ),
  (
    escape_body (c ∷ cs) ++ (b'"' ∷ []),
    refl,
    ap read_quoted (append_assoc (escape_body (c ∷ cs)) (b'"' ∷ []) rest)
        ∙ read-escape_body (c ∷ cs) [] rest k,
  ),
)
