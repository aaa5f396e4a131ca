-- ===== src/Prelude/Words.antt =====
-- Words: `str::split_whitespace`, `str::split_once`, and lower case.
use mathlib.Core.Bool.{Bool, false, ◌&&◌, ◌||◌}
use mathlib.Core.List.{
  List, [], ◌∷◌, ◌++◌, map, append-nil, append_assoc, reverse, reverse-append, reverse-reverse,
}
use mathlib.Core.Option.{Option, none, some}
use mathlib.Core.Path.{◌≡◌, refl, sym, ap, ◌∙◌}
use native.Mathlib.Omega.{arith}
use Prim.Native.Nat.{ℕ, zero, suc, ◌+◌, ◌-◌}
use fusillade.Prelude.Lists.{All, drop, length}
use fusillade.Prelude.Tests.{◌==◌, ==_iff, leb, if◌then◌else◌}
use fusillade.Prelude.Texts.{Text, is_whitespace, trim, trim_start, trim_end, starts_with}

-- `str::split_whitespace`
unfoldable pub split_from : Text → Text → List Text
split_from [] [] = []
split_from (w ∷ ws) [] = (w ∷ ws) ∷ []
split_from word (c ∷ cs) =
    let longer = split_from (word ++ (c ∷ [])) cs in
    let next = split_from [] cs in
    if is_whitespace c then elim word [ [] ↦ next | w ∷ ws ↦ (w ∷ ws) ∷ next ] else longer

unfoldable pub split_whitespace : Text → List Text
unfolding split_from
split_whitespace = split_from []

-- `to_lowercase`, where the result is only compared with words of the letters a to z but k: of the
-- other code points none is lowered to such a letter alone.
abbrev pub to_lower : ℕ → ℕ
to_lower c = if leb b'A' c && leb c b'Z' then c + 32 else c

abbrev pub to_lowercase : Text → Text
to_lowercase = map to_lower

-- `split_once(c)`: the text before the first `c`, and the text behind it.
unfoldable pub split_once : ℕ → Text → Option (Text × Text)
split_once c [] = none
split_once c (x ∷ xs) =
    if x == c
    then some ([], xs)
    else elim (split_once c xs) [ none ↦ none | some (a, b) ↦ some (x ∷ a, b) ]

-- `str::strip_prefix`
abbrev pub strip_prefix : Text → Text → Option Text
strip_prefix p s = if starts_with s p then some (drop (length p) s) else none

-- `str::replace`, of a character
unfoldable pub replace : ℕ → Text → Text → Text
replace c by [] = []
replace c by (x ∷ xs) = if x == c then by ++ replace c by xs else x ∷ replace c by xs

-- `str::contains`
unfoldable pub contains : Text → Text → Bool
unfolding starts_with
contains [] word = starts_with [] word
contains (c ∷ cs) word = starts_with (c ∷ cs) word || contains cs word

-- `str::replace`, of a text that is not empty, once so many characters have been skipped
unfoldable pub replace_from : ℕ → Text → Text → Text → Text
unfolding starts_with
replace_from n p by [] = []
replace_from zero p by (c ∷ cs) =
    let behind = replace_from (length p - 1) p by cs in
    let on = replace_from zero p by cs in if starts_with (c ∷ cs) p then by ++ behind else c ∷ on
replace_from (suc n) p by (c ∷ cs) = replace_from n p by cs

abbrev pub replace_text : Text → Text → Text → Text
replace_text = replace_from 0

-- `[T]::join`
unfoldable pub join : Text → List Text → Text
join sep [] = []
join sep (x ∷ []) = x
join sep (x ∷ y ∷ ys) = x ++ (sep ++ join sep (y ∷ ys))

-- `trim_end_matches(['\r', '\n'])`, from the end of the text
unfoldable pub keep_or_trim : ℕ → Text → Text
keep_or_trim c [] = if c == b'\n' || c == b'\r' then [] else c ∷ []
keep_or_trim c (d ∷ ds) = c ∷ d ∷ ds

unfoldable pub trim_newlines : Text → Text
unfolding keep_or_trim
trim_newlines [] = []
trim_newlines (c ∷ cs) = keep_or_trim c (trim_newlines cs)

-- No white space.
abbrev pub IsWord : Text → Type 0
IsWord = All (λ c. is_whitespace c ≡ false)

pub split_from-word :
    (acc w rest : Text) → IsWord w → split_from acc (w ++ rest) ≡ split_from (acc ++ w) rest
unfolding split_from
split_from-word acc [] rest h = ap (λ a. split_from a rest) (sym (append-nil acc))
split_from-word acc (c ∷ w) rest h =
    rw h.0 (split_from-word (acc ++ (c ∷ [])) w rest h.1 ∙ rw append_assoc)

pub split_once_first :
    (c : ℕ) (a b : Text) → All (λ x. (x == c) ≡ false) a → split_once c (a ++ (c ∷ b)) ≡ some (a, b)
unfolding split_once
split_once_first c [] b h = rw ((==_iff c c).1 refl)
split_once_first c (x ∷ a) b h = rw (h.0, split_once_first c a b h.1)

pub trim_start_word : (c : ℕ) (xs : Text) → is_whitespace c ≡ false → trim_start (c ∷ xs) ≡ c ∷ xs
unfolding trim_start
trim_start_word c xs h = ground arith

-- A text that neither begins nor ends in white space is its own trim.
pub trim_self :
    (c : ℕ) (xs ys : Text) (d : ℕ)
    → is_whitespace c ≡ false
    → is_whitespace d ≡ false
    → c ∷ xs ≡ ys ++ (d ∷ [])
    → trim (c ∷ xs) ≡ c ∷ xs
unfolding trim trim_end
trim_self c xs ys d h k e =
    ap (λ t. reverse (trim_start (reverse t))) (trim_start_word c xs h ∙ e)
    ∙ ap (λ t. reverse (trim_start t)) (reverse-append ys (d ∷ []))
    ∙ ap reverse (trim_start_word d (reverse ys) k ∙ sym (reverse-append ys (d ∷ [])))
    ∙ reverse-reverse (ys ++ (d ∷ []))
    ∙ sym e
