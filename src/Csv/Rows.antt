-- ===== src/Csv/Rows.antt =====
-- One row of a report, read back by the program's own reader.
use mathlib.Core.List.{map-append}
use fusillade.Prelude.{
  ℕ, not, ◌&&◌, ◌≡◌, refl, sym, ap, ◌∙◌, Bool, true, false, List, [], ◌∷◌, ◌++◌, map, Text, trim,
  arith, All, append_assoc, show_ℕ, show_ℕ-digits, is_digit, append-nil,
}
use fusillade.Csv.{csv_escape, parse_fields, parse_csv_line, row, contains}
use fusillade.Csv.Line.{IsPlain, contains-all, NoQuote, parse_fields-plain, parse_fields-escaped}

digits-IsPlain : (w : Text) → All (λ c. is_digit c ≡ true) w → IsPlain w
digits-IsPlain [] h = tt
digits-IsPlain (c ∷ w) h = (ground arith, digits-IsPlain w h.1)

pub show_ℕ-IsPlain : (n : ℕ) → IsPlain (show_ℕ n)
show_ℕ-IsPlain n = digits-IsPlain (show_ℕ n) (show_ℕ-digits n)

-- The end of a row, behind its first field.
row_end :
    (current kind value : Text)
    → IsPlain kind
    → IsPlain value
    → parse_fields false current (b',' ∷ (kind ++ (b',' ∷ value)))
      ≡ trim current ∷ trim kind ∷ trim value ∷ []
unfolding parse_fields
row_end current kind value h k =
    ap (λ r. trim current ∷ r)
      (parse_fields-plain [] kind (b',' ∷ value) h
        ∙ ap (λ r. trim kind ∷ r)
            (ap (parse_fields false []) (sym (append-nil value))
              ∙ parse_fields-plain [] value [] k))

NoQuote-append : (t r : Text) → NoQuote t → NoQuote r → NoQuote (t ++ r)
NoQuote-append [] r h k = k
NoQuote-append (c ∷ t) r h k = h

pub IsPlain-NoQuote : (t : Text) → IsPlain t → NoQuote t
IsPlain-NoQuote [] h = tt
IsPlain-NoQuote (c ∷ t) h = (h.0).1

pub cons : {A : Type 0} {x y : A} {xs ys : List A} → x ≡ y → xs ≡ ys → x ∷ xs ≡ y ∷ ys
cons p q i = p i ∷ q i

-- The three fields of a row.
abbrev pub fields : Text × Text × Text → List Text
fields (name, kind, value) = trim name ∷ trim kind ∷ trim value ∷ []

-- A row whose name is a plain text, an escaped name and a plain text.
pub row_lem :
    (before name after kind value : Text)
    → IsPlain before
    → IsPlain after
    → NoQuote after
    → IsPlain kind
    → IsPlain value
    → parse_csv_line (row (before ++ (csv_escape name ++ after)) kind value)
      ≡ fields (before ++ (name ++ after), kind, value)
unfolding parse_csv_line
row_lem before name after kind value h k q i j =
    let end = b',' ∷ (kind ++ (b',' ∷ value)) in
    ap (parse_fields false []) (
      append_assoc before (csv_escape name ++ after) end
      ∙ ap (λ t. before ++ t) (append_assoc (csv_escape name) after end))
    ∙ parse_fields-plain [] before (csv_escape name ++ (after ++ end)) h
    ∙ parse_fields-escaped before name (after ++ end) (NoQuote-append after end q refl)
    ∙ parse_fields-plain (before ++ name) after end k
    ∙ row_end ((before ++ name) ++ after) kind value i j
    ∙ ap (λ t. fields (t, kind, value)) (append_assoc before name after)

pub plain_row :
    (name kind value : Text)
    → IsPlain name
    → IsPlain kind
    → IsPlain value
    → parse_csv_line (row name kind value) ≡ fields (name, kind, value)
unfolding parse_csv_line
plain_row name kind value h i j =
    parse_fields-plain [] name (b',' ∷ (kind ++ (b',' ∷ value))) h ∙ row_end name kind value i j

-- The constant parts of the rows.
abbrev pub is_plain : Text → Bool
is_plain w = not (contains b',' w) && not (contains b'"' w)

pub literal : (w : Text) → is_plain w ≡ true → IsPlain w
literal w h = contains-all w (ground (arith, h)) (ground (arith, h))

pub both :
    (xs ys : List Text) (us vs : List (Text × Text × Text))
    → map parse_csv_line xs ≡ map fields us
    → map parse_csv_line ys ≡ map fields vs
    → map parse_csv_line (xs ++ ys) ≡ map fields (us ++ vs)
both xs ys us vs p q =
    map-append parse_csv_line xs ys
    ∙ ap (λ t. t ++ map parse_csv_line ys) p
    ∙ ap (λ t. map fields us ++ t) q
    ∙ sym (map-append fields us vs)
