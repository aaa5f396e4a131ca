-- ===== src/Csv/Line.antt =====
-- What is escaped is read back.
use fusillade.Prelude.{
  ℕ, ◌≡◌, refl, sym, ap, ◌∙◌, true, false, ◌||◌, List, [], ◌∷◌, ◌++◌, map, Text, codes, trim, ◌==◌,
  arith, append_assoc, append-nil, Bool-cases, inl, inr, All, ==_iff,
}
use fusillade.Csv.{csv_escape, double_quotes, parse_fields, parse_csv_line, contains}

-- Neither a comma nor a quote.
abbrev pub IsPlain : Text → Type 0
IsPlain = All (λ c. ((c == b',') ≡ false) × ((c == b'"') ≡ false))

pub parse_fields-plain :
    (current value rest : Text)
    → IsPlain value
    → parse_fields false current (value ++ rest) ≡ parse_fields false (current ++ value) rest
unfolding parse_fields
parse_fields-plain current [] rest h =
    ap (λ t. parse_fields false t rest) (sym (append-nil current))
parse_fields-plain current (c ∷ cs) rest h =
    rw (h.0.0, h.0.1) (parse_fields-plain (current ++ (c ∷ [])) cs rest h.1 ∙ rw append_assoc)

-- Behind the closing quote comes none.
abbrev pub NoQuote : Text → Type 0
NoQuote [] = Unit
NoQuote (c ∷ cs) = (c == b'"') ≡ false

parse_fields-inside :
    (current : Text) (c : ℕ) (cs : Text)
    → (c == b'"') ≡ false
    → parse_fields true current (c ∷ cs) ≡ parse_fields true (current ++ (c ∷ [])) cs
unfolding parse_fields
parse_fields-inside current c [] h = rw h
parse_fields-inside current c (d ∷ cs) h = rw h

parse_fields-quoted :
    (current value rest : Text)
    → NoQuote rest
    → parse_fields true current (double_quotes value ++ (b'"' ∷ rest))
      ≡ parse_fields false (current ++ value) rest
unfolding parse_fields double_quotes
parse_fields-quoted current [] [] h = ap (λ t. trim t ∷ []) (sym (append-nil current))
parse_fields-quoted current [] (r ∷ rest) h = rw (append-nil current, h)
parse_fields-quoted current (c ∷ cs) rest h = elim (Bool-cases (c == b'"')) [
  | inl q ↦ rw q (
      parse_fields-quoted (current ++ codes "\"") cs rest h
      ∙ ap (λ t. parse_fields false t rest)
          (append_assoc current (codes "\"") cs
            ∙ ap (λ d. current ++ (d ∷ cs)) (sym ((==_iff c b'"').0 q))))
  | inr q ↦ rw q (
      parse_fields-inside current c (double_quotes cs ++ (b'"' ∷ rest)) q
      ∙ parse_fields-quoted (current ++ (c ∷ [])) cs rest h
      ∙ ap (λ t. parse_fields false t rest) (append_assoc current (c ∷ []) cs))
]

pub contains-all :
    (value : Text) → contains b',' value ≡ false → contains b'"' value ≡ false → IsPlain value
contains-all [] h k = tt
contains-all (c ∷ cs) h k =
    (ground (arith, h, k), contains-all cs (ground (arith, h)) (ground (arith, k)))

-- An escaped value, behind what is already in the field, is read back.
pub parse_fields-escaped :
    (current value rest : Text)
    → NoQuote rest
    → parse_fields false current (csv_escape value ++ rest)
      ≡ parse_fields false (current ++ value) rest
unfolding csv_escape parse_fields
parse_fields-escaped current value rest h =
    elim (Bool-cases (
      contains b',' value || contains b'"' value || contains b'\n' value || contains b'\r' value)) [
        | inl q ↦ rw q (
            ap (parse_fields true current) (append_assoc (double_quotes value) (codes "\"") rest)
            ∙ parse_fields-quoted current value rest h)
        | inr q ↦ rw q (
            parse_fields-plain current value rest
              (contains-all value (ground (arith, q)) (ground (arith, q))))
      ]

-- `fields.join(",")`
abbrev pub join : List Text → Text
join [] = []
join (f ∷ []) = f
join (f ∷ g ∷ fs) = f ++ (b',' ∷ join (g ∷ fs))

-- The values of a line that are escaped and joined by commas are read back, each without the white
-- space around it.
pub parse_csv_line-join :
    (f : Text) (fs : List Text)
    → parse_csv_line (join (map csv_escape (f ∷ fs))) ≡ map trim (f ∷ fs)
unfolding parse_csv_line parse_fields
parse_csv_line-join f [] =
    ap parse_csv_line (sym (append-nil (csv_escape f))) ∙ parse_fields-escaped [] f [] tt
parse_csv_line-join f (g ∷ fs) =
    parse_fields-escaped [] f (b',' ∷ join (map csv_escape (g ∷ fs))) refl
    ∙ ap (λ r. trim f ∷ r) (parse_csv_line-join g fs)
