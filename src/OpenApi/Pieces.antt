-- ===== src/OpenApi/Pieces.antt =====
-- Paths with names in braces, and what the replacement of src/cli/openapi.rs does to one name.
use fusillade.Prelude.{
  ℕ, ◌-◌, false, ◌||◌, List, [], ◌∷◌, ◌++◌, Text, codes, contains, replace_from, starts_with,
  length, ◌==◌, if◌then◌else◌, ◌≡◌, refl, ap, sym, ◌∙◌, arith, append_assoc, All, All-append,
  text_eq, text_eq_iff, Bool-cases, inl, inr,
}
use fusillade.OpenApi.{placeholder}

-- A path is made of characters and of names in braces.
pub data Piece : Type 0 where
  char : ℕ → Piece
  hole : Text → Piece

abbrev pub print : List Piece → Text
print [] = []
print (char c ∷ ps) = c ∷ print ps
print (hole name ∷ ps) = placeholder name ++ print ps

abbrev pub NoOpening : Text → Type 0
NoOpening = All (λ c. (c == b'{') ≡ false)

abbrev pub NoBraces : Text → Type 0
NoBraces = All (λ c. (c == b'{' || c == b'}') ≡ false)

abbrev pub IsPiece : Piece → Type 0
IsPiece (char c) = (c == b'{') ≡ false
IsPiece (hole name) = NoBraces name

abbrev pub chars : Text → List Piece
chars [] = []
chars (c ∷ cs) = char c ∷ chars cs

-- The pieces once one parameter has its value.
abbrev pub fill : Text → Text → List Piece → List Piece
fill name value [] = []
fill name value (char c ∷ ps) = char c ∷ fill name value ps
fill name value (hole n ∷ ps) =
    let rest = fill name value ps in if text_eq n name then chars value ++ rest else hole n ∷ rest

print-append : (ps qs : List Piece) → print (ps ++ qs) ≡ print ps ++ print qs
print-append [] qs = refl
print-append (char c ∷ ps) qs = ap (λ r. c ∷ r) (print-append ps qs)
print-append (hole n ∷ ps) qs =
    rw (print-append ps qs) (sym (append_assoc (placeholder n) (print ps) (print qs)))

print-chars : (s : Text) → print (chars s) ≡ s
print-chars [] = refl
print-chars (c ∷ cs) = ap (λ r. c ∷ r) (print-chars cs)

skip_lem : (p by xs ys : Text) → replace_from (length xs) p by (xs ++ ys) ≡ replace_from 0 p by ys
unfolding replace_from
skip_lem p by [] ys = refl
skip_lem p by (x ∷ xs) ys = skip_lem p by xs ys

pass_lem :
    (name by xs ys : Text)
    → NoOpening xs
    → replace_from 0 (placeholder name) by (xs ++ ys)
      ≡ xs ++ replace_from 0 (placeholder name) by ys
unfolding replace_from starts_with
pass_lem name by [] ys h = refl
pass_lem name by (x ∷ xs) ys h = rw h.0 (ap (λ r. x ∷ r) (pass_lem name by xs ys h.1))

NoBraces-NoOpening : (name : Text) → NoBraces name → NoOpening (name ++ codes "}")
NoBraces-NoOpening [] h = (refl, tt)
NoBraces-NoOpening (c ∷ cs) h = (ground (arith, h.0), NoBraces-NoOpening cs h.1)

starts_with-name :
    (m n rest : Text)
    → NoBraces m
    → NoBraces n
    → starts_with (m ++ (b'}' ∷ rest)) (n ++ codes "}") ≡ text_eq m n
unfolding starts_with text_eq
starts_with-name [] [] rest h k = refl
starts_with-name [] (y ∷ n) rest h k = ground (arith, k.0)
starts_with-name (x ∷ m) [] rest h k = ground (arith, h.0)
starts_with-name (x ∷ m) (y ∷ n) rest h k = rw (starts_with-name m n rest h.1 k.1) refl

length-brace : (m n : Text) → m ≡ n → length (m ++ codes "}") ≡ length (n ++ codes "}")
length-brace m n e = ap (λ t. length (t ++ codes "}")) e

replace-hole :
    (name by m rest : Text)
    → NoBraces name
    → NoBraces m
    → replace_from 0 (placeholder name) by (placeholder m ++ rest)
      ≡ (if text_eq m name then by else placeholder m) ++ replace_from 0 (placeholder name) by rest
unfolding replace_from starts_with
replace-hole name by m rest h k =
    let tail : (m ++ codes "}") ++ rest ≡ m ++ (b'}' ∷ rest) = append_assoc m (codes "}") rest in
    let same : starts_with ((m ++ codes "}") ++ rest) (name ++ codes "}") ≡ text_eq m name =
      ap (λ t. starts_with t (name ++ codes "}")) tail ∙ starts_with-name m name rest k h in
    elim (Bool-cases (text_eq m name)) [
      | inl e ↦
          let equal = length-brace m name ((text_eq_iff m name).0 e) in
          let size : length (placeholder name) - 1 ≡ length (m ++ codes "}") =
            omega (arith, equal) in
          rw (same, e)
            (ap (by ++◌) (
              ap (λ n. replace_from n (placeholder name) by ((m ++ codes "}") ++ rest)) size
              ∙ skip_lem (placeholder name) by (m ++ codes "}") rest))
      | inr e ↦
          rw (same, e)
            (ap (λ r. b'{' ∷ r) (pass_lem name by (m ++ codes "}") rest (NoBraces-NoOpening m k)))
    ]

pub replace-print :
    (name by : Text) (ps : List Piece)
    → NoBraces name
    → All IsPiece ps
    → replace_from 0 (placeholder name) by (print ps) ≡ print (fill name by ps)
unfolding replace_from starts_with
replace-print name by [] h k = refl
replace-print name by (char c ∷ ps) h k = rw k.0 (ap (λ r. c ∷ r) (replace-print name by ps h k.1))
replace-print name by (hole m ∷ ps) h k =
    replace-hole name by m (print ps) h k.0
    ∙ rw (replace-print name by ps h k.1) (elim (Bool-cases (text_eq m name)) [
      | inl e ↦ rw e (sym (print-append (chars by) (fill name by ps) ∙ rw print-chars refl))
      | inr e ↦ rw e refl
    ])

pub replace-absent : (p by s : Text) → contains s p ≡ false → replace_from 0 p by s ≡ s
unfolding contains replace_from
replace-absent p by [] h = refl
replace-absent p by (c ∷ cs) h = ground (arith, h, replace-absent p by cs)

All-chars : (s : Text) → NoOpening s → All IsPiece (chars s)
All-chars [] h = tt
All-chars (c ∷ cs) h = (h.0, All-chars cs h.1)

pub All-fill :
    (name by : Text) (ps : List Piece)
    → NoOpening by
    → All IsPiece ps
    → All IsPiece (fill name by ps)
All-fill name by [] h k = tt
All-fill name by (char c ∷ ps) h k = (k.0, All-fill name by ps h k.1)
All-fill name by (hole m ∷ ps) h k = elim (Bool-cases (text_eq m name)) [
  | inl e ↦
      rw e (
        All-append IsPiece (chars by) (fill name by ps) (All-chars by h)
          (All-fill name by ps h k.1))
  | inr e ↦ rw e (k.0, All-fill name by ps h k.1)
]
