-- ===== src/OpenApi/Placeholders.antt =====
-- What src/cli/openapi.rs puts in the places of a path's parameters.
use fusillade.Prelude.{
  List, [], ◌∷◌, ◌++◌, Option, none, some, Text, contains, replace_text, if◌then◌else◌, ◌≡◌, refl,
  ap, sym, ◌∙◌, All, text_eq, Bool-cases, inl, inr,
}
use fusillade.OpenApi.{
  JsonLib, Parameter, placeholder, value_of, resolve_params, resolve_path_params, Operation,
}
use fusillade.OpenApi.Pieces.{
  Piece, char, hole, print, NoOpening, NoBraces, IsPiece, fill, chars, replace-print,
  replace-absent, All-fill,
}

module _ (json : JsonLib) where
  -- What stands for a piece: the value of the first parameter of its name, if there is one.
  abbrev pub filled : List (Parameter json.J) → Piece → Text
  filled ps (char c) = c ∷ []
  filled [] (hole n) = placeholder n
  filled (p ∷ ps) (hole n) =
      let rest = filled ps (hole n) in if text_eq n p.name then value_of json p else rest

  abbrev pub all_filled : List (Parameter json.J) → List Piece → Text
  all_filled ps [] = []
  all_filled ps (q ∷ qs) = filled ps q ++ all_filled ps qs

  -- A name without braces, and a value without an opening one.
  abbrev pub IsPlain : Parameter json.J → Type 0
  IsPlain p = NoBraces p.name × NoOpening (value_of json p)

  all_filled-nil : (qs : List Piece) → print qs ≡ all_filled [] qs
  all_filled-nil [] = refl
  all_filled-nil (char c ∷ qs) = ap (λ r. c ∷ r) (all_filled-nil qs)
  all_filled-nil (hole n ∷ qs) = ap (placeholder n ++◌) (all_filled-nil qs)

  all_filled-chars :
      (ps : List (Parameter json.J)) (s : Text) (qs : List Piece)
      → all_filled ps (chars s ++ qs) ≡ s ++ all_filled ps qs
  all_filled-chars ps [] qs = refl
  all_filled-chars ps (c ∷ cs) qs = ap (λ r. c ∷ r) (all_filled-chars ps cs qs)

  all_filled-fill :
      (p : Parameter json.J) (ps : List (Parameter json.J)) (qs : List Piece)
      → all_filled ps (fill p.name (value_of json p) qs) ≡ all_filled (p ∷ ps) qs
  all_filled-fill p ps [] = refl
  all_filled-fill p ps (char c ∷ qs) = ap (λ r. c ∷ r) (all_filled-fill p ps qs)
  all_filled-fill p ps (hole n ∷ qs) = elim (Bool-cases (text_eq n p.name)) [
    | inl e ↦ rw e (
        all_filled-chars ps (value_of json p) (fill p.name (value_of json p) qs)
        ∙ ap (value_of json p ++◌) (all_filled-fill p ps qs))
    | inr e ↦ rw e (ap (filled ps (hole n) ++◌) (all_filled-fill p ps qs))
  ]

  resolve_params_lem :
      (ps : List (Parameter json.J)) (qs : List Piece)
      → All IsPlain ps
      → All IsPiece qs
      → resolve_params json ps (print qs) ≡ all_filled ps qs
  unfolding resolve_params
  resolve_params_lem [] qs h k = all_filled-nil qs
  resolve_params_lem (p ∷ ps) qs h k =
      let hole_name = placeholder p.name in
      let replaced : (if contains (print qs) hole_name
            then replace_text hole_name (value_of json p) (print qs)
            else print qs)
          ≡ replace_text hole_name (value_of json p) (print qs) =
        elim (Bool-cases (contains (print qs) hole_name)) [
          | inl e ↦ rw e refl
          | inr e ↦ rw e (sym (replace-absent hole_name (value_of json p) (print qs) e))
        ] in
      ap (resolve_params json ps) (replaced ∙ replace-print p.name (value_of json p) qs h.0.0 k)
      ∙ resolve_params_lem ps (fill p.name (value_of json p) qs) h.1
          (All-fill p.name (value_of json p) qs h.0.1 k)
      ∙ all_filled-fill p ps qs

  abbrev pub listed : Option (List (Parameter json.J)) → List (Parameter json.J)
  listed none = []
  listed (some ps) = ps

  resolve_path_params-listed :
      (path : Text) (op : Operation json.J) (ps : Option (List (Parameter json.J)))
      → op.parameters ≡ ps
      → resolve_path_params json path op ≡ resolve_params json (listed ps) path
  unfolding resolve_path_params resolve_params
  resolve_path_params-listed path op none e = rw e refl
  resolve_path_params-listed path op (some ps) e = rw e refl

  -- In a path each name in braces is replaced by the value of the first parameter of that name, wherever it
  -- stands, is left where there is none, and nothing else is changed, if names have no braces and values no
  -- opening one.
  pub resolve_path_params-print :
      (op : Operation json.J) (qs : List Piece)
      → All IsPlain (listed op.parameters)
      → All IsPiece qs
      → resolve_path_params json (print qs) op ≡ all_filled (listed op.parameters) qs
  resolve_path_params-print op qs h k =
      resolve_path_params-listed (print qs) op op.parameters refl
      ∙ resolve_params_lem (listed op.parameters) qs h k
