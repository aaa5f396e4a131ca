-- ===== src/Tests/Exports.antt =====
-- The theorems on scripts and commands that are written out, at concrete inputs.
use fusillade.OpenApi.{JsonLib, Operation, resolve_path_params, value_of}
use fusillade.OpenApi.Pieces.{Piece, char, hole, print}
use fusillade.OpenApi.Placeholders.{listed, all_filled, resolve_path_params-print}
use fusillade.Prelude.{
  ℕ, List, show_ℕ, ◌≡◌, refl, [], ◌∷◌, ◌++◌, none, some, Text, codes, if◌then◌else◌,
}
use fusillade.Har.{header_lines, body_part}
use fusillade.Har.Literals.{read_literal, has_newline, read_literal-escape}
use fusillade.Replay.{header_parts, body_parts}
use fusillade.Replay.Quotes.{read_quoted, has_expansion, flat, read_quoted-escape}

read_literal-escape_example :
    ((literal : Text) × (header_lines ((codes "Cookie", codes "a='b'") ∷ [])
        ≡ codes "            '" ++ (codes "Cookie" ++ (codes "': '" ++ literal)))
      × (read_literal literal ≡ (
          if has_newline (codes "a='b'")
          then none
          else some (codes "a='b'", codes ",\n" ++ header_lines []))))
    × ((literal : Text) × (body_part (some (some (codes "one\ntwo"))) ++ codes "})"
          ≡ codes "        body: '" ++ literal)
        × (read_literal literal ≡ (
            if has_newline (codes "one\ntwo")
            then none
            else some (codes "one\ntwo", codes ",\n" ++ codes "})"))))
read_literal-escape_example =
    read_literal-escape (codes "Cookie") (codes "a='b'") (codes "one\ntwo") (codes "})") []

read_quoted-escape_example :
    ((quoted : Text) × (header_parts ((codes "If-Match", codes "\"7\"") ∷ [])
        ≡ (codes "-H \"" ++ (codes "If-Match" ++ (codes ": " ++ quoted))) ∷ [])
      × (read_quoted (quoted ++ codes " \\")
          ≡ (if has_expansion (codes "\"7\"") then none else some (codes "\"7\"", codes " \\"))))
    × ((quoted : Text) × (body_parts (some (codes "a\n$b")) ≡ (codes "-d \"" ++ quoted) ∷ [])
        × (read_quoted (quoted ++ codes " \\") ≡ (
            if has_expansion (codes "a\n$b")
            then none
            else some (flat (codes "a\n$b"), codes " \\"))))
read_quoted-escape_example =
    read_quoted-escape (codes "If-Match") (codes "\"7\"") b'a' (codes "\n$b") (codes " \\")
      (refl, (refl, (refl, tt))) (refl, (refl, (refl, (refl, tt))))

abbrev json : JsonLib
json = record { J = ℕ; as_str = λ v. none; display = show_ℕ; to_json = λ v. some (show_ℕ v) }

abbrev operation : Operation ℕ
operation = record {
  summary = none;
  operation_id = none;
  request_body = none;
  parameters = some (record { name = codes "id"; example = some 42 } ∷ []);
}

abbrev pieces : List Piece
pieces = char b'/' ∷ hole (codes "id") ∷ char b'/' ∷ hole (codes "key") ∷ []

resolve_path_params-print_example :
    resolve_path_params json (print pieces) operation
    ≡ all_filled json (listed json operation.parameters) pieces
unfolding value_of show_ℕ
resolve_path_params-print_example =
    resolve_path_params-print json operation pieces (((refl, (refl, tt)), (refl, (refl, tt))), tt)
      (refl, ((refl, (refl, tt)), (refl, ((refl, (refl, (refl, tt))), tt))))
