-- ===== src/OpenApi.antt =====
-- src/cli/openapi.rs: the script that is made of an OpenAPI document, from the point where the file has been
-- read and parsed. `J` stands for `serde_json::Value`.
pub mod Pieces
pub mod Placeholders
use fusillade.Prelude.{
  ℕ, Bool, List, [], ◌∷◌, ◌++◌, Option, none, some, Text, codes, contains, replace_text, lookup,
  text_key, ◌==◌, if◌then◌else◌, reverse,
}

-- The calls of `serde_json`: the text of a `Value::String`, `to_string` of a value, and
-- `serde_json::to_string`, none where it is an error.
pub record JsonLib : Type 1 where
  pub J : Type 0
  pub as_str : J → Option Text
  pub display : J → Text
  pub to_json : J → Option Text

pub record MediaType (J : Type 0) : Type 0 where
  pub example : Option J
  -- the example of the schema, if there is a schema
  pub schema : Option (Option J)

pub record Parameter (J : Type 0) : Type 0 where
  pub name : Text
  pub example : Option J

-- `request_body` is its `content`.
pub record Operation (J : Type 0) : Type 0 where
  pub summary : Option Text
  pub operation_id : Option Text
  pub request_body : Option (Option (List (Text × MediaType J)))
  pub parameters : Option (List (Parameter J))

pub record PathItem (J : Type 0) : Type 0 where
  pub get : Option (Operation J)
  pub post : Option (Operation J)
  pub put : Option (Operation J)
  pub delete : Option (Operation J)
  pub patch : Option (Operation J)

-- The addresses of the servers, and the paths in the order of the `BTreeMap`.
pub record OpenApiSpec (J : Type 0) : Type 0 where
  pub servers : Option (List Text)
  pub paths : List (Text × PathItem J)

-- `writeln!`
abbrev line : Text → Text
line s = s ++ codes "\n"

abbrev or_else : {A : Type 0} → Option A → Option A → Option A
or_else (some x) y = some x
or_else none y = y

abbrev unwrap_or : {A : Type 0} → A → Option A → A
unwrap_or d none = d
unwrap_or d (some x) = x

-- `trim_end_matches('/')`, on the text from its end
abbrev skip_slashes : Text → Text
skip_slashes [] = []
skip_slashes (c ∷ cs) = let rest = skip_slashes cs in if c == b'/' then rest else c ∷ cs

unfoldable pub base_url : Option (List Text) → Text
base_url (some (url ∷ urls)) = reverse (skip_slashes (reverse url))
base_url _ = codes "https://api.example.com"

-- `{name}`
abbrev pub placeholder : Text → Text
placeholder name = b'{' ∷ (name ++ codes "}")

module _ (json : JsonLib) where
  -- what is put in the place of a parameter
  unfoldable pub value_of : Parameter json.J → Text
  value_of p = elim p.example [
    | none ↦ p.name
    | some v ↦ elim (json.as_str v) [ none ↦ json.display v | some s ↦ s ]
  ]

  unfoldable pub resolve_params : List (Parameter json.J) → Text → Text
  unfolding contains value_of
  resolve_params [] resolved = resolved
  resolve_params (p ∷ ps) resolved = resolve_params ps (
      if contains resolved (placeholder p.name)
      then replace_text (placeholder p.name) (value_of p) resolved
      else resolved)

  unfoldable pub resolve_path_params : Text → Operation json.J → Text
  unfolding resolve_params
  resolve_path_params path op = elim op.parameters [
    | none ↦ path
    | some ps ↦ resolve_params ps path
  ]

  abbrev first : List (Text × MediaType json.J) → Option (MediaType json.J)
  first [] = none
  first ((k, v) ∷ _) = some v

  abbrev json_of : json.J → Text
  json_of example = unwrap_or (codes "{}") (json.to_json example)

  unfoldable pub media_body : MediaType json.J → Text
  media_body media = elim media.example [
    | some example ↦ json_of example
    | none ↦ elim media.schema [
      | some (some example) ↦ json_of example
      | some none ↦ codes "{}"
      | none ↦ codes "{}"
    ]
  ]

  unfoldable pub extract_example_body : Operation json.J → Text
  unfolding media_body lookup
  extract_example_body op = elim op.request_body [
    | some (some content) ↦
        elim (or_else (lookup (codes "application/json") content) (first content)) [
          | some media ↦ media_body media
          | none ↦ codes "{}"
        ]
    | some none ↦ codes "{}"
    | none ↦ codes "{}"
  ]

  -- the call that a GET, a DELETE and any other operation becomes
  abbrev get_call : Text → Operation json.J → Text
  get_call url op = line (
      codes "    http.get(BASE_URL + '"
      ++ (url ++ codes "', { headers: {'Content-Type': 'application/json'} });"))

  abbrev delete_call : Text → Operation json.J → Text
  delete_call url op = line (codes "    http.del(BASE_URL + '" ++ (url ++ codes "');"))

  unfoldable pub request_call : Text → Text → Operation json.J → Text
  unfolding extract_example_body
  request_call method url op =
      line (codes "    http.request({")
      ++ (line (codes "        method: '" ++ (method ++ codes "',"))
          ++ (line (codes "        url: BASE_URL + '" ++ (url ++ codes "',"))
              ++ (line (codes "        headers: {'Content-Type': 'application/json'},")
                  ++ (line (
                        codes "        body: JSON.stringify("
                        ++ (extract_example_body op ++ codes ")"))
                      ++ line (codes "    });")))))

  unfoldable pub operation_lines :
      Text → Text → (Text → Operation json.J → Text) → Option (Operation json.J) → Text
  unfolding resolve_path_params
  operation_lines path method call none = []
  operation_lines path method call (some op) =
      line (
        codes "    // "
        ++ unwrap_or (method ++ (codes " " ++ path)) (or_else op.summary op.operation_id))
      ++ (call (resolve_path_params path op) op ++ line (codes "    sleep(0.1);"))

  unfoldable pub path_lines : Text → PathItem json.J → Text
  unfolding operation_lines request_call
  path_lines path item =
      operation_lines path (codes "GET") get_call item.get
      ++ (operation_lines path (codes "POST") (request_call (codes "POST")) item.post
          ++ (operation_lines path (codes "PUT") (request_call (codes "PUT")) item.put
              ++ (operation_lines path (codes "DELETE") delete_call item.delete
                  ++ operation_lines path (codes "PATCH") (request_call (codes "PATCH"))
                      item.patch)))

  unfoldable pub all_lines : List (Text × PathItem json.J) → Text
  unfolding path_lines
  all_lines [] = []
  all_lines ((path, item) ∷ rest) = path_lines path item ++ all_lines rest

  unfoldable pub convert_from_spec : OpenApiSpec json.J → Text
  unfolding all_lines base_url
  convert_from_spec spec =
      line (codes "export const options = {")
      ++ (line (codes "    workers: 1,")
          ++ (line (codes "    duration: '10s'")
              ++ (line (codes "};")
                  ++ (line []
                      ++ (line (codes "const BASE_URL = '" ++ (base_url spec.servers ++ codes "';"))
                          ++ (line []
                              ++ (line (codes "export default function() {")
                                  ++ (all_lines spec.paths ++ line (codes "}")))))))))
