-- ===== src/Replay.antt =====
-- src/bridge/replay.rs: captured requests as cURL commands. The file of captured requests is JSON, which is
-- read and written by the crate serde_json.
pub mod Quotes
use fusillade.Prelude.{
  ℕ, ◌+◌, List, [], ◌∷◌, ◌++◌, Option, none, some, Text, codes, replace, join, show_ℕ, get_or,
}

pub record CapturedRequest : Type 0 where
  pub timestamp : Text
  pub method : Text
  pub url : Text
  pub headers : List (Text × Text)
  pub body : Option Text
  pub status : ℕ
  pub error : Option Text
  pub response_body : Option Text

unfoldable pub escape_value : Text → Text
unfolding replace
escape_value v = replace b'"' (codes "\\\"") v

unfoldable pub escape_body : Text → Text
unfolding replace
escape_body v = replace b'\n' (codes "\\n") (replace b'"' (codes "\\\"") v)

unfoldable pub header_parts : List (Text × Text) → List Text
unfolding escape_value
header_parts [] = []
header_parts ((key, value) ∷ hs) =
    (codes "-H \"" ++ (key ++ (codes ": " ++ (escape_value value ++ codes "\"")))) ∷ header_parts hs

unfoldable pub body_parts : Option Text → List Text
unfolding escape_body
body_parts none = []
body_parts (some []) = []
body_parts (some (c ∷ cs)) = (codes "-d \"" ++ (escape_body (c ∷ cs) ++ codes "\"")) ∷ []

unfoldable pub to_curl : CapturedRequest → Text
unfolding header_parts body_parts join
to_curl r = join (codes " \\\n  ") (
    (codes "curl -X " ++ r.method)
    ∷ (header_parts r.headers ++ (body_parts r.body ++ ((b'\'' ∷ (r.url ++ codes "'")) ∷ []))))

-- one command, under a comment that numbers it
unfoldable pub export_one : ℕ → CapturedRequest → Text
unfolding to_curl
export_one i r =
    codes "# Request "
    ++ (show_ℕ (i + 1)
        ++ (codes " - "
            ++ (r.method
                ++ (b' '
                    ∷ (r.url
                        ++ (codes " (Status: "
                            ++ (show_ℕ r.status
                                ++ (codes ", Error: "
                                    ++ (get_or r.error (codes "none")
                                        ++ (codes ")\n" ++ to_curl r))))))))))

unfoldable pub export_from : ℕ → List CapturedRequest → List Text
unfolding export_one
export_from i [] = []
export_from i (r ∷ rs) = export_one i r ∷ export_from (i + 1) rs

unfoldable pub export_to_curl : List CapturedRequest → Text
unfolding export_from join
export_to_curl rs = join (codes "\n\n") (export_from 0 rs)
