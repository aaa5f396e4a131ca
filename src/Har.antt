-- ===== src/Har.antt =====
-- src/cli/har.rs: the script that is made of the requests of a HAR file, from the point where the file has
-- been read and parsed.
pub mod Literals
use fusillade.Prelude.{List, [], ◌∷◌, ◌++◌, Option, none, some, Text, codes, replace}

pub record Request : Type 0 where
  pub method : Text
  pub url : Text
  pub headers : List (Text × Text)
  -- the text of `post_data`, if there is one
  pub post_data : Option (Option Text)

-- `writeln!`
abbrev pub line : Text → Text
line s = s ++ codes "\n"

-- what is done to the value of a header and to a body
unfoldable pub escape : Text → Text
unfolding replace
escape s = replace b'\'' (codes "\\'") (replace b'\\' (codes "\\\\") s)

-- a part of the object that is given to `http.request`: a name and a text
abbrev pub field : Text → Text → Text
field name value = line (name ++ (codes ": '" ++ (value ++ codes "',")))

unfoldable pub header_lines : List (Text × Text) → Text
unfolding escape
header_lines [] = []
header_lines ((name, value) ∷ hs) =
    field (codes "            '" ++ (name ++ codes "'")) (escape value) ++ header_lines hs

abbrev pub headers_part : List (Text × Text) → Text
headers_part [] = []
headers_part (h ∷ hs) =
    line (codes "        headers: {") ++ (header_lines (h ∷ hs) ++ line (codes "        },"))

abbrev pub body_part : Option (Option Text) → Text
body_part (some (some text)) = field (codes "        body") (escape text)
body_part _ = []

unfoldable pub entry_lines : Request → Text
unfolding header_lines
entry_lines r =
    line (codes "    http.request({")
    ++ (field (codes "        method") r.method
        ++ (field (codes "        url") r.url
            ++ (headers_part r.headers
                ++ (body_part r.post_data
                    ++ (line (codes "    })") ++ line (codes "    sleep(0.1);"))))))

unfoldable pub entries : List Request → Text
unfolding entry_lines
entries [] = []
entries (r ∷ rs) = entry_lines r ++ entries rs

-- `convert_from_string`
unfoldable pub convert : List Request → Text
unfolding entries
convert rs =
    line (codes "export const options = {")
    ++ (line (codes "    workers: 1,")
        ++ (line (codes "    duration: '10s'")
            ++ (line (codes "};")
                ++ (line []
                    ++ (line (codes "export default function() {")
                        ++ (entries rs ++ line (codes "}")))))))
