-- ===== src/Csv/Shared.antt =====
-- `SharedCSV` of src/bridge/data.rs: a file is read by the first worker that names it. `read` is the
-- text of a file, if it can be read.
use fusillade.Prelude.{
  ℕ, ◌%◌, List, [], ◌∷◌, ◌++◌, Option, none, some, Text, trim, ◌==◌, if◌then◌else◌, lookup, insert,
  text_key, get_elem?, length, Result, ok, err,
}
use fusillade.Csv.{parse_csv_line}

-- the end of a line, without its carriage return
abbrev pub strip_return : Text → Text
strip_return [] = []
strip_return (c ∷ []) = if c == b'\r' then [] else c ∷ []
strip_return (c ∷ d ∷ cs) = c ∷ strip_return (d ∷ cs)

-- `str::lines`, with the line so far; what is behind the last line feed is a line if it is not empty.
unfoldable pub lines_from : Text → Text → List Text
lines_from [] [] = []
lines_from (l ∷ ls) [] = (l ∷ ls) ∷ []
lines_from line (c ∷ cs) =
    let next = lines_from [] cs in
    let longer = lines_from (line ++ (c ∷ [])) cs in
    if c == b'\n' then strip_return line ∷ next else longer

pub record SharedCsv : Type 0 where
  pub headers : List Text
  pub rows : List (List Text)

pub data CsvError : Type 0 where
  unreadable : CsvError
  empty_file : CsvError

abbrev pub CsvData : Type 0
CsvData = List (Text × SharedCsv)

-- `lines.filter(|line| !line.trim().is_empty()).map(parse_csv_line)`
unfoldable pub parse_rows : List Text → List (List Text)
parse_rows [] = []
parse_rows (line ∷ lines) = elim (trim line) [
  | [] ↦ parse_rows lines
  | _ ∷ _ ↦ parse_csv_line line ∷ parse_rows lines
]

unfoldable pub parse_file : List Text → Result SharedCsv CsvError
unfolding parse_rows
parse_file [] = err empty_file
parse_file (header ∷ lines) =
    ok (record { headers = parse_csv_line header; rows = parse_rows lines })

-- the cache and the result, once the file is parsed
unfoldable pub keep :
    Text → Result SharedCsv CsvError → CsvData → CsvData × Result SharedCsv CsvError
keep path (ok csv) cache = (insert path csv cache, ok csv)
keep path (err e) cache = (cache, err e)

-- the cache and the result, with what was found under the path
unfoldable pub load :
    Text → Option SharedCsv → Option Text → CsvData → CsvData × Result SharedCsv CsvError
unfolding keep parse_file lines_from
load path (some csv) content cache = (cache, ok csv)
load path none none cache = (cache, err unreadable)
load path none (some content) cache = keep path (parse_file (lines_from [] content)) cache

-- The constructor.
unfoldable pub new : (Text → Option Text) → Text → CsvData → CsvData × Result SharedCsv CsvError
unfolding load
new read path cache = load path (lookup path cache) (read path) cache

-- The properties that are set: a header, and the value at its place if the row has one.
unfoldable pub get_row : List Text → List Text → List (Text × Text) → List (Text × Text)
get_row [] row obj = obj
get_row (h ∷ hs) [] obj = obj
get_row (h ∷ hs) (v ∷ vs) obj = get_row hs vs (insert h v obj)

-- `undefined` is `none`.
unfoldable pub get : SharedCsv → ℕ → Option (List (Text × Text))
unfolding get_row
get csv index = elim (get_elem? csv.rows index) [
  | none ↦ none
  | some row ↦ some (get_row csv.headers row [])
]

-- `number` is what the generator gives.
unfoldable pub random : SharedCsv → ℕ → Option (List (Text × Text))
unfolding get
random csv number = if length csv.rows == 0 then none else get csv (number % length csv.rows)

-- Later loads, each with what can be read then and its path.
unfoldable pub new_all : List ((Text → Option Text) × Text) → CsvData → CsvData
unfolding new
new_all [] cache = cache
new_all ((read, path) ∷ loads) cache = new_all loads (new read path cache).0
