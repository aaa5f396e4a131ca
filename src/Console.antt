-- ===== src/Console.antt =====
-- The console of a script in src/bridge/mod.rs: what is logged at which level, and tables. A value of the
-- script engine is what the code asks of it.
pub mod Aligned
use fusillade.Prelude.{
  ℕ, zero, suc, ◌-◌, max, Bool, true, false, not, List, [], ◌∷◌, ◌++◌, map, Option, none, some,
  Text, codes, leb, if◌then◌else◌, length, byte_len, join, text_eq, strip_prefix,
}
use fusillade.Stats.Types.{Metric, log}

-- `number` is printed by Rust; an object may be an array.
pub data Shape : Type 0 where
  undefined : Shape
  null : Shape
  string : Option Text → Shape
  number : Text → Shape
  boolean : Bool → Shape
  object : Shape
  other : Shape

-- The calls of `rquickjs`: the kind of a value, the elements of an array, where a `get` may fail, and the
-- keys of an object with its `get`.
pub record Values : Type 1 where
  pub V : Type 0
  pub shape : V → Shape
  pub as_array : V → Option (List (Option V))
  pub as_object : V → Option (List Text × (Text → Option V))

pub data LogLevel : Type 0 where
  debug : LogLevel
  info : LogLevel
  warn : LogLevel
  error : LogLevel

abbrev rank : LogLevel → ℕ
rank debug = 0
rank info = 1
rank warn = 2
rank error = 3

-- The state of a worker's thread.
pub record Logging : Type 0 where
  pub log_level : LogLevel
  pub log_filter : Option Text
  pub current_scenario : Option Text

-- whether the filter keeps a message back
unfoldable pub is_filtered : Logging → Bool
is_filtered l = elim l.log_filter [
  | none ↦ false
  | some f ↦ elim (strip_prefix (codes "scenario=") f) [
    | none ↦ false
    | some name ↦ elim l.current_scenario [
      | none ↦ true
      | some current ↦ not (text_eq current name)
    ]
  ]
]

abbrev pub prefix_of : LogLevel → Text
prefix_of debug = codes "[DEBUG] "
prefix_of info = []
prefix_of warn = codes "[WARN] "
prefix_of error = codes "[ERROR] "

abbrev pub repeat : ℕ → ℕ → Text
repeat c zero = []
repeat c (suc n) = c ∷ repeat c n

-- `{:width$}`
abbrev pub pad : ℕ → Text → Text
pad width s = s ++ repeat b' ' (width - length s)

-- The cells at the widths of their columns; a cell without a column is as wide as it is.
abbrev pub pad_all : List ℕ → List Text → List Text
pad_all ws [] = []
pad_all [] (c ∷ cs) = pad 0 c ∷ pad_all [] cs
pad_all (w ∷ ws) (c ∷ cs) = pad w c ∷ pad_all ws cs

-- each column as wide as its cell in one more row
abbrev pub widen : List ℕ → List Text → List ℕ
widen [] cells = []
widen (w ∷ ws) [] = w ∷ ws
widen (w ∷ ws) (c ∷ cs) = max w (byte_len c) ∷ widen ws cs

abbrev pub widen_all : List ℕ → List (List Text) → List ℕ
widen_all ws [] = ws
widen_all ws (row ∷ rows) = widen_all (widen ws row) rows

unfoldable pub column_widths : List Text → List (List Text) → List ℕ
column_widths headers rows = widen_all (map byte_len headers) rows

abbrev pub line : Text → Text
line s = s ++ codes "\n"

abbrev pub row_line : List ℕ → List Text → Text
row_line ws cells = join (codes " | ") (pad_all ws cells)

abbrev pub separator : List ℕ → Text
separator ws = join (codes "-+-") (map (repeat b'-') ws)

abbrev pub row_lines : List ℕ → List (List Text) → Text
row_lines ws [] = []
row_lines ws (row ∷ rows) = line (row_line ws row) ++ row_lines ws rows

abbrev pub head_lines : List ℕ → List Text → Text
head_lines ws [] = []
head_lines ws (h ∷ hs) = line (row_line ws (h ∷ hs)) ++ line (separator ws)

unfoldable pub print_table : List Text → List (List Text) → Text
unfolding column_widths
print_table headers rows =
    let ws = column_widths headers rows in head_lines ws headers ++ row_lines ws rows

module _ (js : Values) where
  unfoldable pub format_value : js.V → Text
  format_value v = elim (js.shape v) [
    | undefined ↦ codes "undefined"
    | null ↦ codes "null"
    | string (some s) ↦ s
    | string none ↦ []
    | number n ↦ n
    | boolean true ↦ codes "true"
    | boolean false ↦ codes "false"
    | object ↦ codes "[object]"
    | other ↦ codes "[value]"
  ]

  -- What is sent for the aggregator, if the message is not kept back.
  unfoldable pub log_with_level : {F : Type 0} → LogLevel → Logging → List js.V → Option (Metric F)
  unfolding is_filtered format_value
  log_with_level level l args =
      if not (leb (rank l.log_level) (rank level))
      then none
      else if is_filtered l
      then none
      else some (log (prefix_of level ++ join (codes " ") (map format_value args)))

  abbrev pub cell : Option js.V → Text
  cell none = []
  cell (some v) = format_value v

  abbrev pub row_of : List Text → (Text → Option js.V) → List Text
  row_of headers get = map (λ h. cell (get h)) headers

  abbrev pub keys_if_none : List Text → List Text → List Text
  keys_if_none [] keys = keys
  keys_if_none (h ∷ hs) keys = h ∷ hs

  -- The headers and the rows of an array's elements: the first object with keys gives the headers.
  unfoldable pub collect : List (Option js.V) → List Text → List Text × List (List Text)
  unfolding format_value
  collect [] headers = (headers, [])
  collect (none ∷ items) headers = collect items headers
  collect (some v ∷ items) headers = elim (js.as_object v) [
    | none ↦ let (hs, rows) = collect items headers in (hs, (format_value v ∷ []) ∷ rows)
    | some (keys, get) ↦
        let known = keys_if_none headers keys in
        let (hs, rows) = collect items known in (hs, row_of known get ∷ rows)
  ]

  abbrev pub table_or : Text → List Text × List (List Text) → Text
  table_or text ([], []) = text
  table_or text (headers, rows) = print_table headers rows

  unfoldable pub format_table : List js.V → Text
  unfolding collect format_value print_table
  format_table [] = []
  format_table (v ∷ vs) = elim (js.as_array v) [
    | none ↦ format_value v
    | some items ↦ table_or (format_value v) (collect items [])
  ]

  -- `console.table`
  unfoldable pub table_message : {F : Type 0} → Logging → List js.V → Option (Metric F)
  unfolding format_table
  table_message l args =
      if leb (rank l.log_level) (rank info) then some (log (format_table args)) else none
