-- ===== src/Csv.antt =====
-- src/stats/csv.rs, the report of a run as CSV, and of src/bridge/data.rs the reader of CSV files:
-- `parse_csv_line` and `SharedCSV`. The text of a file is an argument, and an object of JavaScript is
-- the map of its properties.
pub mod Line
pub mod Rows
pub mod Report
pub mod Shared
pub mod Files
use fusillade.Prelude.{
  ℕ, sub_u64, Bool, true, false, ◌||◌, List, [], ◌∷◌, ◌++◌, map, Option, none, some, Text, codes,
  trim, ◌==◌, if◌then◌else◌, lookup, insert, text_key, show_ℕ, get_elem?,
}
use fusillade.Float.{Float}
use fusillade.Stats.Report.{ReportStats, HistogramReport, RateReport}

abbrev pub contains : ℕ → Text → Bool
contains c [] = false
contains c (x ∷ xs) = x == c || contains c xs

-- `replace('"', "\"\"")`
unfoldable pub double_quotes : Text → Text
double_quotes [] = []
double_quotes (c ∷ cs) = if c == b'"' then b'"' ∷ b'"' ∷ double_quotes cs else c ∷ double_quotes cs

unfoldable pub csv_escape : Text → Text
unfolding double_quotes
csv_escape value =
    if contains b',' value || contains b'"' value || contains b'\n' value || contains b'\r' value
    then b'"' ∷ (double_quotes value ++ codes "\"")
    else value

-- The loop of `parse_csv_line`: whether it is inside quotes, the field so far, and the rest of the
-- characters; the fields before are prepended by the caller.
unfoldable pub parse_fields : Bool → Text → Text → List Text
parse_fields in_quotes current [] = trim current ∷ []
parse_fields true current (c ∷ []) =
    if c == b'"' then trim current ∷ [] else trim (current ++ (c ∷ [])) ∷ []
parse_fields true current (c ∷ d ∷ cs) =
    let escaped = parse_fields true (current ++ codes "\"") cs in
    let ended = parse_fields false current (d ∷ cs) in
    let inside = parse_fields true (current ++ (c ∷ [])) (d ∷ cs) in
    if c == b'"' then (if d == b'"' then escaped else ended) else inside
parse_fields false current (c ∷ cs) =
    let next = parse_fields false [] cs in
    let quoted = parse_fields true current cs in
    let inside = parse_fields false (current ++ (c ∷ [])) cs in
    if c == b',' then trim current ∷ next else if c == b'"' then quoted else inside

unfoldable pub parse_csv_line : Text → List Text
unfolding parse_fields
parse_csv_line line = parse_fields false [] line

-- `name.replace([' ', ':'], "_")`
abbrev pub safe_name : Text → Text
safe_name = map (λ c. if c == b' ' || c == b':' then b'_' else c)

-- `{},{},{}`
abbrev pub row : Text → Text → Text → Text
row name kind value = name ++ (b',' ∷ (kind ++ (b',' ∷ value)))

module _ (fl : Float) where
  open fl use {F, display, fixed}

  abbrev counter_row : Text → ℕ → Text
  counter_row name n = row name (codes "counter") (show_ℕ n)

  abbrev gauge_row : Text → ℕ → F → Text
  gauge_row name digits x = row name (codes "gauge") (fixed digits x)

  unfoldable pub status_rows : List (ℕ × ℕ) → List Text
  status_rows [] = []
  status_rows ((code, count) ∷ m) =
      counter_row (codes "http_req_status_" ++ show_ℕ code) count ∷ status_rows m

  unfoldable pub check_rows : List (Text × (ℕ × ℕ)) → List Text
  unfolding csv_escape
  check_rows [] = []
  check_rows ((name, (total, passes)) ∷ m) =
      let safe = csv_escape (safe_name name) in
      counter_row (codes "check_" ++ (safe ++ codes "_passed")) passes
      ∷ counter_row (codes "check_" ++ (safe ++ codes "_failed")) (sub_u64 total passes)
      ∷ check_rows m

  unfoldable pub histogram_rows : List (Text × HistogramReport F) → List Text
  unfolding csv_escape
  histogram_rows [] = []
  histogram_rows ((name, hist) ∷ m) =
      let safe = csv_escape name in
      counter_row (safe ++ codes "_count") hist.count
      ∷ gauge_row (safe ++ codes "_avg") 3 hist.avg
      ∷ gauge_row (safe ++ codes "_p95") 3 hist.p95
      ∷ histogram_rows m

  unfoldable pub custom_rows : List (Text × F) → List Text
  unfolding csv_escape
  custom_rows [] = []
  custom_rows ((name, value) ∷ m) =
      row (csv_escape name) (codes "counter") (display value) ∷ custom_rows m

  unfoldable pub rate_rows : List (Text × RateReport F) → List Text
  unfolding csv_escape
  rate_rows [] = []
  rate_rows ((name, rate) ∷ m) =
      gauge_row (csv_escape name ++ codes "_rate") 4 rate.rate ∷ rate_rows m

  -- The lines of the output behind the heading.
  unfoldable pub rows : ReportStats F → List Text
  unfolding status_rows check_rows histogram_rows custom_rows rate_rows
  rows report =
      counter_row (codes "http_req_count") report.total_requests
      ∷ gauge_row (codes "http_req_duration_avg") 3 report.avg_latency_ms
      ∷ row (codes "http_req_duration_min") (codes "gauge") (show_ℕ report.min_latency_ms)
      ∷ row (codes "http_req_duration_max") (codes "gauge") (show_ℕ report.max_latency_ms)
      ∷ gauge_row (codes "http_req_duration_p50") 3 report.p50_latency_ms
      ∷ gauge_row (codes "http_req_duration_p90") 3 report.p90_latency_ms
      ∷ gauge_row (codes "http_req_duration_p95") 3 report.p95_latency_ms
      ∷ gauge_row (codes "http_req_duration_p99") 3 report.p99_latency_ms
      ∷ (status_rows report.status_codes
          ++ check_rows report.checks
          ++ histogram_rows report.histograms
          ++ custom_rows report.counters
          ++ rate_rows report.rates)

  abbrev pub unlines : List Text → Text
  unlines [] = []
  unlines (l ∷ ls) = l ++ (b'\n' ∷ unlines ls)

  unfoldable pub generate_csv : ReportStats F → Text
  unfolding rows
  generate_csv report = unlines (codes "metric_name,metric_type,value" ∷ rows report)
