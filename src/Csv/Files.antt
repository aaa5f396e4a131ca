-- ===== src/Csv/Files.antt =====
-- The report of src/stats/csv.rs as a file that `SharedCSV` of src/bridge/data.rs reads: its lines.
use mathlib.Core.List.{reverse-append}
use fusillade.Prelude.{
  show_ℕ, sub_u64, ℕ, true, false, ◌||◌, ◌≡◌, refl, sym, ap, ◌∙◌, List, [], ◌∷◌, ◌++◌, map, Text,
  codes, arith, All, All-append, trim, trim_start, trim_end, is_whitespace, reverse, append_assoc,
  append-nil, ◌==◌, ==_iff, ok,
}
use fusillade.Float.{Float}
use fusillade.Stats.Report.{ReportStats, HistogramReport, RateReport}
use fusillade.Csv.{
  contains, row, rows, status_rows, check_rows, histogram_rows, custom_rows, rate_rows,
  parse_csv_line, generate_csv, unlines, csv_escape, safe_name,
}
use fusillade.Csv.Shared.{parse_file, lines_from, strip_return, parse_rows}

abbrev pub HasNoBreak : Text → Type 0
HasNoBreak = All (λ c. (c == b'\n' || c == b'\r') ≡ false)

abbrev HasComma : Text → Type 0
HasComma s = contains b',' s ≡ true

strip_return_self : (s : Text) → HasNoBreak s → strip_return s ≡ s
strip_return_self [] h = refl
strip_return_self (c ∷ []) h = ground (arith, h.0)
strip_return_self (c ∷ d ∷ cs) h = ap (λ r. c ∷ r) (strip_return_self (d ∷ cs) h.1)

lines_from-line :
    (acc l rest : Text)
    → HasNoBreak acc
    → HasNoBreak l
    → lines_from acc (l ++ (b'\n' ∷ rest)) ≡ (acc ++ l) ∷ lines_from [] rest
unfolding lines_from
lines_from-line acc [] rest h k =
    ap (λ l. l ∷ lines_from [] rest) (strip_return_self acc h ∙ sym (append-nil acc))
lines_from-line acc (c ∷ cs) rest h k =
    let other : (c == b'\n') ≡ false = ground (arith, k.0) in
    let longer = All-append _ acc (c ∷ []) h (k.0, tt) in
    rw other (
      lines_from-line (acc ++ (c ∷ [])) cs rest longer k.1
      ∙ ap (λ l. l ∷ lines_from [] rest) (append_assoc acc (c ∷ []) cs))

lines_from-unlines :
    (F : Float) (ls : List Text) → All HasNoBreak ls → lines_from [] (unlines F ls) ≡ ls
unfolding lines_from
lines_from-unlines F [] h = refl
lines_from-unlines F (l ∷ ls) h =
    lines_from-line [] l (unlines F ls) tt h.0 ∙ ap (λ r. l ∷ r) (lines_from-unlines F ls h.1)

contains-append : (c : ℕ) (x y : Text) → contains c (x ++ y) ≡ (contains c x || contains c y)
contains-append c [] y = refl
contains-append c (d ∷ x) y = ground (arith, contains-append c x y)

contains-reverse : (c : ℕ) (x : Text) → contains c (reverse x) ≡ contains c x
contains-reverse c [] = refl
contains-reverse c (d ∷ x) =
    ap (contains c) (reverse-append (d ∷ []) x)
    ∙ contains-append c (reverse x) (d ∷ [])
    ∙ ground (arith, contains-reverse c x)

trim_start-HasComma : (s : Text) → HasComma s → HasComma (trim_start s)
unfolding trim_start is_whitespace
trim_start-HasComma [] h = h
trim_start-HasComma (c ∷ cs) h = ground (arith, h, trim_start-HasComma cs, ==_iff c b',')

trim-HasComma : (s : Text) → HasComma s → HasComma (trim s)
unfolding trim trim_end
trim-HasComma s h =
    contains-reverse b',' (trim_start (reverse (trim_start s)))
    ∙ trim_start-HasComma (reverse (trim_start s))
        (contains-reverse b',' (trim_start s) ∙ trim_start-HasComma s h)

row-HasComma : (name kind value : Text) → HasComma (row name kind value)
row-HasComma name kind value =
    contains-append b',' name (b',' ∷ (kind ++ (b',' ∷ value))) ∙ ground arith

parse_rows-line :
    (l trimmed : Text) (ls : List Text)
    → trim l ≡ trimmed
    → HasComma trimmed
    → parse_rows (l ∷ ls) ≡ parse_csv_line l ∷ parse_rows ls
unfolding parse_rows
parse_rows-line l [] ls e h = cc
parse_rows-line l (c ∷ cs) ls e h = rw (e, parse_rows) refl

-- No line with a comma is left out as blank.
parse_rows_commas : (ls : List Text) → All HasComma ls → parse_rows ls ≡ map parse_csv_line ls
unfolding parse_rows
parse_rows_commas [] h = refl
parse_rows_commas (l ∷ ls) h =
    parse_rows-line l (trim l) ls refl (trim-HasComma l h.0)
    ∙ ap (λ r. parse_csv_line l ∷ r) (parse_rows_commas ls h.1)

module _ (fl : Float) where
  status_rows-HasComma : (m : List (ℕ × ℕ)) → All HasComma (status_rows fl m)
  unfolding status_rows
  status_rows-HasComma [] = tt
  status_rows-HasComma ((code, n) ∷ m) = (
    row-HasComma (codes "http_req_status_" ++ show_ℕ code) (codes "counter") (show_ℕ n),
    status_rows-HasComma m,
  )

  check_rows-HasComma : (m : List (Text × (ℕ × ℕ))) → All HasComma (check_rows fl m)
  unfolding check_rows
  check_rows-HasComma [] = tt
  check_rows-HasComma ((name, (total, passes)) ∷ m) =
      let safe = csv_escape (safe_name name) in
      (
        row-HasComma (codes "check_" ++ (safe ++ codes "_passed")) (codes "counter")
            (show_ℕ passes),
        (
          row-HasComma (codes "check_" ++ (safe ++ codes "_failed")) (codes "counter")
              (show_ℕ (sub_u64 total passes)),
          check_rows-HasComma m,
        ),
      )

  histogram_rows-HasComma :
      (m : List (Text × HistogramReport fl.F)) → All HasComma (histogram_rows fl m)
  unfolding histogram_rows
  histogram_rows-HasComma [] = tt
  histogram_rows-HasComma ((name, h) ∷ m) = (
    row-HasComma (csv_escape name ++ codes "_count") (codes "counter") (show_ℕ h.count),
    (
      row-HasComma (csv_escape name ++ codes "_avg") (codes "gauge") (fl.fixed 3 h.avg),
      (
        row-HasComma (csv_escape name ++ codes "_p95") (codes "gauge") (fl.fixed 3 h.p95),
        histogram_rows-HasComma m,
      ),
    ),
  )

  custom_rows-HasComma : (m : List (Text × fl.F)) → All HasComma (custom_rows fl m)
  unfolding custom_rows
  custom_rows-HasComma [] = tt
  custom_rows-HasComma ((name, v) ∷ m) =
      (row-HasComma (csv_escape name) (codes "counter") (fl.display v), custom_rows-HasComma m)

  rate_rows-HasComma : (m : List (Text × RateReport fl.F)) → All HasComma (rate_rows fl m)
  unfolding rate_rows
  rate_rows-HasComma [] = tt
  rate_rows-HasComma ((name, r) ∷ m) = (
    row-HasComma (csv_escape name ++ codes "_rate") (codes "gauge") (fl.fixed 4 r.rate),
    rate_rows-HasComma m,
  )

  rows-HasComma : (report : ReportStats fl.F) → All HasComma (rows fl report)
  unfolding rows
  rows-HasComma report =
      let status = status_rows fl report.status_codes in
      let checks = check_rows fl report.checks in
      let histograms = histogram_rows fl report.histograms in
      let custom = custom_rows fl report.counters in
      let two =
        All-append HasComma status checks (status_rows-HasComma report.status_codes)
          (check_rows-HasComma report.checks) in
      let three =
        All-append HasComma (status ++ checks) histograms two
          (histogram_rows-HasComma report.histograms) in
      let four =
        All-append HasComma ((status ++ checks) ++ histograms) custom three
          (custom_rows-HasComma report.counters) in
      let rest =
        All-append HasComma (((status ++ checks) ++ histograms) ++ custom)
          (rate_rows fl report.rates) four (rate_rows-HasComma report.rates) in
      (refl, (refl, (refl, (refl, (refl, (refl, (refl, (refl, rest))))))))

  -- Without line breaks in the rows the lines of the file are the headings and the rows.
  pub parse_file-report :
      (report : ReportStats fl.F)
      → All HasNoBreak (rows fl report)
      → parse_file (lines_from [] (generate_csv fl report))
        ≡ ok (record {
          headers = parse_csv_line (codes "metric_name,metric_type,value");
          rows = map parse_csv_line (rows fl report);
        })
  unfolding parse_file generate_csv
  parse_file-report report h =
      let header = codes "metric_name,metric_type,value" in
      ap parse_file (lines_from-unlines fl (header ∷ rows fl report) (ground arith, h))
      ∙ ap (λ r. ok (record { headers = parse_csv_line header; rows = r }))
          (parse_rows_commas (rows fl report) (rows-HasComma report))
