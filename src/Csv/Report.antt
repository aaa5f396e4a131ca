-- ===== src/Csv/Report.antt =====
-- The rows of a report, read back by the program's own reader.
use fusillade.Prelude.{
  ℕ, sub_u64, ◌≡◌, refl, sym, ap, ◌∙◌, true, List, [], ◌∷◌, ◌++◌, map, Text, codes, trim, All, ok,
  All-append, show_ℕ, append-nil,
}
use fusillade.Float.{Float}
use fusillade.Stats.Report.{ReportStats, HistogramReport, RateReport}
use fusillade.Csv.{
  csv_escape, parse_csv_line, row, rows, status_rows, check_rows, histogram_rows, custom_rows,
  rate_rows, safe_name, generate_csv,
}
use fusillade.Csv.Shared.{parse_file, lines_from}
use fusillade.Csv.Files.{HasNoBreak, parse_file-report}
use fusillade.Csv.Line.{IsPlain}
use fusillade.Csv.Rows.{
  fields, row_lem, plain_row, is_plain, literal, cons, both, show_ℕ-IsPlain, IsPlain-NoQuote,
}

module _ (fl : Float) where
  open fl use {F, display, fixed}

  abbrev counter_of : Text → ℕ → Text × Text × Text
  counter_of name n = (name, codes "counter", show_ℕ n)

  abbrev gauge_of : Text → ℕ → F → Text × Text × Text
  gauge_of name digits x = (name, codes "gauge", fixed digits x)

  abbrev check_fields : List (Text × (ℕ × ℕ)) → List (Text × Text × Text)
  check_fields [] = []
  check_fields ((name, (total, passes)) ∷ m) =
      counter_of (codes "check_" ++ (safe_name name ++ codes "_passed")) passes
      ∷ counter_of (codes "check_" ++ (safe_name name ++ codes "_failed")) (sub_u64 total passes)
      ∷ check_fields m

  abbrev histogram_fields : List (Text × HistogramReport F) → List (Text × Text × Text)
  histogram_fields [] = []
  histogram_fields ((name, hist) ∷ m) =
      counter_of (name ++ codes "_count") hist.count
      ∷ gauge_of (name ++ codes "_avg") 3 hist.avg
      ∷ gauge_of (name ++ codes "_p95") 3 hist.p95
      ∷ histogram_fields m

  -- The names, kinds and values of a report, as they are before any of them is escaped.
  abbrev pub report_fields : ReportStats F → List (Text × Text × Text)
  report_fields report =
      counter_of (codes "http_req_count") report.total_requests
      ∷ gauge_of (codes "http_req_duration_avg") 3 report.avg_latency_ms
      ∷ (codes "http_req_duration_min", codes "gauge", show_ℕ report.min_latency_ms)
      ∷ (codes "http_req_duration_max", codes "gauge", show_ℕ report.max_latency_ms)
      ∷ gauge_of (codes "http_req_duration_p50") 3 report.p50_latency_ms
      ∷ gauge_of (codes "http_req_duration_p90") 3 report.p90_latency_ms
      ∷ gauge_of (codes "http_req_duration_p95") 3 report.p95_latency_ms
      ∷ gauge_of (codes "http_req_duration_p99") 3 report.p99_latency_ms
      ∷ (map (λ p. counter_of (codes "http_req_status_" ++ show_ℕ p.0) p.1) report.status_codes
          ++ check_fields report.checks
          ++ histogram_fields report.histograms
          ++ map (λ p. (p.0, codes "counter", display p.1)) report.counters
          ++ map (λ p. gauge_of (p.0 ++ codes "_rate") 4 (p.1).rate) report.rates)

module _ (fl : Float) (plain_fixed : (n : ℕ) (x : fl.F) → IsPlain (fl.fixed n x))
    (plain_display : (x : fl.F) → IsPlain (fl.display x)) where
  counter_row_lem :
      (before name after : Text) (n : ℕ)
      → is_plain before ≡ true
      → is_plain after ≡ true
      → parse_csv_line (row (before ++ (csv_escape name ++ after)) (codes "counter") (show_ℕ n))
        ≡ fields (before ++ (name ++ after), codes "counter", show_ℕ n)
  counter_row_lem before name after n h k =
      row_lem before name after (codes "counter") (show_ℕ n) (literal before h) (literal after k)
        (IsPlain-NoQuote after (literal after k)) (literal (codes "counter") refl)
        (show_ℕ-IsPlain n)

  gauge_row_lem :
      (name after : Text) (d : ℕ) (x : fl.F)
      → is_plain after ≡ true
      → parse_csv_line (row (csv_escape name ++ after) (codes "gauge") (fl.fixed d x))
        ≡ fields (name ++ after, codes "gauge", fl.fixed d x)
  gauge_row_lem name after d x k =
      row_lem [] name after (codes "gauge") (fl.fixed d x) tt (literal after k)
        (IsPlain-NoQuote after (literal after k)) (literal (codes "gauge") refl) (plain_fixed d x)

  plain_gauge :
      (name : Text) (value : Text)
      → is_plain name ≡ true
      → IsPlain value
      → parse_csv_line (row name (codes "gauge") value) ≡ fields (name, codes "gauge", value)
  plain_gauge name value h k =
      plain_row name (codes "gauge") value (literal name h) (literal (codes "gauge") refl) k

  status_rows-fields :
      (m : List (ℕ × ℕ))
      → map parse_csv_line (status_rows fl m)
        ≡ map fields (map (λ p. counter_of fl (codes "http_req_status_" ++ show_ℕ p.0) p.1) m)
  unfolding status_rows
  status_rows-fields [] = refl
  status_rows-fields ((code, n) ∷ m) =
      cons
        (plain_row (codes "http_req_status_" ++ show_ℕ code) (codes "counter") (show_ℕ n)
          (All-append _ (codes "http_req_status_") (show_ℕ code)
            (literal (codes "http_req_status_") refl) (show_ℕ-IsPlain code))
          (literal (codes "counter") refl) (show_ℕ-IsPlain n))
        (status_rows-fields m)

  check_rows-fields :
      (m : List (Text × (ℕ × ℕ)))
      → map parse_csv_line (check_rows fl m) ≡ map fields (check_fields fl m)
  unfolding check_rows
  check_rows-fields [] = refl
  check_rows-fields ((name, (total, passes)) ∷ m) =
      cons (counter_row_lem (codes "check_") (safe_name name) (codes "_passed") passes refl refl) (
        cons
          (counter_row_lem (codes "check_") (safe_name name) (codes "_failed")
            (sub_u64 total passes) refl refl)
          (check_rows-fields m))

  histogram_rows-fields :
      (m : List (Text × HistogramReport fl.F))
      → map parse_csv_line (histogram_rows fl m) ≡ map fields (histogram_fields fl m)
  unfolding histogram_rows
  histogram_rows-fields [] = refl
  histogram_rows-fields ((name, hist) ∷ m) =
      cons (counter_row_lem [] name (codes "_count") hist.count refl refl) (
        cons (gauge_row_lem name (codes "_avg") 3 hist.avg refl)
          (cons (gauge_row_lem name (codes "_p95") 3 hist.p95 refl) (histogram_rows-fields m)))

  custom_rows-fields :
      (m : List (Text × fl.F))
      → map parse_csv_line (custom_rows fl m)
        ≡ map fields (map (λ p. (p.0, codes "counter", fl.display p.1)) m)
  unfolding custom_rows
  custom_rows-fields [] = refl
  custom_rows-fields ((name, value) ∷ m) =
      cons
        (ap (λ t. parse_csv_line (row t (codes "counter") (fl.display value)))
            (sym (append-nil (csv_escape name)))
          ∙ row_lem [] name [] (codes "counter") (fl.display value) tt tt tt
              (literal (codes "counter") refl) (plain_display value)
          ∙ ap (λ t. fields (t, codes "counter", fl.display value)) (append-nil name))
        (custom_rows-fields m)

  rate_rows-fields :
      (m : List (Text × RateReport fl.F))
      → map parse_csv_line (rate_rows fl m)
        ≡ map fields (map (λ p. gauge_of fl (p.0 ++ codes "_rate") 4 (p.1).rate) m)
  unfolding rate_rows
  rate_rows-fields [] = refl
  rate_rows-fields ((name, rate) ∷ m) =
      cons (gauge_row_lem name (codes "_rate") 4 rate.rate refl) (rate_rows-fields m)

  rows_lem :
      (report : ReportStats fl.F)
      → map parse_csv_line (rows fl report) ≡ map fields (report_fields fl report)
  unfolding rows
  rows_lem report =
      cons
        (plain_row (codes "http_req_count") (codes "counter") (show_ℕ report.total_requests)
          (literal (codes "http_req_count") refl) (literal (codes "counter") refl)
          (show_ℕ-IsPlain report.total_requests))
        (cons
          (plain_gauge (codes "http_req_duration_avg") _ refl (plain_fixed 3 report.avg_latency_ms))
          (cons
            (plain_gauge (codes "http_req_duration_min") _ refl
              (show_ℕ-IsPlain report.min_latency_ms))
            (cons
              (plain_gauge (codes "http_req_duration_max") _ refl
                (show_ℕ-IsPlain report.max_latency_ms))
              (cons
                (plain_gauge (codes "http_req_duration_p50") _ refl
                  (plain_fixed 3 report.p50_latency_ms))
                (cons
                  (plain_gauge (codes "http_req_duration_p90") _ refl
                    (plain_fixed 3 report.p90_latency_ms))
                  (cons
                    (plain_gauge (codes "http_req_duration_p95") _ refl
                      (plain_fixed 3 report.p95_latency_ms))
                    (cons
                      (plain_gauge (codes "http_req_duration_p99") _ refl
                        (plain_fixed 3 report.p99_latency_ms))
                      (both _ (rate_rows fl report.rates) _ _
                        (both _ (custom_rows fl report.counters) _ _
                          (both _ (histogram_rows fl report.histograms) _ _
                            (both (status_rows fl report.status_codes) (check_rows fl report.checks)
                              _ _ (status_rows-fields report.status_codes)
                              (check_rows-fields report.checks))
                            (histogram_rows-fields report.histograms))
                          (custom_rows-fields report.counters))
                        (rate_rows-fields report.rates)))))))))

  -- Where a number is printed without a comma or a quote, `parse_csv_line` reads from each row of the
  -- report its name, kind and value, each without the white space around it, whatever characters the
  -- names have; and where no row has a line break, `SharedCSV` reads the whole file as the headings and
  -- these rows.
  pub rows-fields :
      (report : ReportStats fl.F)
      → (map parse_csv_line (rows fl report) ≡ map fields (report_fields fl report))
        × (All HasNoBreak (rows fl report)
            → parse_file (lines_from [] (generate_csv fl report))
              ≡ ok (record {
                headers = codes "metric_name" ∷ codes "metric_type" ∷ codes "value" ∷ [];
                rows = map fields (report_fields fl report);
              }))
  unfolding parse_csv_line trim
  rows-fields report =
      let each = rows_lem report in
      (
        each,
        λ h.
            parse_file-report fl report h
            ∙ ap
                (λ r. ok (record {
                  headers = codes "metric_name" ∷ codes "metric_type" ∷ codes "value" ∷ [];
                  rows = r;
                }))
                each,
      )
