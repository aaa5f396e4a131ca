-- ===== src/Statsd/Delivery.antt =====
-- The metrics of a whole report, and what the receiver of an export gets.
use fusillade.Prelude.{ℕ, ◌≡◌, refl, true, false, List, ◌++◌, Text, codes, All, All-append, Bool}
use fusillade.Float.{Float}
use fusillade.Stats.Report.{ReportStats}
use fusillade.Statsd.{
  error_metrics, status_metrics, endpoint_metrics, histogram_metrics, custom_metrics, rate_metrics,
  check_metrics, core_metrics, transfer_metrics, build_metrics, sum_checks, sum_counts, with_prefix,
  export,
}
use fusillade.Statsd.Packets.{IsLine, IsBounded, lines_of, export_loop-lines}
use fusillade.Statsd.Lines.{OneLine, show_ℕ-OneLine, untagged}
use fusillade.Statsd.Groups.{
  error_metrics-lines, status_metrics-lines, endpoint_metrics-lines, histogram_metrics-lines,
  custom_metrics-lines, rate_metrics-lines, check_metrics-lines,
}

-- Metrics that are lines, and two such lists in a row.
abbrev Lines : Type 0
Lines = (ms : List Text) × All IsLine ms

abbrev then_lines : Lines → Lines → Lines
then_lines (xs, h) (ys, k) = (xs ++ ys, All-append IsLine xs ys h k)

module _ (fl : Float) (alphanumeric : ℕ → Bool) (prefix : Text)
    (no_feed : alphanumeric b'\n' ≡ false) (plain_prefix : OneLine prefix)
    (plain_fixed : (n : ℕ) (x : fl.F) → OneLine (fl.fixed n x))
    (plain_display : (x : fl.F) → OneLine (fl.display x)) where
  core_metrics-lines :
      (report : ReportStats fl.F) → All IsLine (core_metrics fl alphanumeric prefix report)
  unfolding core_metrics
  core_metrics-lines report = (
    untagged alphanumeric prefix no_feed plain_prefix b'.' (codes "http.requests.total") (codes "c")
        _ refl refl (show_ℕ-OneLine report.total_requests),
    (
      untagged alphanumeric prefix no_feed plain_prefix b'.' (codes "http.rps") (codes "g") _ refl
          refl (plain_fixed 2 _),
      (
        untagged alphanumeric prefix no_feed plain_prefix b'.' (codes "http.latency.avg")
            (codes "ms") _ refl refl (plain_fixed 2 report.avg_latency_ms),
        (
          untagged alphanumeric prefix no_feed plain_prefix b'.' (codes "http.latency.min")
              (codes "ms") _ refl refl (show_ℕ-OneLine report.min_latency_ms),
          (
            untagged alphanumeric prefix no_feed plain_prefix b'.' (codes "http.latency.max")
                (codes "ms") _ refl refl (show_ℕ-OneLine report.max_latency_ms),
            (
              untagged alphanumeric prefix no_feed plain_prefix b'.' (codes "http.latency.p50")
                  (codes "ms") _ refl refl (plain_fixed 2 report.p50_latency_ms),
              (
                untagged alphanumeric prefix no_feed plain_prefix b'.' (codes "http.latency.p90")
                    (codes "ms") _ refl refl (plain_fixed 2 report.p90_latency_ms),
                (
                  untagged alphanumeric prefix no_feed plain_prefix b'.' (codes "http.latency.p95")
                      (codes "ms") _ refl refl (plain_fixed 2 report.p95_latency_ms),
                  (
                    untagged alphanumeric prefix no_feed plain_prefix b'.'
                        (codes "http.latency.p99") (codes "ms") _ refl refl
                        (plain_fixed 2 report.p99_latency_ms),
                    (
                      untagged alphanumeric prefix no_feed plain_prefix b'.'
                          (codes "http.errors.total") (codes "c") _ refl refl
                          (show_ℕ-OneLine (sum_counts report.errors)),
                      tt,
                    ),
                  ),
                ),
              ),
            ),
          ),
        ),
      ),
    ),
  )

  transfer_metrics-lines :
      (report : ReportStats fl.F) → All IsLine (transfer_metrics fl alphanumeric prefix report)
  unfolding transfer_metrics
  transfer_metrics-lines report = (
    untagged alphanumeric prefix no_feed plain_prefix b'.' (codes "http.bytes.sent") (codes "c") _
        refl refl (show_ℕ-OneLine report.total_data_sent),
    (
      untagged alphanumeric prefix no_feed plain_prefix b'.' (codes "http.bytes.received")
          (codes "c") _ refl refl (show_ℕ-OneLine report.total_data_received),
      tt,
    ),
  )

  -- Where the prefix and the printed numbers have no line feed, and a line feed is not alphanumeric,
  -- every metric of every report is one line that is not empty, whatever the names in the report.
  pub build_metrics-lines :
      (report : ReportStats fl.F) → All IsLine (build_metrics fl alphanumeric prefix report)
  unfolding build_metrics
  build_metrics-lines report =
      (then_lines
        (then_lines
          (then_lines
            (then_lines
              (then_lines
                (then_lines
                  (then_lines
                    (then_lines
                      (then_lines
                        (core_metrics fl alphanumeric prefix report, core_metrics-lines report)
                        (
                          error_metrics fl alphanumeric prefix report.errors,
                          error_metrics-lines fl alphanumeric prefix no_feed plain_prefix
                              plain_fixed plain_display report.errors,
                        ))
                      (
                        status_metrics fl alphanumeric prefix report.status_codes,
                        status_metrics-lines fl alphanumeric prefix no_feed plain_prefix plain_fixed
                            plain_display report.status_codes,
                      ))
                    (
                      endpoint_metrics fl alphanumeric prefix report.grouped_requests,
                      endpoint_metrics-lines fl alphanumeric prefix no_feed plain_prefix plain_fixed
                          plain_display report.grouped_requests,
                    ))
                  (
                    histogram_metrics fl alphanumeric prefix report.histograms,
                    histogram_metrics-lines fl alphanumeric prefix no_feed plain_prefix plain_fixed
                        plain_display report.histograms,
                  ))
                (
                  custom_metrics fl alphanumeric prefix (codes ".custom.counter") (codes "c")
                      report.counters,
                  custom_metrics-lines fl alphanumeric prefix no_feed plain_prefix plain_fixed
                      plain_display b'.' (codes "custom.counter") (codes "c") refl refl
                      report.counters,
                ))
              (
                custom_metrics fl alphanumeric prefix (codes ".custom.gauge") (codes "g")
                    report.gauges,
                custom_metrics-lines fl alphanumeric prefix no_feed plain_prefix plain_fixed
                    plain_display b'.' (codes "custom.gauge") (codes "g") refl refl report.gauges,
              ))
            (
              rate_metrics fl alphanumeric prefix report.rates,
              rate_metrics-lines fl alphanumeric prefix no_feed plain_prefix plain_fixed
                  plain_display report.rates,
            ))
          (transfer_metrics fl alphanumeric prefix report, transfer_metrics-lines report))
        (
          check_metrics fl alphanumeric prefix (sum_checks (0, 0) report.checks),
          check_metrics-lines fl alphanumeric prefix no_feed plain_prefix plain_fixed plain_display
              (sum_checks (0, 0) report.checks),
        )).1

  -- Where the prefix and the printed numbers have no line feed, and a line feed is not alphanumeric,
  -- an export whose packets the socket all takes delivers the metrics of the report: the receiver
  -- reads from the packets every metric once and in order, and a packet of more than 1400 bytes is
  -- one metric alone.
  pub export-delivers :
      (send : Text → Bool) (endpoint : Text) (report : ReportStats fl.F)
      → (export fl alphanumeric send (with_prefix endpoint prefix) report).1 ≡ true
      → (lines_of (export fl alphanumeric send (with_prefix endpoint prefix) report).0
          ≡ build_metrics fl alphanumeric prefix report)
        × All IsBounded (export fl alphanumeric send (with_prefix endpoint prefix) report).0
  unfolding export with_prefix
  export-delivers send endpoint report e =
      export_loop-lines send (build_metrics fl alphanumeric prefix report)
        (build_metrics-lines report) e
