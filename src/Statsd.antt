-- ===== src/Statsd.antt =====
-- src/stats/statsd.rs: the export of a report as StatsD metrics over UDP. `alphanumeric` is
-- `char::is_alphanumeric`, whose tables are not written out; `send` says of each packet whether the
-- socket takes it.
pub mod Packets
pub mod Lines
pub mod Groups
pub mod Delivery
use fusillade.Prelude.{
  ℕ, ◌+◌, Bool, true, false, ◌||◌, List, [], ◌∷◌, ◌++◌, map, Text, codes, byte_len, ltb, ◌==◌,
  if◌then◌else◌, show_ℕ, add_u64, sub_u64,
}
use fusillade.Float.{Float}
use fusillade.Csv.{contains}
use fusillade.Stats.Report.{ReportStats, RequestReport, HistogramReport, RateReport}

pub record StatsdExporter : Type 0 where
  pub endpoint : Text
  pub prefix : Text

unfoldable pub new : Text → StatsdExporter
new endpoint = record {
  endpoint = if contains b':' endpoint then endpoint else endpoint ++ codes ":8125";
  prefix = codes "fusillade";
}

unfoldable pub with_prefix : Text → Text → StatsdExporter
unfolding new
with_prefix endpoint prefix = record (new endpoint) { prefix = prefix }

unfoldable pub sanitize_metric_name : (ℕ → Bool) → Text → Text
sanitize_metric_name alphanumeric =
    map (λ c. if alphanumeric c || c == b'_' || c == b'.' || c == b'-' then c else b'_')

-- `{prefix}{name}:{value}|{kind}`
abbrev pub metric : Text → Text → Text → Text → Text
metric prefix name value kind = prefix ++ (name ++ (b':' ∷ (value ++ (b'|' ∷ kind))))

-- `{kind}|#{tag}:{name}`
abbrev pub tagged : Text → Text → Text → Text
tagged kind tag name = kind ++ (codes "|#" ++ (tag ++ (b':' ∷ name)))

-- `values().sum()`
unfoldable pub sum_counts : List (Text × ℕ) → ℕ
sum_counts [] = 0
sum_counts ((k, n) ∷ m) = add_u64 n (sum_counts m)

-- the fold over the checks: those that passed and those that failed
unfoldable pub sum_checks : ℕ × ℕ → List (Text × (ℕ × ℕ)) → ℕ × ℕ
sum_checks pf [] = pf
sum_checks (p, f) ((k, (total, passes)) ∷ m) =
    sum_checks (add_u64 p passes, add_u64 f (sub_u64 total passes)) m

module _ (fl : Float) (alphanumeric : ℕ → Bool) (prefix : Text) where
  open fl use {F, of_nat, div, display, fixed}

  abbrev safe : Text → Text
  safe = sanitize_metric_name alphanumeric

  unfoldable pub error_metrics : List (Text × ℕ) → List Text
  unfolding sanitize_metric_name
  error_metrics [] = []
  error_metrics ((error_type, count) ∷ m) =
      metric prefix (codes ".http.errors.by_type") (show_ℕ count)
        (tagged (codes "c") (codes "error") (safe error_type))
      ∷ error_metrics m

  unfoldable pub status_metrics : List (ℕ × ℕ) → List Text
  status_metrics [] = []
  status_metrics ((status, count) ∷ m) =
      metric prefix (codes ".http.status") (show_ℕ count)
        (tagged (codes "c") (codes "code") (show_ℕ status))
      ∷ status_metrics m

  unfoldable pub endpoint_metrics : List (Text × RequestReport F) → List Text
  unfolding sanitize_metric_name
  endpoint_metrics [] = []
  endpoint_metrics ((name, r) ∷ m) =
      let tag = λ (kind : Text). tagged kind (codes "endpoint") (safe name) in
      metric prefix (codes ".http.endpoint.requests") (show_ℕ r.total_requests) (tag (codes "c"))
      ∷ metric prefix (codes ".http.endpoint.latency.avg") (fixed 2 r.avg_latency_ms)
          (tag (codes "ms"))
      ∷ metric prefix (codes ".http.endpoint.latency.p95") (fixed 2 r.p95_latency_ms)
          (tag (codes "ms"))
      ∷ metric prefix (codes ".http.endpoint.latency.p99") (fixed 2 r.p99_latency_ms)
          (tag (codes "ms"))
      ∷ metric prefix (codes ".http.endpoint.errors") (show_ℕ r.error_count) (tag (codes "c"))
      ∷ endpoint_metrics m

  unfoldable pub histogram_metrics : List (Text × HistogramReport F) → List Text
  unfolding sanitize_metric_name
  histogram_metrics [] = []
  histogram_metrics ((name, h) ∷ m) =
      let tag = λ (kind : Text). tagged kind (codes "name") (safe name) in
      metric prefix (codes ".custom.histogram.count") (show_ℕ h.count) (tag (codes "c"))
      ∷ metric prefix (codes ".custom.histogram.min") (fixed 2 h.min) (tag (codes "g"))
      ∷ metric prefix (codes ".custom.histogram.max") (fixed 2 h.max) (tag (codes "g"))
      ∷ metric prefix (codes ".custom.histogram.avg") (fixed 2 h.avg) (tag (codes "g"))
      ∷ metric prefix (codes ".custom.histogram.p95") (fixed 2 h.p95) (tag (codes "g"))
      ∷ histogram_metrics m

  -- the counters, and the gauges
  unfoldable pub custom_metrics : Text → Text → List (Text × F) → List Text
  unfolding sanitize_metric_name
  custom_metrics title kind [] = []
  custom_metrics title kind ((name, value) ∷ m) =
      metric prefix title (display value) (tagged kind (codes "name") (safe name))
      ∷ custom_metrics title kind m

  unfoldable pub rate_metrics : List (Text × RateReport F) → List Text
  unfolding sanitize_metric_name
  rate_metrics [] = []
  rate_metrics ((name, r) ∷ m) =
      let tag = λ (kind : Text). tagged kind (codes "name") (safe name) in
      metric prefix (codes ".custom.rate") (fixed 4 r.rate) (tag (codes "g"))
      ∷ metric prefix (codes ".custom.rate.successes") (show_ℕ r.success) (tag (codes "c"))
      ∷ metric prefix (codes ".custom.rate.total") (show_ℕ r.total) (tag (codes "c"))
      ∷ rate_metrics m

  unfoldable pub check_metrics : ℕ × ℕ → List Text
  check_metrics (checks_passed, checks_failed) =
      if ltb 0 checks_passed || ltb 0 checks_failed
      then metric prefix (codes ".checks.passed") (show_ℕ checks_passed) (codes "c")
        ∷ metric prefix (codes ".checks.failed") (show_ℕ checks_failed) (codes "c")
        ∷ []
      else []

  unfoldable pub core_metrics : ReportStats F → List Text
  unfolding sum_counts
  core_metrics report =
      let rps =
        if ltb 0 report.total_duration_ms
        then div (of_nat report.total_requests)
            (div (of_nat report.total_duration_ms) (of_nat 1000))
        else of_nat 0 in
      metric prefix (codes ".http.requests.total") (show_ℕ report.total_requests) (codes "c")
      ∷ metric prefix (codes ".http.rps") (fixed 2 rps) (codes "g")
      ∷ metric prefix (codes ".http.latency.avg") (fixed 2 report.avg_latency_ms) (codes "ms")
      ∷ metric prefix (codes ".http.latency.min") (show_ℕ report.min_latency_ms) (codes "ms")
      ∷ metric prefix (codes ".http.latency.max") (show_ℕ report.max_latency_ms) (codes "ms")
      ∷ metric prefix (codes ".http.latency.p50") (fixed 2 report.p50_latency_ms) (codes "ms")
      ∷ metric prefix (codes ".http.latency.p90") (fixed 2 report.p90_latency_ms) (codes "ms")
      ∷ metric prefix (codes ".http.latency.p95") (fixed 2 report.p95_latency_ms) (codes "ms")
      ∷ metric prefix (codes ".http.latency.p99") (fixed 2 report.p99_latency_ms) (codes "ms")
      ∷ metric prefix (codes ".http.errors.total") (show_ℕ (sum_counts report.errors)) (codes "c")
      ∷ []

  unfoldable pub transfer_metrics : ReportStats F → List Text
  transfer_metrics report =
      metric prefix (codes ".http.bytes.sent") (show_ℕ report.total_data_sent) (codes "c")
      ∷ metric prefix (codes ".http.bytes.received") (show_ℕ report.total_data_received) (codes "c")
      ∷ []

  unfoldable pub build_metrics : ReportStats F → List Text
  unfolding core_metrics error_metrics status_metrics endpoint_metrics histogram_metrics
      custom_metrics rate_metrics transfer_metrics check_metrics sum_checks
  build_metrics report =
      core_metrics report
      ++ error_metrics report.errors
      ++ status_metrics report.status_codes
      ++ endpoint_metrics report.grouped_requests
      ++ histogram_metrics report.histograms
      ++ custom_metrics (codes ".custom.counter") (codes "c") report.counters
      ++ custom_metrics (codes ".custom.gauge") (codes "g") report.gauges
      ++ rate_metrics report.rates
      ++ transfer_metrics report
      ++ check_metrics (sum_checks (0, 0) report.checks)

abbrev pub max_packet_size : ℕ
max_packet_size = 1400

abbrev pub is_full : Text → Text → Bool
is_full [] metric = false
is_full (c ∷ cs) metric = ltb max_packet_size (byte_len (c ∷ cs) + byte_len metric + 1)

-- the batch with one more metric
abbrev pub push_metric : Text → Text → Text
push_metric [] metric = metric
push_metric (c ∷ cs) metric = (c ∷ cs) ++ (b'\n' ∷ metric)

-- the packets handed to the socket, and whether it took them all: the first failure ends the export
unfoldable pub send_last : (Text → Bool) → Text → List Text × Bool
send_last send [] = ([], true)
send_last send (c ∷ cs) = ((c ∷ cs) ∷ [], send (c ∷ cs))

-- The loop of `export` with the batch so far.
unfoldable pub export_loop : (Text → Bool) → Text → List Text → List Text × Bool
unfolding send_last
export_loop send batch [] = send_last send batch
export_loop send batch (m ∷ ms) =
    let (packets, sent) = export_loop send m ms in
    let next = export_loop send (push_metric batch m) ms in
    if is_full batch m
    then (if send batch then (batch ∷ packets, sent) else (batch ∷ [], false))
    else next

-- `export`, once the socket is bound
unfoldable pub export :
    (fl : Float) → (ℕ → Bool) → (Text → Bool) → StatsdExporter → ReportStats fl.F → List Text × Bool
unfolding export_loop build_metrics
export fl alphanumeric send exporter report =
    export_loop send [] (build_metrics fl alphanumeric exporter.prefix report)
