-- ===== src/Stats/Report.antt =====
-- `StatsAggregator::to_report` and `has_reportable_data` of src/stats/mod.rs.
use fusillade.Prelude.{
  ℕ, ◌*◌, Bool, true, false, not, ◌||◌, List, [], ◌∷◌, Text, ltb, if◌then◌else◌, lookup, get_or,
  text_key,
}
use fusillade.Float.{Float, as_millis, as_secs_f64}
use fusillade.Stats.Add.{Agg}
use fusillade.Stats.Types.{HistogramLib, RequestStats}

pub record RequestReport (F : Type 0) : Type 0 where
  pub total_requests : ℕ
  pub min_latency_ms : ℕ
  pub max_latency_ms : ℕ
  pub avg_latency_ms : F
  pub p95_latency_ms : F
  pub p99_latency_ms : F
  pub error_count : ℕ
  pub avg_blocked_ms : F
  pub avg_connecting_ms : F
  pub avg_tls_handshaking_ms : F
  pub avg_sending_ms : F
  pub avg_waiting_ms : F
  pub avg_receiving_ms : F
  pub avg_response_size : F

pub record HistogramReport (F : Type 0) : Type 0 where
  pub avg : F
  pub min : F
  pub max : F
  pub p90 : F
  pub p95 : F
  pub p99 : F
  pub count : ℕ

pub record RateReport (F : Type 0) : Type 0 where
  pub total : ℕ
  pub success : ℕ
  pub rate : F

pub record ReportStats (F : Type 0) : Type 0 where
  pub total_requests : ℕ
  pub total_duration_ms : ℕ
  pub avg_latency_ms : F
  pub min_latency_ms : ℕ
  pub max_latency_ms : ℕ
  pub p50_latency_ms : F
  pub p90_latency_ms : F
  pub p95_latency_ms : F
  pub p99_latency_ms : F
  pub status_codes : List (ℕ × ℕ)
  pub errors : List (Text × ℕ)
  pub checks : List (Text × (ℕ × ℕ))
  pub grouped_requests : List (Text × RequestReport F)
  pub total_data_sent : ℕ
  pub total_data_received : ℕ
  pub histograms : List (Text × HistogramReport F)
  pub rates : List (Text × RateReport F)
  pub counters : List (Text × F)
  pub gauges : List (Text × F)
  pub pool_hits : ℕ
  pub pool_misses : ℕ
  pub threshold_failures : List Text
  pub failed_iterations : ℕ

-- A map that is built with one entry for each entry of another.
unfoldable pub report_map : {V W : Type 0} → (Text → V → W) → List (Text × V) → List (Text × W)
report_map f [] = []
report_map f ((k, v) ∷ m) = (k, f k v) ∷ report_map f m

abbrev pub is_empty : {A : Type 0} → List A → Bool
is_empty [] = true
is_empty (x ∷ xs) = false

module _ (fl : Float) (hl : HistogramLib) where
  open fl use {F, of_nat, mul, div}

  -- `as_millis() as f64 / count` if there is a request, else 0.0
  unfoldable pub average_ms : ℕ → ℕ → F
  average_ms d count = if ltb 0 count then div (of_nat (as_millis d)) (of_nat count) else of_nat 0

  -- `Duration::from_micros(h.value_at_quantile(q)).as_secs_f64() * 1000.0`
  unfoldable pub quantile_ms : ℕ → hl.H → F
  quantile_ms q h = mul (as_secs_f64 fl (hl.value_at_quantile q h * 1000)) (of_nat 1000)

  unfoldable pub request_report : RequestStats hl.H → RequestReport F
  unfolding average_ms quantile_ms
  request_report s = record {
    total_requests = s.total_requests;
    min_latency_ms = as_millis (get_or s.min_duration 0);
    max_latency_ms = as_millis s.max_duration;
    avg_latency_ms = average_ms s.total_duration s.total_requests;
    p95_latency_ms = quantile_ms 95 s.latencies;
    p99_latency_ms = quantile_ms 99 s.latencies;
    error_count = s.error_count;
    avg_blocked_ms = average_ms s.total_blocked s.total_requests;
    avg_connecting_ms = average_ms s.total_connecting s.total_requests;
    avg_tls_handshaking_ms = average_ms s.total_tls_handshaking s.total_requests;
    avg_sending_ms = average_ms s.total_sending s.total_requests;
    avg_waiting_ms = average_ms s.total_waiting s.total_requests;
    avg_receiving_ms = average_ms s.total_receiving s.total_requests;
    avg_response_size =
        if ltb 0 s.total_requests
        then div (of_nat s.total_response_size) (of_nat s.total_requests)
        else of_nat 0;
  }

  -- `as f64 / 1000.0`
  abbrev thousandth : ℕ → F
  thousandth n = div (of_nat n) (of_nat 1000)

  unfoldable pub histogram_report : List (Text × F) → Text → hl.H → HistogramReport F
  histogram_report sums name h = record {
    avg =
        if ltb 0 (hl.len h)
        then div (get_or (lookup name sums) (of_nat 0)) (of_nat (hl.len h))
        else of_nat 0;
    min = thousandth (hl.min_value h);
    max = thousandth (hl.max_value h);
    p90 = thousandth (hl.value_at_quantile 90 h);
    p95 = thousandth (hl.value_at_quantile 95 h);
    p99 = thousandth (hl.value_at_quantile 99 h);
    count = hl.len h;
  }

  unfoldable pub rate_report : ℕ × ℕ → RateReport F
  rate_report (total, success) = record {
    total = total;
    success = success;
    rate = if ltb 0 total then div (of_nat success) (of_nat total) else of_nat 0;
  }

  unfoldable pub to_report : Agg fl hl → ReportStats F
  unfolding average_ms quantile_ms request_report histogram_report rate_report report_map
  to_report a = record {
    total_requests = a.total_requests;
    total_duration_ms = as_millis a.total_duration;
    avg_latency_ms = average_ms a.total_duration a.total_requests;
    min_latency_ms = as_millis (get_or a.min_duration 0);
    max_latency_ms = as_millis a.max_duration;
    p50_latency_ms = quantile_ms 50 a.latencies;
    p90_latency_ms = quantile_ms 90 a.latencies;
    p95_latency_ms = quantile_ms 95 a.latencies;
    p99_latency_ms = quantile_ms 99 a.latencies;
    status_codes = a.status_codes;
    errors = a.errors;
    checks = a.checks;
    grouped_requests = report_map (λ _ s. request_report s) a.requests;
    histograms = report_map (histogram_report a.histogram_sums) a.histograms;
    rates = report_map (λ _ r. rate_report r) a.rates;
    counters = a.counters;
    gauges = a.gauges;
    total_data_sent = a.total_data_sent;
    total_data_received = a.total_data_received;
    pool_hits = a.pool_hits;
    pool_misses = a.pool_misses;
    threshold_failures = [];
    failed_iterations = a.failed_iterations;
  }

  unfoldable pub has_reportable_data : Agg fl hl → Bool
  has_reportable_data a =
      ltb 0 a.total_requests
      || not (is_empty a.requests)
      || not (is_empty a.errors)
      || not (is_empty a.checks)
      || not (is_empty a.counters)
      || not (is_empty a.gauges)
      || not (is_empty a.histograms)
      || not (is_empty a.rates)
