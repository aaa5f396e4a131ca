-- ===== src/Statsd/Groups.antt =====
-- The metrics of the errors, status codes, endpoints and custom metrics of a report are lines.
use fusillade.Prelude.{
  ℕ, ◌≡◌, refl, false, ◌||◌, List, [], ◌∷◌, Text, codes, All, show_ℕ, ltb, if-both, Bool,
}
use fusillade.Float.{Float}
use fusillade.Stats.Report.{RequestReport, HistogramReport, RateReport}
use fusillade.Csv.{contains}
use fusillade.Statsd.{
  error_metrics, status_metrics, endpoint_metrics, histogram_metrics, custom_metrics, rate_metrics,
  check_metrics,
}
use fusillade.Statsd.Packets.{IsLine}
use fusillade.Statsd.Lines.{
  OneLine, show_ℕ-OneLine, metric-IsLine, tagged-OneLine, untagged, with_tag,
}

module _ (fl : Float) (alphanumeric : ℕ → Bool) (prefix : Text)
    (no_feed : alphanumeric b'\n' ≡ false) (plain_prefix : OneLine prefix)
    (plain_fixed : (n : ℕ) (x : fl.F) → OneLine (fl.fixed n x))
    (plain_display : (x : fl.F) → OneLine (fl.display x)) where
  pub error_metrics-lines :
      (m : List (Text × ℕ)) → All IsLine (error_metrics fl alphanumeric prefix m)
  unfolding error_metrics
  error_metrics-lines [] = tt
  error_metrics-lines ((e, n) ∷ m) = (
    with_tag alphanumeric prefix no_feed plain_prefix b'.' (codes "http.errors.by_type") (codes "c")
        (codes "error") e (show_ℕ n) refl refl refl (show_ℕ-OneLine n),
    error_metrics-lines m,
  )

  pub status_metrics-lines :
      (m : List (ℕ × ℕ)) → All IsLine (status_metrics fl alphanumeric prefix m)
  unfolding status_metrics
  status_metrics-lines [] = tt
  status_metrics-lines ((s, n) ∷ m) = (
    metric-IsLine prefix b'.' (codes "http.status") (show_ℕ n) _ plain_prefix refl
        (show_ℕ-OneLine n)
        (tagged-OneLine (codes "c") (codes "code") (show_ℕ s) refl refl (show_ℕ-OneLine s)),
    status_metrics-lines m,
  )

  pub endpoint_metrics-lines :
      (m : List (Text × RequestReport fl.F))
      → All IsLine (endpoint_metrics fl alphanumeric prefix m)
  unfolding endpoint_metrics
  endpoint_metrics-lines [] = tt
  endpoint_metrics-lines ((name, r) ∷ m) = (
    with_tag alphanumeric prefix no_feed plain_prefix b'.' (codes "http.endpoint.requests")
        (codes "c") (codes "endpoint") name (show_ℕ r.total_requests) refl refl refl
        (show_ℕ-OneLine r.total_requests),
    (
      with_tag alphanumeric prefix no_feed plain_prefix b'.' (codes "http.endpoint.latency.avg")
          (codes "ms") (codes "endpoint") name (fl.fixed 2 r.avg_latency_ms) refl refl refl
          (plain_fixed 2 r.avg_latency_ms),
      (
        with_tag alphanumeric prefix no_feed plain_prefix b'.' (codes "http.endpoint.latency.p95")
            (codes "ms") (codes "endpoint") name (fl.fixed 2 r.p95_latency_ms) refl refl refl
            (plain_fixed 2 r.p95_latency_ms),
        (
          with_tag alphanumeric prefix no_feed plain_prefix b'.' (codes "http.endpoint.latency.p99")
              (codes "ms") (codes "endpoint") name (fl.fixed 2 r.p99_latency_ms) refl refl refl
              (plain_fixed 2 r.p99_latency_ms),
          (
            with_tag alphanumeric prefix no_feed plain_prefix b'.' (codes "http.endpoint.errors")
                (codes "c") (codes "endpoint") name (show_ℕ r.error_count) refl refl refl
                (show_ℕ-OneLine r.error_count),
            endpoint_metrics-lines m,
          ),
        ),
      ),
    ),
  )

  pub histogram_metrics-lines :
      (m : List (Text × HistogramReport fl.F))
      → All IsLine (histogram_metrics fl alphanumeric prefix m)
  unfolding histogram_metrics
  histogram_metrics-lines [] = tt
  histogram_metrics-lines ((name, h) ∷ m) = (
    with_tag alphanumeric prefix no_feed plain_prefix b'.' (codes "custom.histogram.count")
        (codes "c") (codes "name") name (show_ℕ h.count) refl refl refl (show_ℕ-OneLine h.count),
    (
      with_tag alphanumeric prefix no_feed plain_prefix b'.' (codes "custom.histogram.min")
          (codes "g") (codes "name") name (fl.fixed 2 h.min) refl refl refl (plain_fixed 2 h.min),
      (
        with_tag alphanumeric prefix no_feed plain_prefix b'.' (codes "custom.histogram.max")
            (codes "g") (codes "name") name (fl.fixed 2 h.max) refl refl refl (plain_fixed 2 h.max),
        (
          with_tag alphanumeric prefix no_feed plain_prefix b'.' (codes "custom.histogram.avg")
              (codes "g") (codes "name") name (fl.fixed 2 h.avg) refl refl refl
              (plain_fixed 2 h.avg),
          (
            with_tag alphanumeric prefix no_feed plain_prefix b'.' (codes "custom.histogram.p95")
                (codes "g") (codes "name") name (fl.fixed 2 h.p95) refl refl refl
                (plain_fixed 2 h.p95),
            histogram_metrics-lines m,
          ),
        ),
      ),
    ),
  )

  pub rate_metrics-lines :
      (m : List (Text × RateReport fl.F)) → All IsLine (rate_metrics fl alphanumeric prefix m)
  unfolding rate_metrics
  rate_metrics-lines [] = tt
  rate_metrics-lines ((name, r) ∷ m) = (
    with_tag alphanumeric prefix no_feed plain_prefix b'.' (codes "custom.rate") (codes "g")
        (codes "name") name (fl.fixed 4 r.rate) refl refl refl (plain_fixed 4 r.rate),
    (
      with_tag alphanumeric prefix no_feed plain_prefix b'.' (codes "custom.rate.successes")
          (codes "c") (codes "name") name (show_ℕ r.success) refl refl refl
          (show_ℕ-OneLine r.success),
      (
        with_tag alphanumeric prefix no_feed plain_prefix b'.' (codes "custom.rate.total")
            (codes "c") (codes "name") name (show_ℕ r.total) refl refl refl
            (show_ℕ-OneLine r.total),
        rate_metrics-lines m,
      ),
    ),
  )

  pub custom_metrics-lines :
      (n : ℕ) (title kind : Text)
      → contains b'\n' (n ∷ title) ≡ false
      → contains b'\n' kind ≡ false
      → (m : List (Text × fl.F))
      → All IsLine (custom_metrics fl alphanumeric prefix (n ∷ title) kind m)
  unfolding custom_metrics
  custom_metrics-lines n title kind h k [] = tt
  custom_metrics-lines n title kind h k ((name, x) ∷ m) = (
    with_tag alphanumeric prefix no_feed plain_prefix n title kind (codes "name") name
        (fl.display x) h k refl (plain_display x),
    custom_metrics-lines n title kind h k m,
  )

  pub check_metrics-lines : (pf : ℕ × ℕ) → All IsLine (check_metrics fl alphanumeric prefix pf)
  unfolding check_metrics
  check_metrics-lines (p, f) =
      if-both (All IsLine) (ltb 0 p || ltb 0 f) _ []
        (
          untagged alphanumeric prefix no_feed plain_prefix b'.' (codes "checks.passed") (codes "c")
              (show_ℕ p) refl refl (show_ℕ-OneLine p),
          (
            untagged alphanumeric prefix no_feed plain_prefix b'.' (codes "checks.failed")
                (codes "c") (show_ℕ f) refl refl (show_ℕ-OneLine f),
            tt,
          ),
        )
        tt
