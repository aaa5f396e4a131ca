-- ===== src/Stats/Types.antt =====
-- The data of src/stats/mod.rs: a metric, the statistics of one endpoint and of a whole run. A
-- duration is its count of nanoseconds, a map an association list. `F` stands for `f64` and `H`
-- for `Histogram<u64>`, of the crate `hdrhistogram`.
use fusillade.Prelude.{ℕ, Bool, false, List, [], Option, none, Text}

abbrev pub Tags : Type 0
Tags = List (Text × Text)

pub record RequestTimings : Type 0 where
  pub blocked : ℕ
  pub connecting : ℕ
  pub tls_handshaking : ℕ
  pub sending : ℕ
  pub waiting : ℕ
  pub receiving : ℕ
  pub duration : ℕ
  pub response_size : ℕ
  pub request_size : ℕ
  pub pool_reused : Bool

pub data Metric (F : Type 0) : Type 0 where
  request : Text → RequestTimings → ℕ → Option Text → Tags → Metric F
  check : Text → Bool → Option Text → Metric F
  log : Text → Metric F
  histogram : Text → F → Tags → Metric F
  rate : Text → Bool → Tags → Metric F
  counter : Text → F → Tags → Metric F
  gauge : Text → F → Tags → Metric F

-- The operations of `Histogram<u64>` with the bounds 1 to 3,600,000,000 and two digits. `record`
-- and `add` leave the histogram as it is where the crate returns an error, which the program
-- drops. A quantile is given in hundredths.
pub record HistogramLib : Type 1 where
  pub H : Type 0
  pub new : H
  pub record_value : ℕ → H → H
  pub merge : H → H → H
  pub value_at_quantile : ℕ → H → ℕ
  pub min_value : H → ℕ
  pub max_value : H → ℕ
  pub len : H → ℕ

pub record RequestStats (H : Type 0) : Type 0 where
  pub total_requests : ℕ
  pub total_duration : ℕ
  pub min_duration : Option ℕ
  pub max_duration : ℕ
  pub latencies : H
  pub error_count : ℕ
  pub total_blocked : ℕ
  pub total_connecting : ℕ
  pub total_tls_handshaking : ℕ
  pub total_sending : ℕ
  pub total_waiting : ℕ
  pub total_receiving : ℕ
  pub total_response_size : ℕ
  pub total_request_size : ℕ

pub record StatsAggregator (F H : Type 0) : Type 0 where
  pub total_requests : ℕ
  pub total_duration : ℕ
  pub min_duration : Option ℕ
  pub max_duration : ℕ
  pub status_codes : List (ℕ × ℕ)
  pub errors : List (Text × ℕ)
  pub checks : List (Text × (ℕ × ℕ))
  pub latencies : H
  pub requests : List (Text × RequestStats H)
  pub total_data_sent : ℕ
  pub total_data_received : ℕ
  pub logs : List Text
  pub histograms : List (Text × H)
  pub histogram_sums : List (Text × F)
  pub rates : List (Text × (ℕ × ℕ))
  pub counters : List (Text × F)
  pub gauges : List (Text × F)
  pub no_endpoint_tracking : Bool
  pub pool_hits : ℕ
  pub pool_misses : ℕ
  pub failed_iterations : ℕ

-- `RequestStats::new`
abbrev pub new_stats : (hl : HistogramLib) → RequestStats hl.H
new_stats hl = record {
  total_requests = 0;
  total_duration = 0;
  min_duration = none;
  max_duration = 0;
  latencies = hl.new;
  error_count = 0;
  total_blocked = 0;
  total_connecting = 0;
  total_tls_handshaking = 0;
  total_sending = 0;
  total_waiting = 0;
  total_receiving = 0;
  total_response_size = 0;
  total_request_size = 0;
}

-- `StatsAggregator::new`
abbrev pub new_aggregator : (F : Type 0) (hl : HistogramLib) → StatsAggregator F hl.H
new_aggregator F hl = record {
  total_requests = 0;
  total_duration = 0;
  min_duration = none;
  max_duration = 0;
  status_codes = [];
  errors = [];
  checks = [];
  latencies = hl.new;
  requests = [];
  total_data_sent = 0;
  total_data_received = 0;
  logs = [];
  histograms = [];
  histogram_sums = [];
  rates = [];
  counters = [];
  gauges = [];
  no_endpoint_tracking = false;
  pool_hits = 0;
  pool_misses = 0;
  failed_iterations = 0;
}
