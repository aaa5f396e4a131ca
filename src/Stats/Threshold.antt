-- ===== src/Stats/Threshold.antt =====
-- `validate_thresholds` and `validate_scenario_thresholds` of src/stats/mod.rs. The warning that is
-- printed for a malformed threshold is left out.
pub mod Meaning
pub mod Verdict
use fusillade.Prelude.{
  ℕ, ◌+◌, Bool, true, false, ◌||◌, List, [], ◌∷◌, ◌++◌, Option, none, some, Text, codes, text_eq,
  starts_with, split_whitespace, ltb, ◌==◌, if◌then◌else◌, lookup, get_or, update, erase, text_key,
  add_u64, map,
}
use fusillade.Float.{Float}
use fusillade.Stats.Add.{Agg, raise}
use fusillade.Stats.Report.{ReportStats, HistogramReport, to_report}
use fusillade.Stats.Sharded.{merge_stats_min}
use fusillade.Stats.Types.{HistogramLib, RequestStats, StatsAggregator, new_aggregator}

-- The three words that are read, if there are as many.
pub data Words : Type 0 where
  too_few : Words
  three : Text → Text → Text → Words

abbrev pub first_three : List Text → Words
first_three (a ∷ b ∷ c ∷ _) = three a b c
first_three _ = too_few

-- `values().sum()` on `usize`
unfoldable pub sum_values : List (Text × ℕ) → ℕ
sum_values [] = 0
sum_values ((k, n) ∷ m) = add_u64 n (sum_values m)

module _ (fl : Float) where
  open fl use {F, of_nat, sub, div, abs, epsilon, lt, le, parse, fixed}

  unfoldable pub duration_value : ReportStats F → Text → F
  duration_value r check =
      if text_eq check (codes "p95")
      then r.p95_latency_ms
      else if text_eq check (codes "p99")
      then r.p99_latency_ms
      else if text_eq check (codes "avg")
      then r.avg_latency_ms
      else if text_eq check (codes "max")
      then of_nat r.max_latency_ms
      else if text_eq check (codes "min")
      then of_nat r.min_latency_ms
      else of_nat 0

  unfoldable pub failed_value : ReportStats F → Text → F
  failed_value r check =
      if text_eq check (codes "rate")
      then if ltb 0 r.total_requests
        then div (of_nat (sum_values r.errors)) (of_nat r.total_requests)
        else of_nat 0
      else of_nat 0

  unfoldable pub histogram_value : HistogramReport F → Text → F
  histogram_value h check =
      if text_eq check (codes "p95")
      then h.p95
      else if text_eq check (codes "p99")
      then h.p99
      else if text_eq check (codes "p90")
      then h.p90
      else if text_eq check (codes "avg")
      then h.avg
      else if text_eq check (codes "max")
      then h.max
      else if text_eq check (codes "min")
      then h.min
      else if text_eq check (codes "count")
      then of_nat h.count
      else of_nat 0

  -- the chain of `else if let`s on a custom metric
  unfoldable pub custom_value : ReportStats F → Text → Text → F
  unfolding histogram_value
  custom_value r name check = elim (lookup name r.histograms) [
    | some h ↦ histogram_value h check
    | none ↦ elim (lookup name r.rates) [
      | some rate ↦ if text_eq check (codes "rate") then rate.rate else of_nat 0
      | none ↦ elim (lookup name r.counters) [
        | some v ↦
            if text_eq check (codes "count") || text_eq check (codes "value") then v else of_nat 0
        | none ↦ elim (lookup name r.gauges) [
          | some v ↦ if text_eq check (codes "value") then v else of_nat 0
          | none ↦ of_nat 0
        ]
      ]
    ]
  ]

  unfoldable pub actual_value : ReportStats F → Text → Text → F
  unfolding duration_value failed_value custom_value
  actual_value r name check =
      if text_eq name (codes "http_req_duration")
      then duration_value r check
      else if text_eq name (codes "http_req_failed")
      then failed_value r check
      else custom_value r name check

  unfoldable pub passes : Text → F → F → Bool
  passes operator actual value =
      if text_eq operator (codes "<")
      then lt actual value
      else if text_eq operator (codes "<=")
      then le actual value
      else if text_eq operator (codes ">")
      then lt value actual
      else if text_eq operator (codes ">=")
      then le value actual
      else if text_eq operator (codes "==")
      then lt (abs (sub actual value)) epsilon
      else false

  unfoldable pub failure_message : Text → Text → Text → F → Text
  failure_message name check threshold actual =
      codes "Threshold FAILED: "
      ++ (name
          ++ (codes " "
              ++ (check
                  ++ (codes " "
                      ++ (threshold ++ (codes " (actual: " ++ (fixed 2 actual ++ codes ")")))))))

  -- The message for one threshold, if it fails; it is skipped if it has fewer than three words.
  unfoldable pub check_words : ReportStats F → Text → Text → Words → List Text
  check_words r name threshold too_few = []
  check_words r name threshold (three check operator value) =
      let actual = actual_value r name check in
      if passes operator actual (get_or (parse value) (of_nat 0))
      then []
      else failure_message name check threshold actual ∷ []

  unfoldable pub check_threshold : ReportStats F → Text → Text → List Text
  unfolding split_whitespace actual_value passes check_words
  check_threshold r name threshold =
      check_words r name threshold (first_three (split_whitespace threshold))

  unfoldable pub check_all : ReportStats F → Text → List Text → List Text
  check_all r name [] = []
  check_all r name (t ∷ ts) = check_threshold r name t ++ check_all r name ts

  unfoldable pub check_criteria : ReportStats F → List (Text × List Text) → List Text
  unfolding check_all
  check_criteria r [] = []
  check_criteria r ((name, ts) ∷ cs) = check_all r name ts ++ check_criteria r cs

module _ (fl : Float) (hl : HistogramLib) where
  unfoldable pub validate_thresholds : Agg fl hl → List (Text × List Text) → List Text
  unfolding check_criteria
  validate_thresholds a criteria = check_criteria fl (to_report fl hl a) criteria

  -- the body of the loop over the endpoints of a scenario
  unfoldable pub add_endpoint_to : RequestStats hl.H → Agg fl hl → Agg fl hl
  add_endpoint_to s sub = record sub {
    total_requests = add_u64 sub.total_requests s.total_requests;
    total_duration = sub.total_duration + s.total_duration;
    min_duration = merge_stats_min sub.min_duration s.min_duration;
    max_duration = raise sub.max_duration s.max_duration;
    latencies = hl.merge sub.latencies s.latencies;
    total_data_sent = add_u64 sub.total_data_sent s.total_request_size;
    total_data_received = add_u64 sub.total_data_received s.total_response_size;
    errors = update (codes "error") 0 (λ n. add_u64 n s.error_count) sub.errors;
  }

  unfoldable pub add_endpoints : Text → List (Text × RequestStats hl.H) → Agg fl hl → Agg fl hl
  unfolding add_endpoint_to
  add_endpoints prefix [] sub = sub
  add_endpoints prefix ((name, s) ∷ m) sub =
      add_endpoints prefix m (if starts_with name prefix then add_endpoint_to s sub else sub)

  abbrev is_zero : Option ℕ → Bool
  is_zero none = false
  is_zero (some n) = n == 0

  unfoldable pub scenario_stats : Text → Agg fl hl → Agg fl hl
  unfolding add_endpoints
  scenario_stats scenario a =
      let sub = add_endpoints (scenario ++ codes "::") a.requests (new_aggregator fl.F hl) in
      record sub {
        checks = a.checks;
        histograms = a.histograms;
        histogram_sums = a.histogram_sums;
        rates = a.rates;
        counters = a.counters;
        gauges = a.gauges;
        errors =
            if is_zero (lookup (codes "error") sub.errors)
            then erase (codes "error") sub.errors
            else sub.errors;
      }

  unfoldable pub validate_scenario_thresholds :
      Text → Agg fl hl → List (Text × List Text) → List Text
  unfolding scenario_stats validate_thresholds
  validate_scenario_thresholds scenario a criteria =
      map (λ f. codes "[scenario: " ++ (scenario ++ (codes "] " ++ f)))
        (validate_thresholds (scenario_stats scenario a) criteria)
