-- ===== src/Tests.antt =====
-- The theorems at concrete inputs. Here `f64` is a natural number, and a histogram the list of its
-- values.
mod Services
mod Runs
mod Exports
mod Tables
mod Requests
mod Inputs
mod Metrics
mod Commands
use mathlib.Core.List.Perm
use mathlib.Core.List.{Perm, Permᴰ}
use fusillade.Prelude.{
  byte_len, ℕ, ◌+◌, ◌-◌, ◌*◌, ◌/◌, ◌<◌, ◌≤◌, ◌≡◌, ◌≢◌, ◌↔◌, refl, Bool, true, false, List, [], ◌∷◌,
  ◌++◌, map, Option, none, some, Text, codes, arith, ltb, leb, parse_u64, show_ℕ, lookup, text_key,
  nat_key, length, All, Result, ok, err, u64_mod, starts_with, ends_with, text_eq, is_whitespace,
}
use fusillade.Float.{Float}
use fusillade.Stats.Types.{
  Metric, request, check, log, gauge, HistogramLib, RequestTimings, new_aggregator, StatsAggregator,
  Tags,
}
use fusillade.Stats.Add.{add, add_all, Agg, full_name, is_iteration, is_iteration_total}
use fusillade.Stats.Add.Checks.{checks-add_all-new, tally, total_made, total_passed}
use fusillade.Stats.Add.Consistent.{IsConsistent, add_all-new-IsConsistent}
use fusillade.Stats.Add.Names.{DistinctKeys}
use fusillade.Stats.Sharded as Sharded
use fusillade.Stats.Sharded.{Sharded, add_run, merge, trim_logs}
use fusillade.Stats.Sharded.Refines.{Agrees, merge-Agrees}
use fusillade.Stats.Report.{ReportStats, to_report}
use fusillade.Stats.Threshold.{validate_thresholds, actual_value, scenario_stats}
use fusillade.Scenario.{validate_scenario_name}
use fusillade.Scenario.Apart.{scenarios-apart}
use fusillade.Stats.Threshold.Meaning.{Holds}
use fusillade.Stats.Threshold.Verdict.{validate_thresholds-nil_iff, scenario_stats-add_request}
use fusillade.Control.{
  ramp, pause, tag, stop, new, do_pause, do_resume, total_paused, ControlState, handle, handle_all,
  Control, parse_control_command,
}
use fusillade.Control.Pauses.{Pause, run, paused_time, total_paused_exact}
use fusillade.Control.Commands.{IsTypable, parse-print_command}
use fusillade.Duration.{parse_duration, format_duration}
use fusillade.Duration.RoundTrip.{readable, parse-format_duration}
use fusillade.Config.{Config, default, merge_from}

abbrev pub float : Float
float = record {
  F = ℕ;
  of_nat = λ n. n;
  add = ◌+◌;
  sub = ◌-◌;
  mul = ◌*◌;
  div = ◌/◌;
  abs = λ n. n;
  epsilon = 1;
  lt = ltb;
  le = leb;
  to_nat = λ n. n;
  parse = parse_u64;
  display = show_ℕ;
  fixed = λ _. show_ℕ;
}

-- The last value stands for the quantiles.
abbrev last : List ℕ → ℕ
last [] = 0
last (x ∷ xs) = x

abbrev pub histogram_lib : HistogramLib
histogram_lib = record {
  H = List ℕ;
  new = [];
  record_value = λ n h. n ∷ h;
  merge = λ g h. g ++ h;
  value_at_quantile = λ q h. last h;
  min_value = last;
  max_value = last;
  len = length;
}

abbrev pub timings : RequestTimings
timings = record {
  blocked = 1;
  connecting = 2;
  tls_handshaking = 3;
  sending = 4;
  waiting = 5_000_000;
  receiving = 6;
  duration = 5_000_016;
  response_size = 700;
  request_size = 80;
  pool_reused = false;
}

abbrev pub get : Metric ℕ
get = request (codes "GET /") timings 200 none []

abbrev pub failed : Metric ℕ
failed = request (codes "GET /") timings 500 (some (codes "HTTP 500")) []

abbrev pub metrics : List (Metric ℕ)
metrics = get ∷ check (codes "ok") true none ∷ failed ∷ check (codes "ok") false none ∷ []

abbrev from_workers : List (ℕ × Metric ℕ)
from_workers = (0, get) ∷ (7, failed) ∷ (3, get) ∷ (7, check (codes "ok") true none) ∷ []

abbrev pub fresh : Agg float histogram_lib
fresh = new_aggregator ℕ histogram_lib

merge-Agrees_example :
    (s : Sharded float histogram_lib) × (add_run float histogram_lib from_workers
        (Sharded.new float histogram_lib 3)
      ≡ some s)
    × Agrees
        (merge float histogram_lib s)
        (add_all float histogram_lib (map (λ p. p.1) from_workers) fresh)
merge-Agrees_example = merge-Agrees float histogram_lib 3 from_workers (omega arith)

add_all-new-IsConsistent_example : IsConsistent (add_all float histogram_lib metrics fresh)
add_all-new-IsConsistent_example = add_all-new-IsConsistent float histogram_lib metrics

abbrev thresholds : List (Text × List Text)
thresholds = (codes "http_req_failed", codes "rate < 1" ∷ codes "nonsense" ∷ []) ∷ []

validate_thresholds-nil_iff_example :
    (validate_thresholds float histogram_lib (add_all float histogram_lib metrics fresh) thresholds
      ≡ [])
    ↔ All
        (λ c.
          All
            (Holds float
              (to_report float histogram_lib (add_all float histogram_lib metrics fresh))
              c.0)
            c.1)
        thresholds
validate_thresholds-nil_iff_example =
    validate_thresholds-nil_iff float histogram_lib (add_all float histogram_lib metrics fresh)
      thresholds

scenario_stats-add_request_example :
    scenario_stats float histogram_lib
      (codes "login")
      (add float histogram_lib (request (codes "browse::GET /") timings 200 none []) fresh)
    ≡ scenario_stats float histogram_lib (codes "login") fresh
unfolding starts_with full_name
scenario_stats-add_request_example =
    scenario_stats-add_request float histogram_lib (codes "login") (codes "browse::GET /") timings
      200 none [] fresh refl

abbrev pub report : ReportStats ℕ
report = to_report float histogram_lib (add_all float histogram_lib metrics fresh)

abbrev letters : ℕ → Bool
letters c = ltb 64 c

scenarios-apart_example :
    scenario_stats float histogram_lib (codes "log") (
      add float histogram_lib
        (request (codes "login" ++ (codes "::" ++ codes "iteration")) timings 200 none [])
        fresh)
    ≡ scenario_stats float histogram_lib (codes "log") fresh
unfolding validate_scenario_name byte_len
scenarios-apart_example =
    scenarios-apart letters refl float histogram_lib (codes "log") (codes "login")
      (codes "iteration") timings 200 none [] fresh refl refl (ground arith)
